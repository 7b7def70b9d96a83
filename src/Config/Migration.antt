-- ===== src/Config/Migration.antt =====
-- migrateLegacyConfig: what it gives needs no further migration.
use multi_send.Base.{
  ◌≡◌, refl, sym, Bool, true, false, not, List, [], ◌∷◌, Option, none, some, All, arith,
}
use multi_send.Base.Int.{pos, lt_ℤ}
use multi_send.Base.Text.{Text, same_text, same_text_iff}
use multi_send.Config.{
  Config, Environment, default_config, normalize_interface_policy, normalize_download_pipeline_mode,
  normalize_download_channel_strategy, normalize_pull_folder_result, is_blank,
}
use multi_send.Config.Legacy.{
  policy_or, is_nil, is_changed, has_unknown, or_empty, port_or, with_unknown, migrated, reasons,
  any, migrate_legacy_config,
}
use multi_send.Config.Current.{
  new_version, secret_kept, not_nil, range_kept, selected_kept, start_set, positive_kept,
  percentage_kept, types_kept, policy_kept, mode_kept, port_or_twice, strategy_kept, result_kept,
}

All-any : (bs : List Bool) → any bs ≡ false → All (λ b. b ≡ false) bs
All-any [] h = tt
All-any (true ∷ bs) h = absurd (cc)
All-any (false ∷ bs) h = (refl, All-any bs h)

any-All : (bs : List Bool) → All (λ b. b ≡ false) bs → any bs ≡ false
any-All [] h = refl
any-All (b ∷ bs) (p, h) = rw p (any-All bs h)

unchanged_lem : (normal : Text → Text) (v : Text) → is_changed normal v ≡ false → normal v ≡ v
unchanged_lem normal v h = sym ((same_text_iff v (normal v)).0 (ground arith))

or_empty_id : (o : Option (List Text)) → is_nil o ≡ false → or_empty o ≡ o
or_empty_id none h = absurd (cc)
or_empty_id (some s) h = refl

with_unknown_id : (def ts : List Text) → not (has_unknown ts) ≡ false → with_unknown def ts ≡ ts
unfolding has_unknown
with_unknown_id def [] h = absurd (cc)
with_unknown_id def (t ∷ ts) h = ground arith

-- The ports that are unset, filled in.
abbrev pub with_ports : Config → Config
with_ports c = record c {
  transfer_port = port_or c.transfer_port c.selected_ports.transfer;
  discovery_port = port_or c.discovery_port c.selected_ports.discovery;
  local_api_port = port_or c.local_api_port c.selected_ports.local_api;
  control_port = port_or c.control_port c.selected_ports.control;
}

-- A configuration with no reason to be migrated is kept, but for ports that are unset.
migrated_current :
    (def : Config) (fresh : Text) (c : Config)
    → any (reasons c) ≡ false
    → migrated def fresh c ≡ with_ports c
unfolding migrated
migrated_current def fresh c h =
    let (
      version,
      (
        secret,
        (
          roots,
          (
            r1,
            (
              r2,
              (
                r3,
                (
                  r4,
                  (
                    s1,
                    (
                      s2,
                      (
                        s3,
                        (
                          s4,
                          (
                            policy,
                            (
                              refresh,
                              (
                                types,
                                (
                                  manual,
                                  (
                                    ignored,
                                    (mode, (flights, (strategy, (percentage, (result, last))))),
                                  ),
                                ),
                              ),
                            ),
                          ),
                        ),
                      ),
                    ),
                  ),
                ),
              ),
            ),
          ),
        ),
      ),
    ) =
      All-any (reasons c) h in
    let young : lt_ℤ c.schema_version (pos 3) ≡ false = ground arith in
    let kept : is_blank c.interface_policy ≡ false = ground arith in
    let normal : is_changed normalize_interface_policy c.interface_policy ≡ false = ground arith in
    rw
      (
        version,
        young,
        secret,
        or_empty_id c.remote_send_roots roots,
        r1,
        r2,
        r3,
        r4,
        s1,
        s2,
        s3,
        s4,
        kept,
        unchanged_lem normalize_interface_policy c.interface_policy normal,
        refresh,
        with_unknown_id def.allowed_if_types c.allowed_if_types types,
        or_empty_id c.manual_interfaces manual,
        or_empty_id c.ignored_interfaces ignored,
        unchanged_lem normalize_download_pipeline_mode c.download_pipeline_mode mode,
        flights,
        unchanged_lem normalize_download_channel_strategy c.download_channel_strategy strategy,
        percentage,
        unchanged_lem normalize_pull_folder_result c.pull_folder_result result,
      )
      refl

-- What a migration to the defaults gives is current.
reasons-migrated :
    (env : Environment) (fresh : Text) (c : Config)
    → is_blank fresh ≡ false
    → any (reasons (migrated (default_config env) fresh c)) ≡ false
unfolding migrated default_config
reasons-migrated env fresh c h =
    let def = default_config env in
    let t = range_kept def.transfer_port_range c.transfer_port_range refl in
    let d = range_kept def.discovery_port_range c.discovery_port_range refl in
    let l = range_kept def.local_api_port_range c.local_api_port_range refl in
    let k = range_kept def.control_port_range c.control_port_range refl in
    let m = migrated def fresh c in
    any-All (reasons m) (
      new_version c.schema_version,
      (
        secret_kept fresh c.node_secret h,
        (
          not_nil c.remote_send_roots,
          (
            t,
            (
              d,
              (
                l,
                (
                  k,
                  (
                    selected_kept c.selected_ports.transfer c.transfer_port
                        m.transfer_port_range.start (start_set m.transfer_port_range t),
                    (
                      selected_kept c.selected_ports.discovery c.discovery_port
                          m.discovery_port_range.start (start_set m.discovery_port_range d),
                      (
                        selected_kept c.selected_ports.local_api c.local_api_port
                            m.local_api_port_range.start (start_set m.local_api_port_range l),
                        (
                          selected_kept c.selected_ports.control c.control_port
                              m.control_port_range.start (start_set m.control_port_range k),
                          (
                            policy_kept (policy_or def.interface_policy c.interface_policy),
                            (
                              positive_kept def.interface_refresh c.interface_refresh refl,
                              (
                                types_kept def.allowed_if_types c.allowed_if_types
                                    (unfold has_unknown same_text in refl),
                                (
                                  not_nil c.manual_interfaces,
                                  (
                                    not_nil c.ignored_interfaces,
                                    (
                                      mode_kept c.download_pipeline_mode,
                                      (
                                        positive_kept def.download_in_flight_per_chan
                                            c.download_in_flight_per_chan refl,
                                        (
                                          strategy_kept c.download_channel_strategy,
                                          (
                                            percentage_kept c.download_split_cable_pct,
                                            (result_kept c.pull_folder_result, tt),
                                          ),
                                        ),
                                      ),
                                    ),
                                  ),
                                ),
                              ),
                            ),
                          ),
                        ),
                      ),
                    ),
                  ),
                ),
              ),
            ),
          ),
        ),
      ),
    )

with_ports-migrated :
    (def : Config) (fresh : Text) (c : Config)
    → with_ports (migrated def fresh c) ≡ migrated def fresh c
unfolding migrated
with_ports-migrated def fresh c =
    let m = migrated def fresh c in
    rw
      (
        port_or_twice c.transfer_port m.selected_ports.transfer,
        port_or_twice c.discovery_port m.selected_ports.discovery,
        port_or_twice c.local_api_port m.selected_ports.local_api,
        port_or_twice c.control_port m.selected_ports.control,
      )
      refl

-- A configuration that was migrated is not migrated again, whatever secret would be fresh then: the
-- second migration changes nothing and reports nothing, if the first one's fresh secret was not blank.
pub migrate_legacy_config_twice :
    (env later : Environment) (fresh next : Text) (c : Config)
    → is_blank fresh ≡ false
    → let m = (migrate_legacy_config (default_config env) fresh c).0 in
      migrate_legacy_config (default_config later) next m ≡ (m, false)
unfolding migrate_legacy_config
migrate_legacy_config_twice env later fresh next c h =
    let m = migrated (default_config env) fresh c in
    let current = reasons-migrated env fresh c h in
    rw
      (
        migrated_current (default_config later) next m current,
        current,
        with_ports-migrated (default_config env) fresh c,
      )
      refl
