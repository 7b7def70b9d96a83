-- ===== src/Config/Legacy.antt =====
-- migrateLegacyConfig: the changes to an older configuration.
use multi_send.Base.{
  Bool, true, false, ◌&&◌, ◌||◌, not, List, [], ◌∷◌, ◌++◌, Option, none, some, if◌then◌else◌,
}
use multi_send.Base.Int.{ℤ, pos, lt_ℤ, le_ℤ, eq_ℤ}
use multi_send.Base.Text.{Text, txt, equal_fold, same_text}
use multi_send.Ports.{Range}
use multi_send.Config.{
  Config, normalize_interface_policy, normalize_download_pipeline_mode,
  normalize_download_channel_strategy, normalize_pull_folder_result, is_blank,
}

-- The tests of migrateLegacyConfig: each makes it report a migration.
abbrev pub is_old : ℤ → Bool
is_old version = lt_ℤ version (pos 4)

abbrev pub is_nil : Option (List Text) → Bool
is_nil none = true
is_nil (some s) = false

abbrev pub is_zero : ℤ → Bool
is_zero n = eq_ℤ n (pos 0)

abbrev pub is_unset : Range → Bool
is_unset r = is_zero r.start || is_zero r.end

abbrev pub is_changed : (Text → Text) → Text → Bool
is_changed normal v = not (same_text v (normal v))

unfoldable pub has_unknown : List Text → Bool
has_unknown [] = false
has_unknown (t ∷ ts) = equal_fold t (txt "unknown") || has_unknown ts

abbrev pub is_not_positive : ℤ → Bool
is_not_positive n = le_ℤ n (pos 0)

abbrev pub is_bad_percentage : ℤ → Bool
is_bad_percentage n = le_ℤ n (pos 0) || le_ℤ (pos 100) n

abbrev pub or_empty : Option (List Text) → Option (List Text)
or_empty none = some []
or_empty (some s) = some s

abbrev pub range_or : Range → Range → Range
range_or def r = if is_unset r then def else r

abbrev pub selected_or : (selected port start : ℤ) → ℤ
selected_or selected port start =
    if is_zero selected then (if is_zero port then start else port) else selected

abbrev pub port_or : (port selected : ℤ) → ℤ
port_or port selected = if is_zero port then selected else port

abbrev pub policy_or : Text → Text → Text
policy_or def v = if is_blank v then def else v

abbrev pub positive_or : ℤ → ℤ → ℤ
positive_or def n = if is_not_positive n then def else n

abbrev pub percentage_or : ℤ → ℤ → ℤ
percentage_or def n = if is_bad_percentage n then def else n

abbrev pub with_unknown : List Text → List Text → List Text
with_unknown def [] = def
with_unknown def (t ∷ ts) = if has_unknown (t ∷ ts) then t ∷ ts else (t ∷ ts) ++ txt "unknown" ∷ []

-- What it makes of the configuration, field by field: no field is written from one that a later
-- statement changes. `fresh` is what GenerateSecret gives.
unfoldable pub migrated : (def : Config) → (fresh : Text) → Config → Config
unfolding has_unknown normalize_interface_policy normalize_download_pipeline_mode
    normalize_download_channel_strategy normalize_pull_folder_result
migrated def fresh c =
    let transfer_range = range_or def.transfer_port_range c.transfer_port_range in
    let discovery_range = range_or def.discovery_port_range c.discovery_port_range in
    let local_api_range = range_or def.local_api_port_range c.local_api_port_range in
    let control_range = range_or def.control_port_range c.control_port_range in
    let transfer = selected_or c.selected_ports.transfer c.transfer_port transfer_range.start in
    let discovery = selected_or c.selected_ports.discovery c.discovery_port discovery_range.start in
    let local_api = selected_or c.selected_ports.local_api c.local_api_port local_api_range.start in
    let control = selected_or c.selected_ports.control c.control_port control_range.start in
    record c {
      schema_version = if is_old c.schema_version then pos 4 else c.schema_version;
      cleanup_completed_chunks = not (lt_ℤ c.schema_version (pos 3)) && c.cleanup_completed_chunks;
      keep_manifests = lt_ℤ c.schema_version (pos 3) || c.keep_manifests;
      cleanup_empty_download_dirs =
          not (lt_ℤ c.schema_version (pos 3)) && c.cleanup_empty_download_dirs;
      node_secret = if is_blank c.node_secret then fresh else c.node_secret;
      remote_send_roots = or_empty c.remote_send_roots;
      transfer_port_range = transfer_range;
      discovery_port_range = discovery_range;
      local_api_port_range = local_api_range;
      control_port_range = control_range;
      selected_ports = record {
        transfer = transfer;
        discovery = discovery;
        local_api = local_api;
        control = control;
      };
      transfer_port = port_or c.transfer_port transfer;
      discovery_port = port_or c.discovery_port discovery;
      local_api_port = port_or c.local_api_port local_api;
      control_port = port_or c.control_port control;
      interface_policy =
          normalize_interface_policy (policy_or def.interface_policy c.interface_policy);
      interface_refresh = positive_or def.interface_refresh c.interface_refresh;
      allowed_if_types = with_unknown def.allowed_if_types c.allowed_if_types;
      manual_interfaces = or_empty c.manual_interfaces;
      ignored_interfaces = or_empty c.ignored_interfaces;
      download_pipeline_mode = normalize_download_pipeline_mode c.download_pipeline_mode;
      download_in_flight_per_chan =
          positive_or def.download_in_flight_per_chan c.download_in_flight_per_chan;
      download_channel_strategy = normalize_download_channel_strategy c.download_channel_strategy;
      download_split_cable_pct =
          percentage_or def.download_split_cable_pct c.download_split_cable_pct;
      pull_folder_result = normalize_pull_folder_result c.pull_folder_result;
    }

-- The tests, in their order; a port that is not selected, but kept, is no reason to report.
abbrev pub reasons : Config → List Bool
reasons c =
    is_old c.schema_version
    ∷ is_blank c.node_secret
    ∷ is_nil c.remote_send_roots
    ∷ is_unset c.transfer_port_range
    ∷ is_unset c.discovery_port_range
    ∷ is_unset c.local_api_port_range
    ∷ is_unset c.control_port_range
    ∷ is_zero c.selected_ports.transfer
    ∷ is_zero c.selected_ports.discovery
    ∷ is_zero c.selected_ports.local_api
    ∷ is_zero c.selected_ports.control
    ∷ (is_blank c.interface_policy || is_changed normalize_interface_policy c.interface_policy)
    ∷ is_not_positive c.interface_refresh
    ∷ not (has_unknown c.allowed_if_types)
    ∷ is_nil c.manual_interfaces
    ∷ is_nil c.ignored_interfaces
    ∷ is_changed normalize_download_pipeline_mode c.download_pipeline_mode
    ∷ is_not_positive c.download_in_flight_per_chan
    ∷ is_changed normalize_download_channel_strategy c.download_channel_strategy
    ∷ is_bad_percentage c.download_split_cable_pct
    ∷ is_changed normalize_pull_folder_result c.pull_folder_result
    ∷ []

abbrev pub any : List Bool → Bool
any [] = false
any (b ∷ bs) = b || any bs

-- migrateLegacyConfig, on a configuration that is not nil.
unfoldable pub migrate_legacy_config : (def : Config) → (fresh : Text) → Config → Config × Bool
unfolding migrated has_unknown
migrate_legacy_config def fresh c = (migrated def fresh c, any (reasons c))
