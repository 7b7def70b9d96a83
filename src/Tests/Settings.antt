-- ===== src/Tests/Settings.antt =====
-- A port range read and a port picked; an old configuration.
use multi_send.Config.Secrets.{auth_secret-hex_encode}
use multi_send.Config.{auth_secret, Config, Environment, default_config}
use multi_send.Base.Text.{hex_encode, trim_space, txt}
use multi_send.Base.{true, ◌≡◌, ◌++◌, refl, false, Bool, List, [], ◌∷◌, none, ok, arith}
use multi_send.Base.Int.{ℤ, pos, eq_ℤ}
use multi_send.Base.Decimal.{format_nat}
use multi_send.Ports.{normalize, parse_range, pick_port, excluded_ranges}
use multi_send.Ports.Parsing.{parse_range-format}
use multi_send.Ports.Picking.{IsPortOf, pick_port_lem}
use multi_send.Config.Legacy.{migrate_legacy_config}
use multi_send.Config.Migration.{migrate_legacy_config_twice}

parse_range-format_example :
    parse_range (format_nat 9 ++ 45 ∷ format_nat 8)
    ≡ ok (normalize (record { start = pos 9; end = pos 8 }))
parse_range-format_example =
    parse_range-format 9 8 (omega arith) (omega arith) (omega arith) (omega arith)

-- Every port but 8 is in use, and 7 is excluded.
abbrev is_eight : ℤ → Bool
is_eight port = eq_ℤ port (pos 8)

abbrev seven : List (ℤ × ℤ)
seven = (pos 7, pos 7) ∷ []

pick_port_lem_example :
    IsPortOf is_eight
      (excluded_ranges seven)
      (record { start = pos 9; end = pos 7 })
      (pick_port 65536 is_eight seven (record { start = pos 9; end = pos 7 }))
pick_port_lem_example = pick_port_lem is_eight seven (record { start = pos 9; end = pos 7 })

abbrev env : Environment
env = record {
  node_id = txt "n";
  host = txt "h";
  receive_path = txt "r";
  secret = hex_encode (7 ∷ 255 ∷ []);
}

-- Of the first schema, with no ports, an unknown policy and no secret.
abbrev old : Config
old = record (default_config env) {
  schema_version = pos 1;
  transfer_port = pos 0;
  transfer_port_range = record { start = pos 0; end = pos 0 };
  selected_ports = record {
    transfer = pos 0;
    discovery = pos 1;
    local_api = pos 2;
    control = pos 3;
  };
  interface_policy = txt " ALL ";
  node_secret = [];
  manual_interfaces = none;
}

migrate_legacy_config_twice_example :
    migrate_legacy_config
      (default_config env)
      (txt "b")
      (migrate_legacy_config (default_config env) (txt "a") old).0
    ≡ ((migrate_legacy_config (default_config env) (txt "a") old).0, false)
unfolding trim_space
migrate_legacy_config_twice_example =
    migrate_legacy_config_twice env env (txt "a") (txt "b") old refl

abbrev paired : Config
paired = record (default_config env) { require_auth = true }

auth_secret-hex_encode_example : auth_secret paired ≡ 7 ∷ 255 ∷ []
unfolding hex_encode default_config
auth_secret-hex_encode_example =
    auth_secret-hex_encode paired 7 (255 ∷ []) (omega arith, (omega arith, tt)) refl refl
