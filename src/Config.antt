-- ===== src/Config.antt =====
-- internal/config/config.go: the configuration of a node, its migration and its secret. The defaults
-- come from the environment and the clock: they are an argument. A nil slice is `none` where the code
-- asks for it. (AppVersion, NodeID and the fields that no code here reads are kept all the same.)
pub mod Current
pub mod Legacy
pub mod Migration
pub mod Secrets
use multi_send.Base.{
  ℕ, Bool, true, false, ◌&&◌, ◌||◌, not, List, [], ◌∷◌, ◌++◌, Option, none, some, if◌then◌else◌,
}
use multi_send.Base.Int.{ℤ, pos, lt_ℤ, le_ℤ, eq_ℤ}
use multi_send.Base.Text.{
  Text, txt, trim_space, to_lower, equal_fold, same_text, is_empty, hex_decode,
}
use multi_send.Ports.{Range}

pub record SelectedPorts : Type 0 where
  pub transfer : ℤ
  pub discovery : ℤ
  pub local_api : ℤ
  pub control : ℤ

pub record Config : Type 0 where
  pub schema_version : ℤ
  pub app_version : Text
  pub node_id : Text
  pub display_name : Text
  pub receive_path : Text
  pub transfer_port : ℤ
  pub discovery_port : ℤ
  pub discovery_mode : Text
  pub interfaces_mode : Text
  pub scheduler : Text
  pub chunk_mode : Text
  pub chunk_size_mb : ℤ
  pub start_on_login : Bool
  pub local_api_port : ℤ
  pub control_port : ℤ
  pub transfer_port_range : Range
  pub discovery_port_range : Range
  pub local_api_port_range : Range
  pub control_port_range : Range
  pub selected_ports : SelectedPorts
  pub interface_policy : Text
  pub interface_refresh : ℤ
  pub allow_new_interfaces : Bool
  pub ignore_virtual : Bool
  pub ignore_vpn : Bool
  pub ignore_link_local : Bool
  pub allowed_if_types : List Text
  pub manual_interfaces : Option (List Text)
  pub ignored_interfaces : Option (List Text)
  pub cleanup_completed_chunks : Bool
  pub keep_manifests : Bool
  pub cleanup_empty_download_dirs : Bool
  pub download_pipeline_mode : Text
  pub download_in_flight_per_chan : ℤ
  pub download_channel_strategy : Text
  pub download_split_cable_pct : ℤ
  pub pull_folder_result : Text
  pub node_secret : Text
  pub require_auth : Bool
  pub remote_send_roots : Option (List Text)

-- What DefaultConfig takes from the environment, the clock and the random source.
pub record Environment : Type 0 where
  pub node_id : Text
  pub host : Text
  pub receive_path : Text
  pub secret : Text

-- DefaultConfig
unfoldable pub default_config : Environment → Config
default_config env = record {
  schema_version = pos 4;
  app_version = txt "0.1.0";
  node_id = env.node_id;
  display_name = env.host;
  receive_path = env.receive_path;
  transfer_port = pos 55202;
  discovery_port = pos 55203;
  discovery_mode = txt "auto";
  interfaces_mode = txt "auto";
  scheduler = txt "auto";
  chunk_mode = txt "auto";
  chunk_size_mb = pos 32;
  start_on_login = true;
  local_api_port = pos 55204;
  control_port = pos 55205;
  transfer_port_range = record { start = pos 56200; end = pos 56210 };
  discovery_port_range = record { start = pos 56211; end = pos 56220 };
  local_api_port_range = record { start = pos 56221; end = pos 56230 };
  control_port_range = record { start = pos 56231; end = pos 56240 };
  selected_ports = record {
    transfer = pos 56200;
    discovery = pos 56211;
    local_api = pos 56221;
    control = pos 56231;
  };
  interface_policy = txt "auto";
  interface_refresh = pos 5;
  allow_new_interfaces = true;
  ignore_virtual = true;
  ignore_vpn = true;
  ignore_link_local = true;
  allowed_if_types = txt "ethernet" ∷ txt "wifi" ∷ txt "usb_ethernet" ∷ txt "unknown" ∷ [];
  manual_interfaces = some [];
  ignored_interfaces = some (
      txt "loopback"
      ∷ txt "hyper-v"
      ∷ txt "tailscale"
      ∷ txt "vpn"
      ∷ txt "virtualbox"
      ∷ txt "vmware"
      ∷ txt "docker"
      ∷ txt "wsl"
      ∷ txt "bluetooth"
      ∷ []);
  cleanup_completed_chunks = false;
  keep_manifests = true;
  cleanup_empty_download_dirs = false;
  download_pipeline_mode = txt "pipelined";
  download_in_flight_per_chan = pos 2;
  download_channel_strategy = txt "dynamic";
  download_split_cable_pct = pos 50;
  pull_folder_result = txt "zip";
  node_secret = env.secret;
  require_auth = false;
  remote_send_roots = some [];
}

-- strings.ToLower(strings.TrimSpace(v))
abbrev pub folded : Text → Text
folded v = to_lower (trim_space v)

unfoldable pub normalize_interface_policy : Text → Text
normalize_interface_policy v =
    if same_text (folded v) (txt "manual") || same_text (folded v) (txt "all")
    then folded v
    else txt "auto"

unfoldable pub normalize_download_pipeline_mode : Text → Text
normalize_download_pipeline_mode v =
    if same_text (folded v) (txt "pipelined") then txt "pipelined" else txt "legacy"

unfoldable pub normalize_download_channel_strategy : Text → Text
normalize_download_channel_strategy v =
    if same_text (folded v) (txt "strict_split") then txt "strict_split" else txt "dynamic"

unfoldable pub normalize_pull_folder_result : Text → Text
normalize_pull_folder_result v =
    if same_text (folded v) (txt "extract") then txt "extract" else txt "zip"

abbrev pub is_blank : Text → Bool
is_blank s = is_empty (trim_space s)

abbrev pub bytes_or : Text → Option (List ℕ) → List ℕ
bytes_or s none = s
bytes_or s (some []) = s
bytes_or s (some (b ∷ bs)) = b ∷ bs

-- SecretBytes; the nil slice is empty.
unfoldable pub secret_bytes : Config → List ℕ
secret_bytes c =
    if is_blank c.node_secret
    then []
    else bytes_or (trim_space c.node_secret) (hex_decode (trim_space c.node_secret))

unfoldable pub auth_secret : Config → List ℕ
unfolding secret_bytes
auth_secret c = if not c.require_auth then [] else secret_bytes c
