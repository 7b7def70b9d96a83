-- ===== src/Interfaces.antt =====
-- internal/ifmonitor/ifmonitor.go: which network interfaces may be used. The interfaces of the system are
-- an input. An address is what To4 and String make of it: `none` is the nil address.
pub mod Usable
use multi_send.Base.{
  ℕ, Bool, true, false, ◌&&◌, ◌||◌, not, List, [], ◌∷◌, ◌++◌, Option, none, some, if◌then◌else◌,
  ◌==◌,
}
use multi_send.Base.Text.{Text, txt, to_lower, trim_space, contains, equal_fold, same_text}
use multi_send.Base.Decimal.{format_nat}
use multi_send.Config.{Config, normalize_interface_policy}

pub record Ipv4 : Type 0 where
  pub a : ℕ
  pub b : ℕ
  pub c : ℕ
  pub d : ℕ

pub record Interface : Type 0 where
  pub name : Text
  pub is_up : Bool
  pub is_loopback : Bool
  -- Addrs(); `none` is its error.
  pub addrs : Option (List (Option Ipv4))

pub record InterfaceInfo : Type 0 where
  pub name : Text
  pub type : Text
  pub ipv4 : Option Ipv4
  pub is_usable : Bool
  pub ignore_reason : Text

-- ip.String()
unfoldable pub format_ip : Ipv4 → Text
format_ip ip =
    format_nat ip.a ++ 46 ∷ format_nat ip.b ++ 46 ∷ format_nat ip.c ++ 46 ∷ format_nat ip.d

-- The empty string for no address.
abbrev pub format_address : Option Ipv4 → Text
format_address none = []
format_address (some ip) = format_ip ip

unfoldable pub contains_any : Text → List Text → Bool
contains_any s [] = false
contains_any s (t ∷ ts) = contains s t || contains_any s ts

unfoldable pub classify_type : Text → Text
unfolding contains_any
classify_type name =
    let l = to_lower name in
    if contains_any l (txt "wi-fi" ∷ txt "wifi" ∷ txt "wireless" ∷ [])
    then txt "wifi"
    else if contains l (txt "usb") && contains l (txt "ethernet")
    then txt "usb_ethernet"
    else if contains l (txt "ethernet")
    then txt "ethernet"
    else txt "unknown"

unfoldable pub contains_ignored : Text → List Text → Bool
contains_ignored l [] = false
contains_ignored l (n ∷ ns) = contains l (to_lower (trim_space n)) || contains_ignored l ns

abbrev pub ignored_of : Option (List Text) → List Text
ignored_of none = []
ignored_of (some ns) = ns

unfoldable pub should_ignore_by_name : Config → Text → Bool
unfolding contains_ignored contains_any
should_ignore_by_name cfg name =
    let l = to_lower name in
    contains_ignored l (ignored_of cfg.ignored_interfaces)
    || ((cfg.ignore_virtual
          && contains_any l (
              txt "hyper-v"
              ∷ txt "vethernet"
              ∷ txt "wsl"
              ∷ txt "docker"
              ∷ txt "vmware"
              ∷ txt "virtualbox"
              ∷ []))
        || ((cfg.ignore_vpn && contains_any l (txt "tailscale" ∷ txt "vpn" ∷ []))
            || contains l (txt "bluetooth")))

abbrev pub is_loopback_ip : Ipv4 → Bool
is_loopback_ip ip = ip.a == 127

abbrev pub is_unspecified : Ipv4 → Bool
is_unspecified ip = ip.a == 0 && (ip.b == 0 && (ip.c == 0 && ip.d == 0))

abbrev pub is_link_local : Ipv4 → Bool
is_link_local ip = ip.a == 169 && ip.b == 254

abbrev pub is_unusable : (ignore_link_local : Bool) → Ipv4 → Bool
is_unusable ignore_link_local ip =
    is_loopback_ip ip || is_unspecified ip || (ignore_link_local && is_link_local ip)

unfoldable pub first_usable_ipv4 : Bool → List (Option Ipv4) → Option Ipv4
first_usable_ipv4 ignore_link_local [] = none
first_usable_ipv4 ignore_link_local (none ∷ addrs) = first_usable_ipv4 ignore_link_local addrs
first_usable_ipv4 ignore_link_local (some ip ∷ addrs) =
    let rest = first_usable_ipv4 ignore_link_local addrs in
    if is_unusable ignore_link_local ip then rest else some ip

unfoldable pub is_allowed_type : List Text → Text → Bool
is_allowed_type [] type = false
is_allowed_type (t ∷ ts) type = equal_fold (trim_space t) type || is_allowed_type ts type

unfoldable pub is_named : List Text → Text → Text → Bool
is_named [] name ip = false
is_named (n ∷ ns) name ip =
    equal_fold (trim_space n) name || equal_fold (trim_space n) ip || is_named ns name ip

unfoldable pub is_allowed_by_policy : Config → InterfaceInfo → Bool
unfolding is_allowed_type is_named normalize_interface_policy
is_allowed_by_policy cfg info =
    let p = normalize_interface_policy cfg.interface_policy in
    if same_text p (txt "manual")
    then is_named (ignored_of cfg.manual_interfaces) info.name (format_address info.ipv4)
    else if same_text p (txt "all")
    then true
    else is_allowed_type cfg.allowed_if_types info.type

abbrev pub refused : InterfaceInfo → Text → InterfaceInfo
refused info reason = record info { ignore_reason = reason }

abbrev pub by_policy : Config → InterfaceInfo → InterfaceInfo
by_policy cfg info =
    if not (is_allowed_by_policy cfg info)
    then refused info (txt "policy-blocked")
    else record info { is_usable = true }

abbrev pub by_address : Option Ipv4 → Config → InterfaceInfo → InterfaceInfo
by_address none cfg info = refused info (txt "no-usable-ipv4")
by_address (some ip) cfg info = by_policy cfg (record info { ipv4 = some ip })

abbrev pub by_addrs : Option (List (Option Ipv4)) → Config → InterfaceInfo → InterfaceInfo
by_addrs none cfg info = refused info (txt "addr-query-failed")
by_addrs (some addrs) cfg info = by_address (first_usable_ipv4 cfg.ignore_link_local addrs) cfg info

-- One round of the loop.
unfoldable pub inspect : Config → Interface → InterfaceInfo
unfolding classify_type should_ignore_by_name first_usable_ipv4 is_allowed_by_policy
inspect cfg ifc =
    let info : InterfaceInfo = record {
      name = ifc.name;
      type = classify_type ifc.name;
      ipv4 = none;
      is_usable = false;
      ignore_reason = [];
    } in
    if not ifc.is_up
    then refused info (txt "disconnected")
    else if ifc.is_loopback
    then refused info (txt "loopback")
    else if should_ignore_by_name cfg ifc.name
    then refused info (txt "ignored-by-name")
    else by_addrs ifc.addrs cfg info

unfoldable pub detect_usable_interfaces : Config → List Interface → List InterfaceInfo
unfolding inspect
detect_usable_interfaces cfg [] = []
detect_usable_interfaces cfg (ifc ∷ ifs) = inspect cfg ifc ∷ detect_usable_interfaces cfg ifs
