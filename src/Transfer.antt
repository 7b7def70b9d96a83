-- ===== src/Transfer.antt =====
-- internal/transfer/sender.go: a file sent to a peer in chunks over several interfaces. Here the
-- manifest that a transfer starts from, and its channels. `localChannel` and `findChannel` are the
-- same text as the downloader's, and so is the test that every chunk is done.
pub mod Origin
pub mod Attempt
pub mod Progress
pub mod Send
use multi_send.Base.{
  ℕ, zero, suc, Bool, true, false, ◌&&◌, ◌||◌, not, List, [], ◌∷◌, Option, none, some, String,
  select, map, if◌then◌else◌, Result, ok, err,
}
use multi_send.Base.Int.{ℤ, pos, lt_ℤ, eq_ℤ}
use multi_send.Base.Text.{Text, txt, same_text, is_empty}
use multi_send.Base.Dict.{Dict, str_eq, at, has_key, put}
use multi_send.Base.Float.{FloatOps}
use multi_send.Base.Sort.{sort_by}
use multi_send.Chunk.{Chunk, ChunkPlan}
use multi_send.Manifest.{
  ChunkState, Manifest, Status, is_pending, is_failed, is_done, by_index, activate_resume,
  has_canceled_chunks,
}
use multi_send.Scheduler.{Channel}
use multi_send.Download.{LocalChannel, has_channel, all_done}

abbrev pub max_attempts_per_chunk : ℤ
max_attempts_per_chunk = pos 3

pub data InterfaceType : Type 0 where
  ethernet usb_ethernet unknown wifi : InterfaceType
  other : Text → InterfaceType

pub record InterfaceBinding : Type 0 where
  pub name : Text
  pub type : InterfaceType
  pub ip : Text

abbrev pub is_cable : InterfaceType → Bool
is_cable ethernet = true
is_cable usb_ethernet = true
is_cable unknown = true
is_cable _ = false

abbrev pub is_wifi : InterfaceType → Bool
is_wifi wifi = true
is_wifi _ = false

-- `if cableIP == "" { cableIP = it.IP }`
abbrev pub or_ip : Text → Text → Text
or_ip [] ip = ip
or_ip (c ∷ s) ip = c ∷ s

-- The loop over the interfaces: the first address of each kind, or "".
unfoldable pub first_ips : Text → Text → List InterfaceBinding → Text × Text
first_ips cable_ip wifi_ip [] = (cable_ip, wifi_ip)
first_ips cable_ip wifi_ip (it ∷ its) =
    first_ips (if is_cable it.type then or_ip cable_ip it.ip else cable_ip)
      (if not (is_cable it.type) && is_wifi it.type then or_ip wifi_ip it.ip else wifi_ip) its

abbrev pub channel_if : String → Text → List LocalChannel → List LocalChannel
channel_if name [] rest = rest
channel_if name (c ∷ s) rest = record { name = name; ip = c ∷ s } ∷ rest

unfoldable pub name_by_place : String → List Text → List LocalChannel
name_by_place name [] = []
name_by_place name (ip ∷ ips) = record { name = name; ip = ip } ∷ name_by_place "wifi" ips

-- buildDynamicChannels; `none` is the nil provider.
unfoldable pub build_dynamic_channels :
    List Text → Option (List InterfaceBinding) → List LocalChannel
unfolding name_by_place first_ips
build_dynamic_channels local_ips none = name_by_place "cable" local_ips
build_dynamic_channels local_ips (some list) =
    let (cable_ip, wifi_ip) = first_ips [] [] list in
    channel_if "cable" cable_ip (channel_if "wifi" wifi_ip [])

unfoldable pub retryable_pending : Manifest → List ChunkState
unfolding select sort_by
retryable_pending m = sort_by by_index (
    select
      (λ c. is_pending c.status || (is_failed c.status && lt_ℤ c.attempts max_attempts_per_chunk))
      m.chunks)

-- manifestComplete, of a manifest that is not nil.
unfoldable pub manifest_complete : Manifest → Bool
unfolding all_done
manifest_complete m = elim m.chunks [ [] ↦ false | c ∷ cs ↦ all_done (c ∷ cs) ]

-- The file and the target of a transfer: what the manifest must agree with.
pub record Source : Type 0 where
  pub identity : Text
  pub abs_path : Text
  pub dir : Text
  pub file_name : Text
  pub size : ℤ
  pub mod_time : ℤ
  pub chunk_size : ℤ
  pub target_address : Text

abbrev pub new_chunk : Chunk → ChunkState
new_chunk c = record {
  index = c.index;
  offset = c.offset;
  size = c.size;
  status = Status.pending;
  attempts = pos 0;
  last_error = [];
  channel = "";
  bytes_done = pos 0;
  started_at = none;
  completed_at = none;
  hash_sha256 = [];
}

-- newManifest; the id comes from the clock.
unfoldable pub new_manifest : ℕ → Text → Source → ChunkPlan → Manifest
new_manifest now transfer_id src plan = record {
  schema_version = pos 1;
  transfer_id = transfer_id;
  type = txt "p2p";
  file_name = src.file_name;
  total_bytes = src.size;
  chunk_size = src.chunk_size;
  created_at = now;
  updated_at = now;
  source = record {
    type = txt "p2p";
    address = [];
    url = [];
    identity = src.identity;
    abs_path = src.abs_path;
    mod_time = src.mod_time;
  };
  target = record { type = txt "p2p"; address = src.target_address; path = src.dir };
  chunks = map new_chunk plan.chunks;
}

unfoldable pub is_compatible : Source → Manifest → Bool
is_compatible src m =
    same_text m.file_name src.file_name
    && (eq_ℤ m.total_bytes src.size
        && (eq_ℤ m.chunk_size src.chunk_size
            && (same_text m.target.address src.target_address
                && same_text m.source.identity src.identity)))

pub data OriginError : Type 0 where
  manifest_incompatible manifest_not_found : OriginError

-- loadOrCreateManifest, on what manifest.Load gave (`none`: an error).
unfoldable pub load_or_create :
    ℕ
    → Text
    → Option Manifest
    → Source
    → ChunkPlan
    → (explicit_resume : Bool) → Result OriginError Manifest
unfolding is_compatible activate_resume has_canceled_chunks manifest_complete new_manifest
load_or_create now id none src plan explicit_resume =
    if explicit_resume then err manifest_not_found else ok (new_manifest now id src plan)
load_or_create now id (some existing) src plan explicit_resume =
    if is_compatible src existing
    then (if explicit_resume
        then ok (activate_resume max_attempts_per_chunk existing)
        else if has_canceled_chunks existing || manifest_complete existing
        then ok (new_manifest now id src plan)
        else ok existing)
    else if explicit_resume
    then err manifest_incompatible
    else ok (new_manifest now id src plan)

module _ (fl : FloatOps) where
  open fl use {Float, lit}

  pub record ChannelDetail : Type 0 where
    pub state : String
    pub interface_name : String
    pub local_ip : Text
    pub bytes_sent : ℤ
    pub mbps_now : Float
    pub mbps30s : Float
    pub failures : ℤ
    pub last_error : Text

  abbrev pub zero_detail : ChannelDetail
  zero_detail = record {
    state = "";
    interface_name = "";
    local_ip = [];
    bytes_sent = pos 0;
    mbps_now = lit 0 0;
    mbps30s = lit 0 0;
    failures = pos 0;
    last_error = [];
  }

  -- The first loop of updateFromChannels.
  unfoldable pub mark_present : Dict ChannelDetail → List LocalChannel → Dict ChannelDetail
  unfolding at put
  mark_present stats [] = stats
  mark_present stats (ch ∷ chs) =
      let cur = at zero_detail stats ch.name in
      mark_present
        (put stats ch.name (record cur {
          state = "active";
          local_ip = ch.ip;
          interface_name = if str_eq cur.interface_name "" then ch.name else cur.interface_name;
        }))
        chs

  unfoldable pub mark_absent :
      List LocalChannel → Dict ChannelDetail → List String → Dict ChannelDetail
  unfolding at put has_channel
  mark_absent channels stats [] = stats
  mark_absent channels stats (n ∷ ns) =
      mark_absent channels
        (if has_channel channels n
          then stats
          else put stats n (record (at zero_detail stats n) { state = "offline" }))
        ns

  -- channelStats.updateFromChannels
  unfoldable pub update_from_channels : Dict ChannelDetail → List LocalChannel → Dict ChannelDetail
  unfolding mark_present mark_absent
  update_from_channels stats channels =
      mark_absent channels (mark_present stats channels) ("cable" ∷ "wifi" ∷ [])

  abbrev pub dynamic_state : Dict ℤ → Dict ChannelDetail → LocalChannel → Channel fl
  dynamic_state in_flight stats c =
      let ch : Channel fl = record {
        name = c.name;
        active = true;
        in_flight = at (pos 0) in_flight c.name;
        mbps30s = lit 0 0;
        failures = pos 0;
        last_error = [];
      } in
      if has_key stats c.name
      then (let s = at zero_detail stats c.name in
          record ch { mbps30s = s.mbps30s; failures = s.failures; last_error = s.last_error })
      else ch

  -- channelStatesDynamic
  unfoldable pub channel_states_dynamic :
      List LocalChannel → Dict ℤ → Dict ChannelDetail → List (Channel fl)
  channel_states_dynamic [] in_flight stats = []
  channel_states_dynamic (c ∷ cs) in_flight stats =
      dynamic_state in_flight stats c ∷ channel_states_dynamic cs in_flight stats
