-- ===== src/Download/State.antt =====
-- The state of one download and what its bookkeeping writes. A reading of the clock is the argument
-- `now`, in nanoseconds; `part_size` is os.Stat of a chunk's part file (`none`: it failed).
pub mod Updates
pub mod Stats
pub mod Kept
use multi_send.Base.{
  ℕ, zero, suc, ◌+◌, ◌-◌, ◌*◌, ◌/◌, ◌%◌, Bool, true, false, ◌&&◌, ◌||◌, not, List, [], ◌∷◌, ◌++◌,
  Option, none, some, String, length, ltb, leb, if◌then◌else◌,
}
use multi_send.Base.Int.{ℤ, pos, sub_ℕ, lt_ℤ, le_ℤ, eq_ℤ, add64, sub64}
use multi_send.Base.Text.{Text}
use multi_send.Base.Dict.{Dict, str_eq, at, has_key, put}
use multi_send.Base.Float.{FloatOps}
use multi_send.Manifest.{
  ChunkState, Manifest, Status, sending, done, failed, is_sending, is_done, is_failed, done_bytes,
}
use multi_send.Download.{LocalChannel, has_channel}

pub record ChunkFailureRef : Type 0 where
  pub index : ℤ
  pub attempts : ℤ
  pub last_error : Text
  pub channel : String

pub record Sample : Type 0 where
  pub at_time : ℕ
  pub bytes : ℤ

pub data JobStatus : Type 0 where
  running done_job failed_job canceled_job : JobStatus

-- `fi.Size()` cut to what a chunk can hold.
abbrev pub clip : ℤ → ℤ → ℤ
clip limit n = let n = if lt_ℤ n (pos 0) then pos 0 else n in if lt_ℤ limit n then limit else n

-- What a chunk in flight adds to the progress.
abbrev pub sending_bytes : (ℤ → Option ℤ) → ChunkState → ℤ
sending_bytes part_size c = elim (part_size c.index) [ none ↦ pos 0 | some n ↦ clip c.size n ]

-- The loop of estimateProgressBytesLocked.
unfoldable pub estimate_from : (ℤ → Option ℤ) → ℤ → List ChunkState → ℤ
estimate_from part_size sum [] = sum
estimate_from part_size sum (c ∷ cs) =
    estimate_from part_size
      (if is_sending c.status then add64 sum (sending_bytes part_size c) else sum) cs

unfoldable pub estimate_progress_bytes : (ℤ → Option ℤ) → Manifest → ℤ → ℤ
unfolding estimate_from done_bytes
estimate_progress_bytes part_size mf total_bytes =
    let sum = estimate_from part_size (done_bytes mf) mf.chunks in
    if lt_ℤ total_bytes sum then total_bytes else if lt_ℤ sum (pos 0) then pos 0 else sum

-- The counts of refreshStatsLocked.
pub record Counts : Type 0 where
  pub done_count : ℤ
  pub failed_count : ℤ
  pub pending_count : ℤ
  pub sending_count : ℤ
  pub failed_list : List ChunkFailureRef

abbrev pub no_counts : Counts
no_counts = record {
  done_count = pos 0;
  failed_count = pos 0;
  pending_count = pos 0;
  sending_count = pos 0;
  failed_list = [];
}

abbrev pub failure_ref : ChunkState → ChunkFailureRef
failure_ref c = record {
  index = c.index;
  attempts = c.attempts;
  last_error = c.last_error;
  channel = c.channel;
}

abbrev pub tally_by : Status → ChunkState → Counts → Counts
tally_by done c n = record n { done_count = add64 n.done_count (pos 1) }
tally_by failed c n = record n {
  failed_count = add64 n.failed_count (pos 1);
  failed_list =
      if ltb (length n.failed_list) 5 then n.failed_list ++ failure_ref c ∷ [] else n.failed_list;
}
tally_by sending c n = record n { sending_count = add64 n.sending_count (pos 1) }
tally_by _ c n = record n { pending_count = add64 n.pending_count (pos 1) }

unfoldable pub tally : Counts → List ChunkState → Counts
tally n [] = n
tally n (c ∷ cs) = tally (tally_by c.status c n) cs

-- Samples of the last 30 seconds: what is older goes from the front.
unfoldable pub drop_old : ℕ → List Sample → List Sample
drop_old cut [] = []
drop_old cut (s ∷ ss) = let rest = drop_old cut ss in if ltb s.at_time cut then rest else s ∷ ss

abbrev pub add_sample : ℕ → ℤ → List Sample → List Sample
add_sample now bytes ss =
    drop_old (now - 30000000000) (ss ++ record { at_time = now; bytes = bytes } ∷ [])

-- out of channelProgressBytesLocked; `known` is the test on the channel's name.
abbrev pub channel_bytes_by : Status → (ℤ → Option ℤ) → ChunkState → Dict ℤ → Dict ℤ
channel_bytes_by done part_size c out =
    put out c.channel (add64 (at (pos 0) out c.channel) c.bytes_done)
channel_bytes_by sending part_size c out =
    put out c.channel (add64 (at (pos 0) out c.channel) (sending_bytes part_size c))
channel_bytes_by _ part_size c out = out

abbrev pub is_known_channel : String → Bool
is_known_channel name = str_eq name "cable" || str_eq name "wifi"

unfoldable pub channel_progress_from : (ℤ → Option ℤ) → Dict ℤ → List ChunkState → Dict ℤ
unfolding put at
channel_progress_from part_size out [] = out
channel_progress_from part_size out (c ∷ cs) =
    channel_progress_from part_size
      (if is_known_channel c.channel then channel_bytes_by c.status part_size c out else out) cs

abbrev pub two_zeros : Dict ℤ
two_zeros = ("cable", pos 0) ∷ ("wifi", pos 0) ∷ []

-- How many channels are cable or Wi-Fi, and the queue depth of each: the pending chunks, shared.
unfoldable pub active_count : List LocalChannel → ℕ
active_count [] = 0
active_count (c ∷ cs) =
    let rest = active_count cs in if is_known_channel c.name then suc rest else rest

unfoldable pub share_queue : ℕ → ℕ → ℕ → Dict ℤ → List LocalChannel → Dict ℤ
unfolding put
share_queue base rem idx queue [] = queue
share_queue base rem idx queue (c ∷ cs) =
    share_queue base rem (suc idx) (put queue c.name (pos (if ltb idx rem then suc base else base)))
      cs

unfoldable pub queue_depth_of : List LocalChannel → ℕ → Dict ℤ
unfolding active_count share_queue
queue_depth_of channels zero = two_zeros
queue_depth_of channels (suc n) = elim (active_count channels) [
  | zero ↦ two_zeros
  | suc a ↦ share_queue (suc n / suc a) (suc n % suc a) 0 two_zeros channels
]

module _ (fl : FloatOps) where
  open fl use {Float, lit, of_int, fmul, fdiv, flt}

  pub record ChannelStatus : Type 0 where
    pub state : String
    pub interface_name : String
    pub local_ip : Text
    pub bytes_sent : ℤ
    pub mbps_now : Float
    pub mbps_avg : Float
    pub failures : ℤ
    pub last_error : Text

  pub record Job : Type 0 where
    pub id : Text
    pub url : Text
    pub status : JobStatus
    pub message : Text
    pub output_path : Text
    pub manifest_path : Text
    pub bytes_done : ℤ
    pub total_bytes : ℤ
    pub percent : Float
    pub mbps_now : Float
    pub mbps_avg : Float
    pub chunks_total : ℤ
    pub chunks_done : ℤ
    pub chunks_failed : ℤ
    pub chunks_pending : ℤ
    pub chunks_sending : ℤ
    pub resume_supported : Bool
    pub pipelined : Bool
    pub in_flight : Dict ℤ
    pub queue_depth : Dict ℤ
    pub idle_gap_ms : Dict ℤ
    pub channels : Dict ChannelStatus
    pub failed_chunks : List ChunkFailureRef

  -- type state
  pub record State : Type 0 where
    pub job : Job
    pub mf : Manifest
    pub started_at : ℕ
    pub last_at : ℕ
    pub last_bytes : ℤ
    pub samples : List Sample
    pub channels : Dict ChannelStatus
    pub allow_range : Bool
    pub ch_samples : Dict (List Sample)
    pub idle_gap_ms : Dict ℤ
    pub root_dir : Text
