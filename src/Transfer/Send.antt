-- ===== src/Transfer/Send.antt =====
-- The workers of SendFileSplitWithResultCtx, and what it returns. What happens under the mutex at
-- once, or in one call of the scheduler, is one step of a worker. `sendCtx` is canceled with `ctx`,
-- or after `hardErr` was set: a worker that looks at both sees the same as by `ctx` and `hardErr`.
-- (chStats has a lock of its own, but is written under the mutex only.)
pub mod Steps
pub mod Refine
pub mod Outcome
pub mod Headers
use multi_send.Base.{
  ℕ, zero, suc, ◌+◌, ◌-◌, Bool, true, false, ◌&&◌, ◌||◌, not, List, [], ◌∷◌, Option, none, some,
  String, length, ltb, leb, ◌==◌, if◌then◌else◌,
}
use multi_send.Base.Int.{ℤ, pos, sub_ℕ, lt_ℤ, le_ℤ, eq_ℤ, add64, sub64, mul64}
use multi_send.Base.Text.{Text, txt}
use multi_send.Base.Dict.{Dict, str_eq, at, has_key, put}
use multi_send.Base.Float.{FloatOps}
use multi_send.Scheduler.{
  WeightedScheduler, Pick, no_pick, pick, index_panic, next_chunk, report_success, report_failure,
  new_weighted_scheduler,
}
use multi_send.Manifest.{
  ChunkState, Manifest, Status, mark_and_get_sending, mark_done, mark_failed, get_chunk, find_chunk,
  update_chunk, mark_canceled_pending,
}
use multi_send.Proto.{Header, chunk_start}
use multi_send.Proto.Auth.{sign_header}
use multi_send.Download.{LocalChannel, find_channel, all_done}
use multi_send.Transfer.{
  ChannelDetail, zero_detail, InterfaceBinding, build_dynamic_channels, retryable_pending,
  channel_states_dynamic, update_from_channels, max_attempts_per_chunk,
}

-- manifestSaver, and the file that it writes (`saved`).
pub record Saver : Type 0 where
  pub interval : ℤ
  pub last : ℕ
  pub last_err : Option Text
  pub saved : Option Manifest

-- What SaveAtomic did: the error, if any.
abbrev pub written : ℕ → Option Text → Manifest → Saver → Saver
written now (some e) m s = record s { last_err = some e }
written now none m s = record s { last = now; last_err = none; saved = some m }

unfoldable pub save : ℕ → Option Text → Manifest → (force : Bool) → Saver → Saver
save now write_error m force s =
    if not force && (not (s.last == 0) && lt_ℤ (sub_ℕ now s.last) s.interval)
    then s
    else written now write_error m s

-- flush: the saver and the error.
unfoldable pub flush : ℕ → Option Text → Manifest → Saver → Saver × Option Text
flush now write_error m s = (written now write_error m s, write_error)

pub data HardError : Type 0 where
  hash_failed : (index : ℤ) (error : Text) → HardError
  exceeded_retries : (index : ℤ) → HardError

-- The two have different concrete types, *fmt.wrapError and another: atomic.Value panics where one
-- is to replace the other.
abbrev pub clashes : Option HardError → HardError → Bool
clashes (some (hash_failed i e)) (exceeded_retries j) = true
clashes (some (exceeded_retries i)) (hash_failed j e) = true
clashes _ e = false

-- What SendFileSplitWithResultCtx returns: the nil error, or which one.
pub data SendOutcome : Type 0 where
  finished was_canceled incomplete : SendOutcome
  hard : (e : HardError) → SendOutcome
  persist_failed : (e : Text) → SendOutcome

-- What a step reads of the outside world.
pub record Input : Type 0 where
  pub now : ℕ
  -- ctx.Err() != nil
  pub canceled : Bool
  -- What the provider of interfaces gives, if there is one.
  pub interfaces : Option (List InterfaceBinding)
  -- The result of hashSection, of sendChunkCtx and of SaveAtomic.
  pub hash : Text
  pub hash_error : Option Text
  pub send_error : Option Text
  pub write_error : Option Text
  pub duration : ℤ

-- The options of a transfer. `loopback` is isLoopbackTarget of the address.
pub record Options : Type 0 where
  pub local_ips : List Text
  pub loopback : Bool
  pub lab : Bool
  pub lab_receive_path : Text
  pub receive_rel_path : Text
  pub publish_name : Text
  pub folder_result : Text
  pub interface_refresh_seconds : ℤ
  pub allow_new_interfaces : Bool
  pub auth_secret : List ℕ
  pub file_name : Text
  pub size : ℤ

-- How far a worker is in its loop. `last_refresh` is its own variable; 0 is the zero time.
pub data Worker : Type 0 where
  ready refreshed : (last_refresh : ℕ) → Worker
  holding : (last_refresh : ℕ) (ch : LocalChannel) (chunk : ChunkState) → Worker
  hashed : (last_refresh : ℕ) (ch : LocalChannel) (chunk : ChunkState) (hash : Text) → Worker
  sent : (last_refresh : ℕ) (ch : LocalChannel) (chunk : ChunkState) (hash : Text) → Worker
  failing : (last_refresh : ℕ) (ch : LocalChannel) → Worker
  stopped : Worker
  crashed : Worker

-- The header of a chunk, before it is signed.
unfoldable pub header_of : Options → Manifest → ChunkState → Text → Header
header_of opts mf c hash = record {
  message_type = chunk_start;
  transfer_id = mf.transfer_id;
  file_name = opts.file_name;
  part_index = add64 c.index (pos 1);
  total_parts = pos (length mf.chunks);
  part_size = c.size;
  chunk_index = c.index;
  offset = c.offset;
  total_bytes = opts.size;
  lab = opts.lab;
  lab_path = opts.lab_receive_path;
  receive_rel_path = opts.receive_rel_path;
  publish_name = opts.publish_name;
  folder_result = opts.folder_result;
  chunk_sha256 = hash;
  auth = [];
}

-- workerCount
unfoldable pub worker_count : Options → List LocalChannel → ℕ
worker_count opts channels =
    let n = if ltb (length channels) 1 then 1 else length channels in
    if opts.allow_new_interfaces && ltb n 2 then 2 else n

-- `refreshSec`, in nanoseconds.
abbrev pub refresh_interval : Options → ℤ
refresh_interval opts =
    if le_ℤ opts.interface_refresh_seconds (pos 0)
    then pos 5000000000
    else mul64 opts.interface_refresh_seconds (pos 1000000000)

unfoldable pub refresh_due : Options → ℕ → ℕ → Bool
refresh_due opts now last_refresh =
    not opts.lab
    && (not opts.loopback
        && (opts.allow_new_interfaces
            && (last_refresh == 0 || le_ℤ (refresh_interval opts) (sub_ℕ now last_refresh))))

-- `c.Status = pending`, after a failure with attempts left.
abbrev pub reopen : ChunkState → ChunkState
reopen c = record c {
  status = if lt_ℤ c.attempts max_attempts_per_chunk then Status.pending else c.status;
}

module _ (fl : FloatOps) (opts : Options) where
  -- The variables that the workers share.
  pub record Sending : Type 0 where
    pub mf : Manifest
    pub saver : Saver
    pub sched : WeightedScheduler fl
    pub ch_stats : Dict (ChannelDetail fl)
    pub channels : List LocalChannel
    pub in_flight : Dict ℤ
    pub hard_err : Option HardError

  -- A change to the entry of chStats, if there is one.
  abbrev pub with_entry :
      String
      → (ChannelDetail fl → ChannelDetail fl)
      → Dict (ChannelDetail fl)
      → Dict (ChannelDetail fl)
  with_entry name f stats =
      if has_key stats name then put stats name (f (at (zero_detail fl) stats name)) else stats

  abbrev pub landed : LocalChannel → Sending → Sending
  landed ch r =
      let n = at (pos 0) r.in_flight ch.name in
      record r {
        in_flight =
            if lt_ℤ (pos 0) n then put r.in_flight ch.name (sub64 n (pos 1)) else r.in_flight;
      }

  -- The top of the loop: the checks and the refresh of the interfaces.
  abbrev pub begin_loop : Option HardError → Input → Sending → ℕ → Sending × Worker
  begin_loop (some e) inp r last = (r, stopped)
  begin_loop none inp r last =
      if inp.canceled
      then (r, stopped)
      else if refresh_due opts inp.now last
      then (let channels = build_dynamic_channels opts.local_ips inp.interfaces in
          (
            record r {
              channels = channels;
              ch_stats = update_from_channels fl r.ch_stats channels;
            },
            refreshed inp.now,
          ))
      else (r, refreshed last)

  -- Where a transfer starts: its channels, and the entries of chStats.
  unfoldable pub begin_send : Option (List InterfaceBinding) → Saver → Manifest → Sending
  unfolding build_dynamic_channels update_from_channels
  begin_send interfaces saver mf =
      let offline = record (zero_detail fl) { state = "offline" } in
      let loopback = record (zero_detail fl) { state = "active"; interface_name = "loopback" } in
      let started : Sending = record {
        mf = mf;
        saver = saver;
        sched = new_weighted_scheduler fl;
        in_flight = [];
        hard_err = none;
        channels = record { name = "loopback"; ip = [] } ∷ [];
        ch_stats = ("cable", loopback) ∷ ("wifi", offline) ∷ ("loopback", loopback) ∷ [];
      } in
      let channels = build_dynamic_channels opts.local_ips interfaces in
      if opts.lab || opts.loopback then started else record started {
        channels = channels;
        ch_stats = update_from_channels fl (("cable", offline) ∷ ("wifi", offline) ∷ []) channels;
      }
