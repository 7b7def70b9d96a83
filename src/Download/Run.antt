-- ===== src/Download/Run.antt =====
-- Manager.run: the workers that share a run. Each works through dispatchOnce again and again. What
-- happens under the mutex at once, or in one call of the scheduler, is one step of a worker, and the
-- workers' steps come in any order. Saving the manifest's file is not modelled.
pub mod Steps
pub mod Refine
pub mod Ends
use multi_send.Base.{
  ℕ, zero, suc, ◌+◌, ◌-◌, Bool, true, false, ◌&&◌, ◌||◌, not, List, [], ◌∷◌, Option, none, some,
  String, length, ltb, leb, if◌then◌else◌, select,
}
use multi_send.Base.Int.{ℤ, pos, sub_ℕ, lt_ℤ, le_ℤ, eq_ℤ, add64, sub64}
use multi_send.Base.Text.{Text}
use multi_send.Base.Dict.{Dict, str_eq, at, has_key, put}
use multi_send.Base.Float.{FloatOps}
use multi_send.Scheduler
use multi_send.Scheduler.{
  WeightedScheduler, Pick, no_pick, pick, index_panic, next_chunk, report_success, report_failure,
  new_weighted_scheduler,
}
use multi_send.Manifest.{
  ChunkState, Manifest, Status, mark_and_get_sending, mark_done, mark_failed, get_chunk,
  update_chunk, done_bytes,
}
use multi_send.Download.{
  LocalChannel, has_channel, find_channel, retry_pending, reset_stalled, max_chunk_attempts,
  Assignment, build_strict_plan, pick_strict,
}
use multi_send.Download.State.{State, Job, estimate_progress_bytes, two_zeros}
use multi_send.Download.State.Updates.{
  refresh_channel_states, bump_channel_failure, bump_channel_success, channel_states,
  bump_idle_gaps, update_telemetry,
}
use multi_send.Download.State.Stats.{refresh_stats}

-- What a step reads of the outside world.
pub record Input : Type 0 where
  pub now : ℕ
  -- `<-ctx.Done()`
  pub canceled : Bool
  -- currentChannels
  pub channels : List LocalChannel
  -- os.Stat of the part files
  pub part_size : ℤ → Option ℤ
  -- The error of downloadChunkVia, if any, and the time it took.
  pub error : Option Text
  pub duration : ℤ

-- How far a worker is in dispatchOnce.
pub data Worker : Type 0 where
  ready : Worker
  looked : (channels : List LocalChannel) (pending : List ChunkState) (snapshot : Dict ℤ) → Worker
  chose :
      (channels : List LocalChannel) (pending : List ChunkState) (ch : LocalChannel) (index : ℤ)
      → Worker
  holding : (channels : List LocalChannel) (ch : LocalChannel) (chunk : ChunkState) → Worker
  failing : (ch : LocalChannel) → Worker
  succeeding : (ch : LocalChannel) (size : ℤ) → Worker
  stopped : Worker
  crashed : Worker

-- 75 seconds
abbrev pub stall_limit : ℤ
stall_limit = pos 75000000000

-- `c.Status = pending`, after a failure with attempts left.
abbrev pub reopen : ChunkState → ChunkState
reopen c = record c {
  status = if lt_ℤ c.attempts max_chunk_attempts then Status.pending else c.status;
}

unfoldable pub fail_chunk : Manifest → ℤ → Text → Manifest
unfolding mark_failed update_chunk
fail_chunk mf index e =
    let mf = mark_failed mf index e in record mf { chunks = update_chunk index reopen mf.chunks }

abbrev pub other_channel : String → String
other_channel name = if str_eq name "wifi" then "cable" else "wifi"

unfoldable pub with_room : ℤ → Dict ℤ → List LocalChannel → List LocalChannel
unfolding select at
with_room limit in_flight channels = select (λ c. lt_ℤ (at (pos 0) in_flight c.name) limit) channels

module _ (fl : FloatOps) where
  -- The variables that the workers of a run share.
  pub record Run : Type 0 where
    pub st : State fl
    pub sched : WeightedScheduler fl
    pub in_flight : Dict ℤ
    pub last_dispatch_at : Dict ℕ
    pub done_bytes : ℤ
    pub last_progress_bytes : ℤ
    pub last_progress_at : ℕ
    pub strict_split : Bool
    pub strict_plan : Assignment
    pub per_channel_limit : ℤ

  -- perChannelLimit, from DownloadInFlightPerChan.
  abbrev pub limit_of : Bool → ℤ → ℤ
  limit_of pipelined in_flight_per_channel =
      if pipelined
      then (if le_ℤ in_flight_per_channel (pos 0) then pos 2 else in_flight_per_channel)
      else pos 1

  -- What run sets up before the workers start.
  unfoldable pub start_run :
      ℕ
      → State fl
      → List LocalChannel
      → (strict pipelined : Bool) → (cable_pct in_flight_per_channel : ℤ) → Run
  unfolding done_bytes build_strict_plan new_weighted_scheduler has_channel
  start_run now st channels strict pipelined cable_pct in_flight_per_channel =
      let split = strict && (has_channel channels "cable" && has_channel channels "wifi") in
      record {
        st = record st {
          job = record st.job {
            pipelined = pipelined;
            in_flight = two_zeros;
            queue_depth = two_zeros;
            idle_gap_ms = two_zeros;
          };
        };
        sched = new_weighted_scheduler fl;
        in_flight = two_zeros;
        last_dispatch_at = [];
        done_bytes = done_bytes st.mf;
        last_progress_bytes = done_bytes st.mf;
        last_progress_at = now;
        strict_split = split;
        strict_plan = if split then build_strict_plan st.mf.chunks cable_pct else (λ i. "");
        per_channel_limit = limit_of pipelined in_flight_per_channel;
      }

  -- `workers` of run.
  abbrev pub worker_count : Bool → ℤ → ℤ
  worker_count pipelined limit =
      if pipelined
      then (let w = add64 limit limit in if lt_ℤ w (pos 2) then pos 2 else w)
      else pos 2
