-- ===== src/Download/Run/Steps.antt =====
-- dispatchOnce in its steps, and workers whose steps come in any order.
use multi_send.Base.{◌&&◌, List, [], ◌∷◌, Option, none, some, String, ltb, if◌then◌else◌}
use multi_send.Base.Int.{ℤ, pos, sub_ℕ, lt_ℤ, add64, sub64}
use multi_send.Base.Text.{Text}
use multi_send.Base.Dict.{Dict, at, put}
use multi_send.Base.Float.{FloatOps}
use multi_send.Scheduler.{
  Pick, no_pick, pick, index_panic, next_chunk, report_success, report_failure,
}
use multi_send.Manifest.{ChunkState, Manifest, mark_and_get_sending, mark_done}
use multi_send.Download.{LocalChannel, find_channel, retry_pending, reset_stalled, pick_strict}
use multi_send.Download.State.{State, estimate_progress_bytes}
use multi_send.Download.State.Updates.{
  refresh_channel_states, bump_channel_failure, bump_channel_success, channel_states,
  bump_idle_gaps, update_telemetry,
}
use multi_send.Download.State.Stats.{refresh_stats}
use multi_send.Download.Run.{
  Input, Worker, ready, looked, chose, holding, failing, succeeding, stopped, crashed, stall_limit,
  fail_chunk, other_channel, with_room, Run,
}

module _ (fl : FloatOps) where
  -- The first locked part of dispatchOnce, where some chunk is pending.
  unfoldable pub look_at : Input → Run fl → List LocalChannel → List ChunkState → Run fl × Worker
  unfolding update_telemetry reset_stalled retry_pending
  look_at inp r channels pending =
      let (chunks, reset) = reset_stalled inp.now stall_limit r.st.mf.chunks in
      let mf = record r.st.mf { chunks = chunks } in
      let stalled = lt_ℤ stall_limit (sub_ℕ inp.now r.last_progress_at) in
      let pending' = if stalled && ltb 0 reset then retry_pending mf else pending in
      let st = record r.st { mf = if stalled then mf else r.st.mf } in
      (
        record r {
          st = update_telemetry fl st channels r.in_flight pending';
          last_progress_at = if stalled && ltb 0 reset then inp.now else r.last_progress_at;
        },
        looked channels pending' r.in_flight,
      )

  abbrev pub with_progress : Input → Run fl → Run fl
  with_progress inp r =
      let current = estimate_progress_bytes inp.part_size r.st.mf r.st.job.total_bytes in
      if lt_ℤ r.last_progress_bytes current
      then record r { last_progress_bytes = current; last_progress_at = inp.now }
      else r

  abbrev pub look_pending : Input → Run fl → List ChunkState → Run fl × Worker
  look_pending inp r [] =
      (record r { st = update_telemetry fl r.st inp.channels r.in_flight [] }, stopped)
  look_pending inp r (p ∷ ps) = look_at inp r inp.channels (p ∷ ps)

  abbrev pub look_open : Input → Run fl → Run fl × Worker
  look_open inp r =
      let r = with_progress inp (record r { st = refresh_channel_states fl r.st inp.channels }) in
      look_pending inp r (retry_pending r.st.mf)

  unfoldable pub look : Input → Run fl → Run fl × Worker
  unfolding refresh_channel_states estimate_progress_bytes retry_pending
  look inp r = if inp.canceled then (r, stopped) else look_open inp r

  -- The chunk that a strict split gives to the channel, or to the other one.
  abbrev pub strict_choice : Run fl → List ChunkState → Dict ℤ → String → Option (ℤ × String)
  strict_choice r pending snapshot name = elim (pick_strict pending name r.strict_plan) [
    | some index ↦ some (index, name)
    | none ↦
        let other = other_channel name in
        elim (pick_strict pending other r.strict_plan) [
          | some alt ↦
              if lt_ℤ (at (pos 0) snapshot other) r.per_channel_limit
              then some (alt, other)
              else none
          | none ↦ none
        ]
  ]

  abbrev pub settle : List LocalChannel → List ChunkState → Option (ℤ × String) → Worker
  settle channels pending none = ready
  settle channels pending (some (index, name)) = elim (find_channel channels name) [
    | none ↦ ready
    | some ch ↦ chose channels pending ch index
  ]

  -- From NextChunk to findChannel.
  abbrev pub choose_by :
      Pick fl → Run fl → List LocalChannel → List ChunkState → Dict ℤ → Run fl × Worker
  choose_by no_pick r channels pending snapshot = (
    record r {
      st =
          update_telemetry fl (bump_idle_gaps fl r.st channels snapshot r.per_channel_limit)
            channels snapshot pending;
    },
    ready,
  )
  choose_by index_panic r channels pending snapshot = (r, crashed)
  choose_by (pick index name) r channels pending snapshot = (
    r,
    settle channels pending
        (if r.strict_split then strict_choice r pending snapshot name else some (index, name)),
  )

  unfoldable pub choose :
      Input → Run fl → List LocalChannel → List ChunkState → Dict ℤ → Run fl × Worker
  unfolding next_chunk channel_states with_room bump_idle_gaps update_telemetry pick_strict
      find_channel
  choose inp r channels pending snapshot =
      let (sched, picked) =
        next_chunk fl inp.now r.sched pending
          (channel_states fl (with_room r.per_channel_limit snapshot channels) snapshot r.st) in
      choose_by picked (record r { sched = sched }) channels pending snapshot

  -- The second locked part: the chunk is marked and downloaded.
  abbrev pub take_by :
      Option ChunkState
      → Manifest
      → Input
      → Run fl
      → List LocalChannel
      → List ChunkState
      → LocalChannel
      → Run fl × Worker
  take_by none mf inp r channels pending ch = (record r { st = record r.st { mf = mf } }, ready)
  take_by (some c) mf inp r channels pending ch =
      let in_flight = put r.in_flight ch.name (add64 (at (pos 0) r.in_flight ch.name) (pos 1)) in
      (
        record r {
          in_flight = in_flight;
          last_dispatch_at = put r.last_dispatch_at ch.name inp.now;
          st = update_telemetry fl (record r.st { mf = mf }) channels in_flight pending;
        },
        holding channels ch c,
      )

  unfoldable pub take_chunk :
      Input → Run fl → List LocalChannel → List ChunkState → LocalChannel → ℤ → Run fl × Worker
  unfolding mark_and_get_sending update_telemetry at put
  take_chunk inp r channels pending ch index =
      let (mf, c) = mark_and_get_sending inp.now r.st.mf index ch.name in
      take_by c mf inp r channels pending ch

  -- The third locked part, after the download.
  abbrev pub landed : Run fl → LocalChannel → Run fl
  landed r ch =
      let n = at (pos 0) r.in_flight ch.name in
      record r {
        in_flight =
            if lt_ℤ (pos 0) n then put r.in_flight ch.name (sub64 n (pos 1)) else r.in_flight;
      }

  abbrev pub with_stats : Input → Run fl → List LocalChannel → State fl → Run fl
  with_stats inp r channels st =
      let st = refresh_stats fl inp.now inp.part_size st r.done_bytes in
      record r { st = update_telemetry fl st channels r.in_flight (retry_pending st.mf) }

  abbrev pub finish_by :
      Option Text → Input → Run fl → List LocalChannel → LocalChannel → ChunkState → Run fl × Worker
  finish_by (some e) inp r channels ch c =
      let st = record r.st { mf = fail_chunk r.st.mf c.index e } in
      (with_stats inp r channels (bump_channel_failure fl st ch.name e), failing ch)
  finish_by none inp r channels ch c =
      let st = record r.st { mf = mark_done inp.now r.st.mf c.index c.size [] } in
      (
        with_stats inp (record r { done_bytes = add64 r.done_bytes c.size }) channels
            (bump_channel_success fl inp.now st ch.name c.size),
        succeeding ch c.size,
      )

  unfoldable pub finish_chunk :
      Input → Run fl → List LocalChannel → LocalChannel → ChunkState → Run fl × Worker
  unfolding at put fail_chunk mark_done bump_channel_failure bump_channel_success refresh_stats
      update_telemetry retry_pending
  finish_chunk inp r channels ch c = finish_by inp.error inp (landed r ch) channels ch c

  -- One step of a worker.
  unfoldable pub advance : Input → Run fl → Worker → Run fl × Worker
  unfolding look choose take_chunk finish_chunk report_failure report_success
  advance inp r ready = look inp r
  advance inp r (looked channels pending snapshot) = choose inp r channels pending snapshot
  advance inp r (chose channels pending ch index) = take_chunk inp r channels pending ch index
  advance inp r (holding channels ch c) = finish_chunk inp r channels ch c
  advance inp r (failing ch) =
      (record r { sched = report_failure fl inp.now r.sched ch.name }, ready)
  advance inp r (succeeding ch size) =
      (record r { sched = report_success fl r.sched ch.name size inp.duration }, ready)
  advance inp r stopped = (r, stopped)
  advance inp r crashed = (r, crashed)
