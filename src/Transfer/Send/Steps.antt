-- ===== src/Transfer/Send/Steps.antt =====
-- What a worker of SendFileSplitWithResultCtx does from choosing a chunk on, and the end.
use multi_send.Base.{
  ℕ, Bool, true, false, ◌&&◌, not, List, [], ◌∷◌, Option, none, some, if◌then◌else◌,
}
use multi_send.Base.Int.{ℤ, pos, lt_ℤ, le_ℤ, add64}
use multi_send.Base.Text.{Text}
use multi_send.Base.Dict.{at, has_key, put}
use multi_send.Base.Float.{FloatOps}
use multi_send.Scheduler.{
  Pick, no_pick, pick, index_panic, next_chunk, report_success, report_failure,
}
use multi_send.Manifest.{
  ChunkState, mark_and_get_sending, mark_done, mark_failed, get_chunk, update_chunk,
  mark_canceled_pending,
}
use multi_send.Download.{LocalChannel, find_channel, all_done}
use multi_send.Transfer.{
  ChannelDetail, build_dynamic_channels, retryable_pending, channel_states_dynamic,
  update_from_channels, max_attempts_per_chunk,
}
use multi_send.Transfer.Send.{
  save, flush, HardError, hash_failed, exceeded_retries, clashes, SendOutcome, finished,
  was_canceled, incomplete, hard, persist_failed, Input, Options, Worker, ready, refreshed, holding,
  hashed, sent, failing, stopped, crashed, refresh_due, reopen, Sending, with_entry, landed,
  begin_loop,
}

module _ (fl : FloatOps) (opts : Options) where
  -- MarkAndGetSending and what follows under the mutex.
  abbrev pub held_or_ready : Option ChunkState → ℕ → LocalChannel → Worker
  held_or_ready none last ch = ready last
  held_or_ready (some c) last ch = holding last ch c

  abbrev pub mark : Input → Sending fl opts → ℕ → ℤ → LocalChannel → Sending fl opts × Worker
  mark inp r last index ch =
      let (mf, c) = mark_and_get_sending inp.now r.mf index ch.name in
      (
        record r {
          mf = mf;
          in_flight = put r.in_flight ch.name (add64 (at (pos 0) r.in_flight ch.name) (pos 1));
          saver = save inp.now inp.write_error mf false r.saver;
          ch_stats = with_entry fl opts ch.name (λ s. record s { state = "active" }) r.ch_stats;
        },
        held_or_ready c last ch,
      )

  abbrev pub select_channel :
      Option LocalChannel → Input → Sending fl opts → ℕ → ℤ → Sending fl opts × Worker
  select_channel none inp r last index = (r, ready last)
  select_channel (some ch) inp r last index = mark inp r last index ch

  abbrev pub choose_by : Pick fl → Input → Sending fl opts → ℕ → Sending fl opts × Worker
  choose_by no_pick inp r last = (r, ready last)
  choose_by index_panic inp r last = (r, crashed)
  choose_by (pick index name) inp r last =
      select_channel (find_channel r.channels name) inp r last index

  abbrev pub choose_from : List ChunkState → Input → Sending fl opts → ℕ → Sending fl opts × Worker
  choose_from [] inp r last = (r, stopped)
  choose_from (p ∷ ps) inp r last =
      let (sched, picked) =
        next_chunk fl inp.now r.sched (p ∷ ps)
          (channel_states_dynamic fl r.channels r.in_flight r.ch_stats) in
      choose_by picked inp (record r { sched = sched }) last

  -- The first part under the mutex.
  unfoldable pub choose : Input → Sending fl opts → ℕ → Sending fl opts × Worker
  unfolding retryable_pending next_chunk channel_states_dynamic find_channel mark_and_get_sending
      save at put has_key
  choose inp r last = choose_from (retryable_pending r.mf) inp r last

  -- hashSection; a failure ends the transfer.
  abbrev pub hash_chunk :
      Option Text
      → Input
      → Sending fl opts
      → ℕ
      → LocalChannel
      → ChunkState
      → Sending fl opts × Worker
  hash_chunk none inp r last ch c = (r, hashed last ch c inp.hash)
  hash_chunk (some e) inp r last ch c =
      let r = landed fl opts ch r in
      let mf = mark_failed r.mf c.index e in
      if clashes r.hard_err (hash_failed c.index e) then (record r { mf = mf }, crashed) else (
        record r {
          mf = mf;
          hard_err = some (hash_failed c.index e);
          saver = save inp.now inp.write_error mf true r.saver;
        },
        stopped,
      )

  -- `hardErr.Store` if the chunk that GetChunk gives has no attempts left.
  abbrev pub hard_after : Option ChunkState → Option HardError → Option HardError
  hard_after none e = e
  hard_after (some c) e =
      if lt_ℤ c.attempts max_attempts_per_chunk then e else some (exceeded_retries c.index)

  abbrev pub store_panics : Option ChunkState → Option HardError → Bool
  store_panics none e = false
  store_panics (some c) e =
      not (lt_ℤ c.attempts max_attempts_per_chunk) && clashes e (exceeded_retries c.index)

  abbrev pub is_set : Option HardError → Bool
  is_set none = false
  is_set (some e) = true

  abbrev pub failed_detail : Text → ChannelDetail fl → ChannelDetail fl
  failed_detail e s =
      let failures = add64 s.failures (pos 1) in
      record s {
        failures = failures;
        last_error = e;
        state = if le_ℤ (pos 3) failures then "cooldown" else "offline";
      }

  -- sendChunkCtx, and the part under the mutex if it failed.
  abbrev pub send_chunk :
      Option Text
      → Input
      → Sending fl opts
      → ℕ
      → LocalChannel
      → ChunkState
      → Text
      → Sending fl opts × Worker
  send_chunk none inp r last ch c hash = (
    record r { sched = report_success fl r.sched ch.name c.size inp.duration },
    sent last ch c hash,
  )
  send_chunk (some e) inp r last ch c hash =
      let r = landed fl opts ch r in
      let failed = mark_failed r.mf c.index e in
      let mf = record failed { chunks = update_chunk c.index reopen failed.chunks } in
      let hard = hard_after (get_chunk failed c.index) r.hard_err in
      if store_panics (get_chunk failed c.index) r.hard_err
      then (record r { mf = mf }, crashed)
      else (
        record r {
          mf = mf;
          hard_err = hard;
          saver = save inp.now inp.write_error mf (is_set hard) r.saver;
          ch_stats = with_entry fl opts ch.name (failed_detail e) r.ch_stats;
        },
        failing last ch,
      )

  abbrev pub after_failure : Option HardError → Bool → ℕ → Worker
  after_failure (some e) canceled last = stopped
  after_failure none canceled last = if canceled then stopped else ready last

  -- The last part under the mutex, after a success.
  unfoldable pub finish_chunk :
      Input → Sending fl opts → ℕ → LocalChannel → ChunkState → Text → Sending fl opts × Worker
  unfolding mark_done save at put has_key
  finish_chunk inp r last ch c hash =
      let r = landed fl opts ch r in
      let mf = mark_done inp.now r.mf c.index c.size hash in
      (
        record r {
          mf = mf;
          saver = save inp.now inp.write_error mf false r.saver;
          ch_stats =
              with_entry fl opts ch.name
                (λ s. record s {
                  state = "active";
                  last_error = [];
                  bytes_sent = add64 s.bytes_sent c.size;
                })
                r.ch_stats;
        },
        ready last,
      )

  -- One step of a worker.
  unfoldable pub advance : Input → Sending fl opts → Worker → Sending fl opts × Worker
  unfolding refresh_due build_dynamic_channels update_from_channels choose mark_failed get_chunk
      update_chunk save report_success report_failure finish_chunk at put has_key
  advance inp r (ready last) = begin_loop fl opts r.hard_err inp r last
  advance inp r (refreshed last) = choose inp r last
  advance inp r (holding last ch c) = hash_chunk inp.hash_error inp r last ch c
  advance inp r (hashed last ch c hash) = send_chunk inp.send_error inp r last ch c hash
  advance inp r (sent last ch c hash) = finish_chunk inp r last ch c hash
  advance inp r (failing last ch) = (
    record r { sched = report_failure fl inp.now r.sched ch.name },
    after_failure r.hard_err inp.canceled last,
  )
  advance inp r stopped = (r, stopped)
  advance inp r crashed = (r, crashed)

  abbrev pub flushed : Option Text → Sending fl opts → SendOutcome
  flushed (some e) r = persist_failed e
  flushed none r = if all_done r.mf.chunks then finished else incomplete

  abbrev pub end_by :
      Option HardError → ℕ → Option Text → Sending fl opts → Sending fl opts × SendOutcome
  end_by (some e) now write_error r =
      (record r { saver = save now write_error r.mf true r.saver }, hard e)
  end_by none now write_error r =
      let (saver, e) = flush now write_error r.mf r.saver in
      (record r { saver = saver }, flushed e r)

  -- The part after `wg.Wait()`.
  unfoldable pub end_send :
      ℕ → Option Text → (canceled : Bool) → Sending fl opts → Sending fl opts × SendOutcome
  unfolding mark_canceled_pending save flush all_done
  end_send now write_error canceled r =
      if canceled
      then (let mf = mark_canceled_pending r.mf in
          (record r { mf = mf; saver = save now write_error mf true r.saver }, was_canceled))
      else end_by r.hard_err now write_error r
