-- ===== src/Transfer/Send/Outcome.antt =====
-- How a transfer ends.
use multi_send.Base.{
  ℕ, ◌≡◌, refl, ap, ◌∙◌, true, false, List, [], ◌∷◌, Option, none, some, Bool-cases, inl, inr, ◌⊎◌,
  All, map,
}
use multi_send.Base.Int.{lt_ℤ, ℤ}
use multi_send.Base.Text.{Text}
use multi_send.Base.Float.{FloatOps}
use multi_send.Manifest.{mark_failed, get_chunk, ChunkState}
use multi_send.Manifest.Distinct.{Distinct}
use multi_send.Manifest.Trace.{place}
use multi_send.Workers.{all_stopped, interleave}
use multi_send.Workers.Ends.{IsResting, IsOver}
use multi_send.Workers.Ends
use multi_send.Workers.Layout
use multi_send.Download.{find_channel, LocalChannel, all_done}
use multi_send.Download.Jobs.Outcome.{GaveUp, all_done-or_GaveUp}
use multi_send.Scheduler.{no_pick, index_panic, pick}
use multi_send.Transfer.{retryable_pending, max_attempts_per_chunk}
use multi_send.Transfer.Send.{
  failing, sent, hashed, holding, incomplete, refreshed, finished, pick, ready, persist_failed,
  refresh_due, Pick, begin_loop, flush, hard, Input, Options, Worker, HardError, Sending,
  SendOutcome, clashes, hash_failed, stopped, crashed,
}
use multi_send.Transfer.Send.Steps.{
  choose_by, finish_chunk, hash_chunk, select_channel, send_chunk, choose, choose_from, end_by,
  end_send, advance, hard_after, store_panics, is_set,
}
use multi_send.Transfer.Send.Refine.{crew, IsHard, advance-Fine}

abbrev Calm : Input → Type 0
Calm inp = inp.canceled ≡ false

module _ (fl : FloatOps) (opts : Options) where
  abbrev chunks_of : Sending fl opts → List ChunkState
  chunks_of r = r.mf.chunks

  -- Which steps leave hardErr alone.
  begin_loop_hard :
      (o : Option HardError) (inp : Input) (r : Sending fl opts) (last : ℕ)
      → (begin_loop fl opts o inp r last).0.hard_err ≡ r.hard_err
  begin_loop_hard (some e) inp r last = refl
  begin_loop_hard none inp r last = elim (Bool-cases inp.canceled) [
    | inl c ↦ rw c refl
    | inr c ↦ elim (Bool-cases (refresh_due opts inp.now last)) [
      | inl e ↦ rw (c, e) refl
      | inr e ↦ rw (c, e) refl
    ]
  ]

  select_channel_hard :
      (o : Option LocalChannel) (inp : Input) (r : Sending fl opts) (last : ℕ) (index : ℤ)
      → (select_channel fl opts o inp r last index).0.hard_err ≡ r.hard_err
  select_channel_hard none inp r last index = refl
  select_channel_hard (some ch) inp r last index = refl

  choose_by_hard :
      (p : Pick fl) (inp : Input) (r : Sending fl opts) (last : ℕ)
      → (choose_by fl opts p inp r last).0.hard_err ≡ r.hard_err
  choose_by_hard no_pick inp r last = refl
  choose_by_hard index_panic inp r last = refl
  choose_by_hard (pick index name) inp r last =
      select_channel_hard (find_channel r.channels name) inp r last index

  choose_from_hard :
      (ps : List ChunkState) (inp : Input) (r : Sending fl opts) (last : ℕ)
      → (choose_from fl opts ps inp r last).0.hard_err ≡ r.hard_err
  choose_from_hard [] inp r last = refl
  choose_from_hard (p ∷ ps) inp r last = choose_by_hard _ inp (record r { sched = _ }) last

  hash_chunk-IsHard :
      (o : Option Text) (inp : Input) (r : Sending fl opts) (last : ℕ) (ch : LocalChannel)
      (c : ChunkState)
      → IsHard fl opts r
      → IsHard fl opts (hash_chunk fl opts o inp r last ch c).0
  hash_chunk-IsHard none inp r last ch c h = h
  hash_chunk-IsHard (some e) inp r last ch c h =
      elim (Bool-cases (clashes r.hard_err (hash_failed c.index e))) [
        | inl q ↦ rw q h
        | inr q ↦ rw q refl
      ]

  hard_after_set :
      (o : Option ChunkState) (e : Option HardError)
      → is_set fl opts e ≡ true
      → is_set fl opts (hard_after fl opts o e) ≡ true
  hard_after_set none e h = h
  hard_after_set (some c) e h = elim (Bool-cases (lt_ℤ c.attempts max_attempts_per_chunk)) [
    | inl q ↦ rw q h
    | inr q ↦ rw q refl
  ]

  send_chunk-IsHard :
      (o : Option Text) (inp : Input) (r : Sending fl opts) (last : ℕ) (ch : LocalChannel)
      (c : ChunkState) (hash : Text)
      → IsHard fl opts r
      → IsHard fl opts (send_chunk fl opts o inp r last ch c hash).0
  send_chunk-IsHard none inp r last ch c hash h = h
  send_chunk-IsHard (some e) inp r last ch c hash h =
      let o = get_chunk (mark_failed r.mf c.index e) c.index in
      elim (Bool-cases (store_panics fl opts o r.hard_err)) [
        | inl q ↦ rw q h
        | inr q ↦ rw q (hard_after_set o r.hard_err h)
      ]

  advance-IsHard :
      (inp : Input) (r : Sending fl opts) (w : Worker)
      → IsHard fl opts r
      → IsHard fl opts (advance fl opts inp r w).0
  unfolding advance choose finish_chunk
  advance-IsHard inp r (ready last) h =
      ap (is_set fl opts) (begin_loop_hard r.hard_err inp r last) ∙ h
  advance-IsHard inp r (refreshed last) h =
      ap (is_set fl opts) (choose_from_hard (retryable_pending r.mf) inp r last) ∙ h
  advance-IsHard inp r (holding last ch c) h = hash_chunk-IsHard inp.hash_error inp r last ch c h
  advance-IsHard inp r (hashed last ch c hash) h =
      send_chunk-IsHard inp.send_error inp r last ch c hash h
  advance-IsHard inp r (sent last ch c hash) h = h
  advance-IsHard inp r (failing last ch) h = h
  advance-IsHard inp r stopped h = h
  advance-IsHard inp r crashed h = h

  -- What the end of a transfer that was not canceled says: a hard error; or that the manifest could
  -- not be saved; or that all is sent, saved and done; or that a chunk was given up.
  abbrev pub IsEnd : Sending fl opts → Option Text → Sending fl opts × SendOutcome → Type 0
  IsEnd r write_error (r', outcome) =
      ((e : HardError) × (outcome ≡ hard e) × (r.hard_err ≡ some e))
      ⊎ (((e : Text) × (outcome ≡ persist_failed e) × (write_error ≡ some e))
          ⊎ (((outcome ≡ finished) × (all_done r.mf.chunks ≡ true) × (r'.saver.saved ≡ some r.mf))
              ⊎ ((outcome ≡ incomplete) × GaveUp max_attempts_per_chunk r.mf.chunks)))

  end_by-IsEnd :
      (o : Option HardError) (now : ℕ) (write_error : Option Text) (r : Sending fl opts)
      → r.hard_err ≡ o
      → All (IsOver max_attempts_per_chunk) r.mf.chunks ⊎ IsHard fl opts r
      → IsEnd r write_error (end_by fl opts o now write_error r)
  unfolding flush
  end_by-IsEnd (some e) now we r q h = inl (e, refl, q)
  end_by-IsEnd none now (some e) r q h = inr (inl (e, refl, refl))
  end_by-IsEnd none now none r q (inr h) = absurd (let k = rw q at h in cc)
  end_by-IsEnd none now none r q (inl h) =
      elim (all_done-or_GaveUp max_attempts_per_chunk r.mf.chunks h) [
        | inl e ↦ inr (inr (inl (rw e refl, e, refl)))
        | inr (e, g) ↦ inr (inr (inr (rw e refl, g)))
      ]

  -- A transfer that is not canceled ends in one of four ways, in whatever order its workers made their
  -- steps, once all have stopped; they start with no chunk in hand, not all of them stopped, on chunks
  -- with distinct indices that are pending, failed or done. It reports the hard error that a worker
  -- met; or that the manifest could not be saved; or success, and then every chunk is done and the
  -- manifest on disk says so; or that it is incomplete, and then a chunk has failed 3 times.
  pub interleave-end_send :
      (steps : List (ℕ × Input)) (r : Sending fl opts) (ws : List Worker) (now : ℕ)
      (write_error : Option Text)
      → All (λ s. s.1.canceled ≡ false) steps
      → Distinct r.mf.chunks
      → All IsResting r.mf.chunks
      → all_stopped crew ws ≡ false
      → all_stopped crew (interleave (advance fl opts) steps (r, ws)).1 ≡ true
      → let r' = (interleave (advance fl opts) steps (r, ws)).0 in
        IsEnd r' write_error (end_send fl opts now write_error false r')
  unfolding end_send
  interleave-end_send steps r ws now write_error calm d h go stop =
      let r' = (interleave (advance fl opts) steps (r, ws)).0 in
      end_by-IsEnd r'.hard_err now write_error r' refl (
        Ends.interleave-IsOver crew chunks_of (advance fl opts) Calm (IsHard fl opts) advance-IsHard
          (advance-Fine fl opts) steps r ws calm d h go stop)

  -- In whatever order the workers of a transfer that is not canceled make their steps, the chunks keep
  -- their indices, offsets and sizes, or a hard error was met.
  interleave-place :
      (steps : List (ℕ × Input)) (r : Sending fl opts) (ws : List Worker)
      → All (λ s. s.1.canceled ≡ false) steps
      → (map place (interleave (advance fl opts) steps (r, ws)).0.mf.chunks ≡ map place r.mf.chunks)
        ⊎ IsHard fl opts (interleave (advance fl opts) steps (r, ws)).0
  interleave-place steps r ws calm =
      Layout.interleave-place crew chunks_of (advance fl opts) Calm (IsHard fl opts) advance-IsHard
        (advance-Fine fl opts) steps r ws calm
