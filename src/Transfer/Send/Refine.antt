-- ===== src/Transfer/Send/Refine.antt =====
-- The sender's workers are a crew: every step of theirs is a move, or ends the transfer.
use multi_send.Base.{
  ℕ, ◌≡◌, refl, sym, ap, ◌∙◌, Bool, true, false, List, [], ◌∷◌, Option, none, some, arith,
  Bool-cases, inl, inr, ◌⊎◌, select, length,
}
use multi_send.Base.Int.{ℤ, eq_ℤ, eq_ℤ_iff}
use multi_send.Base.Text.{Text}
use multi_send.Base.Sort.{length-sort_by}
use multi_send.Base.Float.{FloatOps}
use multi_send.Scheduler.{report_failure, Pick, no_pick, pick, index_panic}
use multi_send.Manifest.{
  ChunkState, Manifest, is_done, is_failed, is_pending, by_index, update_chunk, find_chunk,
  as_sending, as_done, as_failed, mark_and_get_sending, mark_done, mark_failed, get_chunk,
}
use multi_send.Manifest.Lookup.{
  find_chunk-index, find_before, update_chunk_absent, update_chunk-update_chunk,
}
use multi_send.Download.{LocalChannel, find_channel}
use multi_send.Workers.{Crew, IsFree, Move, idle, quit, rest, take, land, is_open}
use multi_send.Transfer.{retryable_pending, max_attempts_per_chunk}
use multi_send.Transfer.Send.{
  Input, Options, Worker, ready, refreshed, holding, hashed, sent, failing, stopped, crashed,
  reopen, refresh_due, HardError, hash_failed, Sending, begin_loop, clashes,
}
use multi_send.Transfer.Send.Steps.{
  held_or_ready, mark, select_channel, choose_by, choose_from, choose, hash_chunk, store_panics,
  is_set, send_chunk, after_failure, finish_chunk, advance,
}

abbrev pub held_by : Worker → ℤ → Bool
held_by (holding last ch c) i = eq_ℤ c.index i
held_by (hashed last ch c hash) i = eq_ℤ c.index i
held_by (sent last ch c hash) i = eq_ℤ c.index i
held_by _ i = false

abbrev pub is_stopped : Worker → Bool
is_stopped stopped = true
is_stopped _ = false

pub stopped_free : (w : Worker) (i : ℤ) → is_stopped w ≡ true → held_by w i ≡ false
stopped_free stopped i h = refl
stopped_free w i h = absurd (cc)

-- The transfer's workers, as a crew.
abbrev pub crew : Crew Worker
crew = record {
  held_by = held_by;
  is_stopped = is_stopped;
  max_attempts = max_attempts_per_chunk;
  stopped_free = stopped_free;
}

retryable_pending-none :
    (m : Manifest)
    → retryable_pending m ≡ []
    → select (is_open max_attempts_per_chunk) m.chunks ≡ []
unfolding retryable_pending
retryable_pending-none m e =
    length_zero _ (
      sym (length-sort_by by_index (select (is_open max_attempts_per_chunk) m.chunks))
      ∙ ap length e)
  where
    length_zero : (cs : List ChunkState) → length cs ≡ 0 → cs ≡ []
    length_zero [] h = refl
    length_zero (c ∷ cs) h = absurd (omega arith)

module _ (fl : FloatOps) (opts : Options) where
  -- hardErr is set.
  abbrev pub IsHard : Sending fl opts → Type 0
  IsHard r = is_set fl opts r.hard_err ≡ true

  -- What a step from r and w makes: a move, or a hard error.
  abbrev Fine : Sending fl opts → Worker → Sending fl opts × Worker → Type 0
  Fine r w s = Move crew r.mf.chunks w s.0.mf.chunks s.1 ⊎ IsHard s.0

  begin_loop-Fine :
      (o : Option HardError) (inp : Input) (r : Sending fl opts) (last : ℕ)
      → r.hard_err ≡ o
      → inp.canceled ≡ false
      → Fine r (ready last) (begin_loop fl opts o inp r last)
  begin_loop-Fine (some e) inp r last q c = inr (rw q refl)
  begin_loop-Fine none inp r last q c = elim (Bool-cases (refresh_due opts inp.now last)) [
    | inl e ↦ rw (c, e) (inl (idle (λ i. refl, refl) (λ i. refl, refl) refl))
    | inr e ↦ rw (c, e) (inl (idle (λ i. refl, refl) (λ i. refl, refl) refl))
  ]

  mark-Move :
      (inp : Input) (r : Sending fl opts) (w : Worker) (last : ℕ) (index : ℤ) (ch : LocalChannel)
      → IsFree crew w
      → Move crew r.mf.chunks w
          (mark fl opts inp r last index ch).0.mf.chunks
          (mark fl opts inp r last index ch).1
  unfolding mark_and_get_sending
  mark-Move inp r w last index ch h = taken (find_chunk index after) refl
    where
      after : List ChunkState
      after = update_chunk index (as_sending inp.now ch.name) r.mf.chunks

      taken :
          (o : Option ChunkState)
          → find_chunk index after ≡ o
          → Move crew r.mf.chunks w after (held_or_ready fl opts o last ch)
      taken none q =
          idle h (λ i. refl, refl)
            (update_chunk_absent index (as_sending inp.now ch.name) r.mf.chunks
              (find_before index (as_sending inp.now ch.name) (λ c. refl) r.mf.chunks q))
      taken (some c) q =
          take inp.now ch.name index h refl
            ((eq_ℤ_iff c.index index).1 (find_chunk-index index after c q)) refl

  select_channel-Move :
      (o : Option LocalChannel) (inp : Input) (r : Sending fl opts) (w : Worker) (last : ℕ)
      (index : ℤ)
      → IsFree crew w
      → Move crew r.mf.chunks w
          (select_channel fl opts o inp r last index).0.mf.chunks
          (select_channel fl opts o inp r last index).1
  select_channel-Move none inp r w last index h = idle h (λ i. refl, refl) refl
  select_channel-Move (some ch) inp r w last index h = mark-Move inp r w last index ch h

  choose_by-Move :
      (p : Pick fl) (inp : Input) (r : Sending fl opts) (w : Worker) (last : ℕ)
      → IsFree crew w
      → Move crew r.mf.chunks w
          (choose_by fl opts p inp r last).0.mf.chunks
          (choose_by fl opts p inp r last).1
  choose_by-Move no_pick inp r w last h = idle h (λ i. refl, refl) refl
  choose_by-Move index_panic inp r w last h = idle h (λ i. refl, refl) refl
  choose_by-Move (pick index name) inp r w last h =
      select_channel-Move (find_channel r.channels name) inp r w last index h

  choose_from-Move :
      (ps : List ChunkState) (inp : Input) (r : Sending fl opts) (last : ℕ)
      → retryable_pending r.mf ≡ ps
      → Move crew r.mf.chunks
          (refreshed last)
          (choose_from fl opts ps inp r last).0.mf.chunks
          (choose_from fl opts ps inp r last).1
  choose_from-Move [] inp r last e =
      quit (λ i. refl) (λ i. refl) (retryable_pending-none r.mf e) refl
  choose_from-Move (p ∷ ps) inp r last e =
      choose_by-Move _ inp (record r { sched = _ }) (refreshed last) last (λ i. refl, refl)

  send_chunk-Move :
      (o : Option Text) (inp : Input) (r : Sending fl opts) (last : ℕ) (ch : LocalChannel)
      (c : ChunkState) (hash : Text)
      → Move crew r.mf.chunks
          (hashed last ch c hash)
          (send_chunk fl opts o inp r last ch c hash).0.mf.chunks
          (send_chunk fl opts o inp r last ch c hash).1
  unfolding mark_failed
  send_chunk-Move none inp r last ch c hash = rest (λ i. refl) refl refl
  send_chunk-Move (some e) inp r last ch c hash =
      elim (Bool-cases
        (store_panics fl opts (get_chunk (mark_failed r.mf c.index e) c.index) r.hard_err)) [
          | inl q ↦ rw q (landing crashed (λ i. refl, refl))
          | inr q ↦ rw q (landing (failing last ch) (λ i. refl, refl))
        ]
    where
      reopened :
          (d : ChunkState)
          → (is_done (reopen (as_failed e d)).status ≡ true)
            ⊎ ((is_failed (reopen (as_failed e d)).status ≡ true)
                ⊎ (is_pending (reopen (as_failed e d)).status ≡ true))
      reopened d = ground arith

      landing :
          (w : Worker)
          → IsFree crew w
          → Move crew r.mf.chunks
              (hashed last ch c hash)
              (update_chunk c.index reopen (update_chunk c.index (as_failed e) r.mf.chunks))
              w
      landing w h =
          land c.index (λ d. reopen (as_failed e d)) (λ j q. (eq_ℤ_iff c.index j).0 q) h
            (λ d. record { same_place = refl; outcome = reopened d })
            (update_chunk-update_chunk c.index (as_failed e) reopen (λ d. refl) r.mf.chunks)

  finish_chunk-Move :
      (inp : Input) (r : Sending fl opts) (last : ℕ) (ch : LocalChannel) (c : ChunkState)
      (hash : Text)
      → Move crew r.mf.chunks
          (sent last ch c hash)
          (finish_chunk fl opts inp r last ch c hash).0.mf.chunks
          (finish_chunk fl opts inp r last ch c hash).1
  unfolding finish_chunk mark_done
  finish_chunk-Move inp r last ch c hash =
      land c.index (as_done inp.now c.size hash) (λ j h. (eq_ℤ_iff c.index j).0 h) (λ i. refl, refl)
        (λ d. record { same_place = refl; outcome = inl refl }) refl

  clashes-is_set :
      (o : Option HardError) (e : HardError) → clashes o e ≡ true → is_set fl opts o ≡ true
  clashes-is_set none e h = absurd (cc)
  clashes-is_set (some d) e h = refl

  hash_chunk-Fine :
      (o : Option Text) (inp : Input) (r : Sending fl opts) (last : ℕ) (ch : LocalChannel)
      (c : ChunkState)
      → Fine r (holding last ch c) (hash_chunk fl opts o inp r last ch c)
  hash_chunk-Fine none inp r last ch c = inl (rest (λ i. refl) refl refl)
  hash_chunk-Fine (some e) inp r last ch c =
      elim (Bool-cases (clashes r.hard_err (hash_failed c.index e))) [
        | inl q ↦ rw q (inr (clashes-is_set r.hard_err (hash_failed c.index e) q))
        | inr q ↦ rw q (inr refl)
      ]

  failing-Fine :
      (o : Option HardError) (inp : Input) (r : Sending fl opts) (last : ℕ) (ch : LocalChannel)
      → r.hard_err ≡ o
      → inp.canceled ≡ false
      → Fine r (failing last ch) (
        record r { sched = report_failure fl inp.now r.sched ch.name },
        after_failure fl opts o inp.canceled last,
      )
  failing-Fine (some e) inp r last ch q c = inr (rw q refl)
  failing-Fine none inp r last ch q c = rw c (inl (idle (λ i. refl, refl) (λ i. refl, refl) refl))

  pub advance-Fine :
      (inp : Input) (r : Sending fl opts) (w : Worker)
      → inp.canceled ≡ false
      → Move crew r.mf.chunks w (advance fl opts inp r w).0.mf.chunks (advance fl opts inp r w).1
        ⊎ IsHard (advance fl opts inp r w).0
  unfolding advance choose
  advance-Fine inp r (ready last) e = begin_loop-Fine r.hard_err inp r last refl e
  advance-Fine inp r (refreshed last) e =
      inl (choose_from-Move (retryable_pending r.mf) inp r last refl)
  advance-Fine inp r (holding last ch c) e = hash_chunk-Fine inp.hash_error inp r last ch c
  advance-Fine inp r (hashed last ch c hash) e =
      inl (send_chunk-Move inp.send_error inp r last ch c hash)
  advance-Fine inp r (sent last ch c hash) e = inl (finish_chunk-Move inp r last ch c hash)
  advance-Fine inp r (failing last ch) e = failing-Fine r.hard_err inp r last ch refl e
  advance-Fine inp r stopped e = inl (rest (λ i. refl) refl refl)
  advance-Fine inp r crashed e = inl (rest (λ i. refl) refl refl)
