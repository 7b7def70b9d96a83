-- ===== src/Download/Run/Refine.antt =====
-- The download's workers are a crew: every step of theirs is a move.
use multi_send.Base.{
  ◌⊎◌, ℕ, map, ◌≡◌, refl, sym, ap, subst, ◌∙◌, Bool, true, false, List, [], ◌∷◌, Option, none, some,
  String, arith, if◌then◌else◌, length, select, Bool-cases, inl, inr,
}
use multi_send.Base.Int.{eq_ℤ, ℤ, add64, sub_ℕ, lt_ℤ, eq_ℤ_iff}
use multi_send.Base.Text.{Text}
use multi_send.Base.Dict.{Dict}
use multi_send.Base.Sort.{length-sort_by}
use multi_send.Base.Float.{FloatOps}
use multi_send.Scheduler.{Pick, no_pick, pick, index_panic}
use multi_send.Manifest.{
  is_pending, is_failed, Status, is_done, ChunkState, Manifest, by_index, update_chunk, find_chunk,
  as_sending, as_done, as_failed, mark_and_get_sending, mark_done, mark_failed,
}
use multi_send.Manifest.Lookup.{
  update_chunk_absent, find_chunk-index, update_chunk-update_chunk, find_before,
}
use multi_send.Download.{
  reset_stalled, LocalChannel, max_chunk_attempts, is_stalled, is_retryable, retry_pending,
  find_channel,
}
use multi_send.Download.State.{State}
use multi_send.Download.State.Updates.{
  refresh_channel_states, bump_channel_failure, bump_channel_success, bump_idle_gaps,
  update_telemetry,
}
use multi_send.Download.State.Kept.{refresh_stats_mf}
use multi_send.Download.Run.{
  Input, Worker, ready, looked, chose, holding, failing, succeeding, stopped, crashed, stall_limit,
  reopen, fail_chunk, Run,
}
use multi_send.Download.Run.Steps.{
  look_at, with_progress, look_pending, look_open, look, settle, choose_by, choose, take_by,
  take_chunk, landed, with_stats, finish_by, finish_chunk, advance,
}
use multi_send.Workers.{IsFree, Crew, IsLoosened, Move, idle, quit, rest, loosen, take, land}

abbrev pub held_by : Worker → ℤ → Bool
held_by (holding channels ch c) i = eq_ℤ c.index i
held_by _ i = false

abbrev pub is_stopped : Worker → Bool
is_stopped stopped = true
is_stopped _ = false

pub stopped_free : (w : Worker) (i : ℤ) → is_stopped w ≡ true → held_by w i ≡ false
stopped_free stopped i h = refl
stopped_free w i h = absurd (cc)

-- The download's workers, as a crew.
abbrev pub crew : Crew Worker
crew = record {
  held_by = held_by;
  is_stopped = is_stopped;
  max_attempts = max_chunk_attempts;
  stopped_free = stopped_free;
}

abbrev reset_chunk : ℕ → ℤ → ChunkState → ChunkState
reset_chunk now limit c =
    if is_stalled now limit c then record c { status = Status.pending; channel = "" } else c

reset_stalled-map :
    (now : ℕ) (limit : ℤ) (cs : List ChunkState)
    → (reset_stalled now limit cs).0 ≡ map (reset_chunk now limit) cs
unfolding reset_stalled
reset_stalled-map now limit [] = refl
reset_stalled-map now limit (c ∷ cs) = elim (Bool-cases (is_stalled now limit c)) [
  | inl e ↦ rw (e, reset_stalled-map now limit cs) refl
  | inr e ↦ rw (e, reset_stalled-map now limit cs) refl
]

reset_chunk-IsLoosened :
    (now : ℕ) (limit : ℤ) (c : ChunkState) → IsLoosened c (reset_chunk now limit c)
reset_chunk-IsLoosened now limit c = elim (Bool-cases (is_stalled now limit c)) [
  | inl e ↦ rw e (record { same_place = refl; outcome = inr refl })
  | inr e ↦ rw e (record { same_place = refl; outcome = inl refl })
]

module _ (fl : FloatOps) where
  with_stats_mf :
      (inp : Input) (r : Run fl) (channels : List LocalChannel) (st : State fl)
      → (with_stats fl inp r channels st).st.mf ≡ st.mf
  unfolding update_telemetry
  with_stats_mf inp r channels st = refresh_stats_mf fl inp.now inp.part_size st r.done_bytes

  with_progress_chunks :
      (inp : Input) (r : Run fl) → (with_progress fl inp r).st.mf.chunks ≡ r.st.mf.chunks
  with_progress_chunks inp r = ground arith

  look_at-Move :
      (inp : Input) (r : Run fl) (channels : List LocalChannel) (ps : List ChunkState)
      → Move crew r.st.mf.chunks ready
          (look_at fl inp r channels ps).0.st.mf.chunks
          (look_at fl inp r channels ps).1
  unfolding look_at update_telemetry
  look_at-Move inp r channels ps =
      elim (Bool-cases (lt_ℤ stall_limit (sub_ℕ inp.now r.last_progress_at))) [
        | inl e ↦
            loosen (reset_chunk inp.now stall_limit) (λ i. refl, refl) (λ i. refl, refl)
              (λ c. reset_chunk-IsLoosened inp.now stall_limit c)
              (rw e (reset_stalled-map inp.now stall_limit r.st.mf.chunks))
        | inr e ↦ idle (λ i. refl, refl) (λ i. refl, refl) (ground (arith, e))
      ]

  retry_pending-none : (mf : Manifest) → retry_pending mf ≡ [] → select is_retryable mf.chunks ≡ []
  unfolding retry_pending
  retry_pending-none mf e =
      length_zero _ (sym (length-sort_by by_index (select is_retryable mf.chunks)) ∙ ap length e)
    where
      length_zero : (cs : List ChunkState) → length cs ≡ 0 → cs ≡ []
      length_zero [] h = refl
      length_zero (c ∷ cs) h = absurd (omega arith)

  look_pending-Move :
      (inp : Input) (r : Run fl) (ps : List ChunkState)
      → retry_pending r.st.mf ≡ ps
      → Move crew r.st.mf.chunks ready
          (look_pending fl inp r ps).0.st.mf.chunks
          (look_pending fl inp r ps).1
  unfolding update_telemetry
  look_pending-Move inp r [] e = quit (λ i. refl) (λ i. refl) (retry_pending-none r.st.mf e) refl
  look_pending-Move inp r (p ∷ ps) e = look_at-Move inp r inp.channels (p ∷ ps)

  not_taken :
      (cs : List ChunkState) (b : Bool) (x y : Run fl × Worker)
      → b ≡ false
      → Move crew cs ready y.0.st.mf.chunks y.1
      → Move crew cs ready (if b then x else y).0.st.mf.chunks (if b then x else y).1
  not_taken cs true x y e m = absurd (cc)
  not_taken cs false x y e m = m

  look_open-Move :
      (inp : Input) (r : Run fl)
      → Move crew r.st.mf.chunks ready (look_open fl inp r).0.st.mf.chunks (look_open fl inp r).1
  unfolding refresh_channel_states
  look_open-Move inp r =
      let r' =
        with_progress fl inp (record r { st = refresh_channel_states fl r.st inp.channels }) in
      subst
        (λ cs.
          Move crew cs ready (look_pending fl inp r' (retry_pending r'.st.mf)).0.st.mf.chunks
            (look_pending fl inp r' (retry_pending r'.st.mf)).1)
        (with_progress_chunks inp (record r { st = refresh_channel_states fl r.st inp.channels }))
        (look_pending-Move inp r' (retry_pending r'.st.mf) refl)

  look-Move :
      (inp : Input) (r : Run fl)
      → inp.canceled ≡ false
      → Move crew r.st.mf.chunks ready (look fl inp r).0.st.mf.chunks (look fl inp r).1
  unfolding look
  look-Move inp r e =
      not_taken r.st.mf.chunks inp.canceled (r, stopped) (look_open fl inp r) e
        (look_open-Move inp r)

  settle-IsFree :
      (channels : List LocalChannel) (ps : List ChunkState) (o : Option (ℤ × String))
      → IsFree crew (settle fl channels ps o)
  settle-IsFree channels ps none = (λ i. refl, refl)
  settle-IsFree channels ps (some (index, name)) = found (find_channel channels name)
    where
      found :
          (o : Option LocalChannel)
          → IsFree crew (elim o [ none ↦ ready | some ch ↦ chose channels ps ch index ])
      found none = (λ i. refl, refl)
      found (some ch) = (λ i. refl, refl)

  choose_by-Move :
      (p : Pick fl) (r : Run fl) (w : Worker) (channels : List LocalChannel) (ps : List ChunkState)
      (snapshot : Dict ℤ)
      → IsFree crew w
      → Move crew r.st.mf.chunks w
          (choose_by fl p r channels ps snapshot).0.st.mf.chunks
          (choose_by fl p r channels ps snapshot).1
  unfolding bump_idle_gaps update_telemetry
  choose_by-Move no_pick r w channels ps snapshot h = idle h (λ i. refl, refl) refl
  choose_by-Move index_panic r w channels ps snapshot h = idle h (λ i. refl, refl) refl
  choose_by-Move (pick index name) r w channels ps snapshot h =
      idle h (settle-IsFree channels ps _) refl

  take_by-Move :
      (o : Option ChunkState) (mf : Manifest) (inp : Input) (r : Run fl) (w : Worker)
      (channels : List LocalChannel) (ps : List ChunkState) (ch : LocalChannel) (index : ℤ)
      → IsFree crew w
      → mf.chunks ≡ update_chunk index (as_sending inp.now ch.name) r.st.mf.chunks
      → find_chunk index mf.chunks ≡ o
      → Move crew r.st.mf.chunks w
          (take_by fl o mf inp r channels ps ch).0.st.mf.chunks
          (take_by fl o mf inp r channels ps ch).1
  unfolding update_telemetry
  take_by-Move none mf inp r w channels ps ch index h e q =
      idle h (λ i. refl, refl)
        (e
          ∙ update_chunk_absent index (as_sending inp.now ch.name) r.st.mf.chunks (
              find_before index (as_sending inp.now ch.name) (λ c. refl) r.st.mf.chunks
                (ap (find_chunk index) (sym e) ∙ q)))
  take_by-Move (some c) mf inp r w channels ps ch index h e q =
      take inp.now ch.name index h e
        ((eq_ℤ_iff c.index index).1 (find_chunk-index index mf.chunks c q)) refl

  take_chunk-Move :
      (inp : Input) (r : Run fl) (w : Worker) (channels : List LocalChannel) (ps : List ChunkState)
      (ch : LocalChannel) (index : ℤ)
      → IsFree crew w
      → Move crew r.st.mf.chunks w
          (take_chunk fl inp r channels ps ch index).0.st.mf.chunks
          (take_chunk fl inp r channels ps ch index).1
  unfolding take_chunk mark_and_get_sending
  take_chunk-Move inp r w channels ps ch index h =
      let mf = record r.st.mf {
        chunks = update_chunk index (as_sending inp.now ch.name) r.st.mf.chunks;
      } in
      take_by-Move (find_chunk index mf.chunks) mf inp r w channels ps ch index h refl refl

  finish_by-Move :
      (o : Option Text) (inp : Input) (r : Run fl) (channels : List LocalChannel)
      (ch : LocalChannel) (c : ChunkState)
      → Move crew r.st.mf.chunks
          (holding channels ch c)
          (finish_by fl o inp r channels ch c).0.st.mf.chunks
          (finish_by fl o inp r channels ch c).1
  unfolding bump_channel_failure bump_channel_success fail_chunk mark_done mark_failed
  finish_by-Move (some e) inp r channels ch c =
      land c.index (λ d. reopen (as_failed e d)) (λ j h. (eq_ℤ_iff c.index j).0 h) (λ i. refl, refl)
        (λ d. record { same_place = refl; outcome = reopened d })
        (ap (λ m. m.chunks) (with_stats_mf inp r channels _)
          ∙ update_chunk-update_chunk c.index (as_failed e) reopen (λ d. refl) r.st.mf.chunks)
    where
      reopened :
          (d : ChunkState)
          → (is_done (reopen (as_failed e d)).status ≡ true)
            ⊎ ((is_failed (reopen (as_failed e d)).status ≡ true)
                ⊎ (is_pending (reopen (as_failed e d)).status ≡ true))
      reopened d = ground arith
  finish_by-Move none inp r channels ch c =
      land c.index (as_done inp.now c.size []) (λ j h. (eq_ℤ_iff c.index j).0 h) (λ i. refl, refl)
        (λ d. record { same_place = refl; outcome = inl refl })
        (ap (λ m. m.chunks)
          (with_stats_mf inp (record r { done_bytes = add64 r.done_bytes c.size }) channels _))

  pub advance-Move :
      (inp : Input) (r : Run fl) (w : Worker)
      → inp.canceled ≡ false
      → Move crew r.st.mf.chunks w (advance fl inp r w).0.st.mf.chunks (advance fl inp r w).1
  unfolding advance choose finish_chunk
  advance-Move inp r ready e = look-Move inp r e
  advance-Move inp r (looked channels ps snapshot) e =
      choose_by-Move _ (record r { sched = _ }) (looked channels ps snapshot) channels ps snapshot
        (λ i. refl, refl)
  advance-Move inp r (chose channels ps ch index) e =
      take_chunk-Move inp r (chose channels ps ch index) channels ps ch index (λ i. refl, refl)
  advance-Move inp r (holding channels ch c) e =
      finish_by-Move inp.error inp (landed fl r ch) channels ch c
  advance-Move inp r (failing ch) e = idle (λ i. refl, refl) (λ i. refl, refl) refl
  advance-Move inp r (succeeding ch size) e = idle (λ i. refl, refl) (λ i. refl, refl) refl
  advance-Move inp r stopped e = rest (λ i. refl) refl refl
  advance-Move inp r crashed e = rest (λ i. refl) refl refl
