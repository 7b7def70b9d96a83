-- ===== src/Download/Jobs/Outcome.antt =====
-- How a download ends, and what an early Resume does to it.
use multi_send.Base.{
  ℕ, suc, ◌≡◌, ◌≢◌, refl, ◌∙◌, Bool, true, false, List, [], ◌∷◌, Option, none, some, arith, All,
  if◌then◌else◌, get_elem?, inl, inr, ◌⊎◌,
}
use multi_send.Base.Int.{ℤ, ◌≤ℤ◌}
use multi_send.Base.Text.{Text, txt}
use multi_send.Base.Float.{FloatOps}
use multi_send.Manifest.{ChunkState, is_failed}
use multi_send.Download.{all_done, max_chunk_attempts}
use multi_send.Manifest.Distinct.{Distinct}
use multi_send.Download.State.{State, JobStatus, done_job, failed_job, canceled_job}
use multi_send.Download.Run.{Input, Worker, Run}
use multi_send.Download.Run.Steps.{advance}
use multi_send.Download.Run.Refine.{crew}
use multi_send.Download.State.Kept.{refresh_stats_status}
use multi_send.Workers.{all_stopped, interleave}
use multi_send.Workers.Ends.{IsOver, IsResting}
use multi_send.Download.Run.Ends.{interleave-IsOver}
use multi_send.Download.Jobs.{end_run, ended, with_status, merged}

-- A chunk that failed that often.
abbrev pub GaveUp : ℤ → List ChunkState → Type 0
GaveUp limit cs =
    (i : ℕ) × (c : ChunkState) × (get_elem? cs i ≡ some c)
    × (is_failed c.status ≡ true)
    × (limit ≤ℤ c.attempts)

pub all_done-or_GaveUp :
    (limit : ℤ) (cs : List ChunkState)
    → All (IsOver limit) cs
    → (all_done cs ≡ true) ⊎ ((all_done cs ≡ false) × GaveUp limit cs)
unfolding all_done
all_done-or_GaveUp limit [] h = inl refl
all_done-or_GaveUp limit (c ∷ cs) (inr (f, a), h) = inr (ground arith, (0, c, refl, f, a))
all_done-or_GaveUp limit (c ∷ cs) (inl d, h) = elim (all_done-or_GaveUp limit cs h) [
  | inl e ↦ inl (ground arith)
  | inr (e, (i, c', q, f, a)) ↦ inr (ground arith, (suc i, c', q, f, a))
]

abbrev after_merge : Option Text → JobStatus
after_merge none = done_job
after_merge (some e) = failed_job

three_ways :
    (status : JobStatus) (o : Option Text) (b : Bool) (cs : List ChunkState)
    → status ≡ (if b then after_merge o else failed_job)
    → (b ≡ true) ⊎ ((b ≡ false) × GaveUp max_chunk_attempts cs)
    → ((status ≡ done_job) × (b ≡ true) × (o ≡ none))
      ⊎ (((status ≡ failed_job) × (b ≡ true) × (o ≢ none))
          ⊎ ((status ≡ failed_job) × GaveUp max_chunk_attempts cs))
three_ways status none true cs e w = inl (e, refl, refl)
three_ways status (some x) true cs e w = inr (inl (e, refl, (λ q. cc)))
three_ways status o false cs e (inl w) = absurd (cc)
three_ways status o false cs e (inr (w, g)) = inr (inr (e, g))

module _ (fl : FloatOps) where
  end_run_status :
      (now : ℕ) (size : ℤ → Option ℤ) (merge_error : Option Text) (canceled : Bool) (n : ℤ)
      (st : State fl)
      → (end_run fl now size merge_error canceled n st).job.status ≡ (
          if canceled
          then canceled_job
          else if all_done st.mf.chunks
          then after_merge merge_error
          else failed_job)
  unfolding end_run
  end_run_status now size merge_error true n st =
      refresh_stats_status fl now size (ended fl merge_error true st) n
  end_run_status now size merge_error false n st =
      refresh_stats_status fl now size (ended fl merge_error false st) n
      ∙ at_end (all_done st.mf.chunks) merge_error
    where
      at_end :
          (b : Bool) (o : Option Text)
          → (if b
              then merged fl o st
              else with_status fl failed_job (txt "download incomplete") st).job.status
            ≡ (if b then after_merge o else failed_job)
      at_end true none = refl
      at_end true (some e) = refl
      at_end false o = refl

  -- A run that is not canceled, on chunks with distinct indices that are pending, failed or done, with
  -- workers that have no chunk in hand and have not all stopped, ends in one of three ways once all
  -- have stopped, in whatever order they made their steps. Either every chunk is done, merging
  -- succeeded, and so has the download; or every chunk is done and merging failed, and so has the
  -- download; or some chunk failed 8 times, and the download has failed.
  pub interleave-end_run :
      (steps : List (ℕ × Input)) (r : Run fl) (ws : List Worker) (now : ℕ) (size : ℤ → Option ℤ)
      (merge_error : Option Text)
      → All (λ s. s.1.canceled ≡ false) steps
      → Distinct r.st.mf.chunks
      → All IsResting r.st.mf.chunks
      → all_stopped crew ws ≡ false
      → all_stopped crew (interleave (advance fl) steps (r, ws)).1 ≡ true
      → let r' = (interleave (advance fl) steps (r, ws)).0 in
        let status = (end_run fl now size merge_error false r'.done_bytes r'.st).job.status in
        ((status ≡ done_job) × (all_done r'.st.mf.chunks ≡ true) × (merge_error ≡ none))
        ⊎ (((status ≡ failed_job) × (all_done r'.st.mf.chunks ≡ true) × (merge_error ≢ none))
            ⊎ ((status ≡ failed_job) × GaveUp max_chunk_attempts r'.st.mf.chunks))
  interleave-end_run steps r ws now size merge_error calm d h go stop =
      let r' = (interleave (advance fl) steps (r, ws)).0 in
      three_ways _ merge_error (all_done r'.st.mf.chunks) r'.st.mf.chunks
        (end_run_status now size merge_error false r'.done_bytes r'.st)
        (all_done-or_GaveUp max_chunk_attempts r'.st.mf.chunks
          (interleave-IsOver fl steps r ws calm d h go stop).1)
