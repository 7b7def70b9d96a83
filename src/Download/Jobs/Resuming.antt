-- ===== src/Download/Jobs/Resuming.antt =====
-- Resume after Cancel: what it restores, and what happens when it comes before the canceled run ends.
use multi_send.Base.{
  ℕ, ◌≡◌, refl, sym, ap, subst, ◌∙◌, Bool, true, false, ◌||◌, List, [], ◌∷◌, Option, arith, All,
  select, map, ◌⊎◌, ok,
}
use multi_send.Base.Int.{ℤ, pos}
use multi_send.Base.Text.{Text, txt}
use multi_send.Base.Float.{FloatOps}
use multi_send.Manifest.{
  ChunkState, is_done, is_failed, is_pending, is_sending, mark_canceled_pending, cancel_chunk,
  activate_resume, activate_chunk,
}
use multi_send.Download.{is_retryable}
use multi_send.Download.State.{running, canceled_job}
use multi_send.Download.State.Kept.{refresh_stats_mf, refresh_stats_status}
use multi_send.Download.State.Stats.{refresh_stats}
use multi_send.Download.Jobs.{
  Download, resume, resumed, with_status, cancel, begin_run, end_run, end_at, ended, is_resumable,
  remove_at,
}

-- A canceled and resumed run leaves nothing that could be retried.
none_left :
    (k : ℤ) (cs : List ChunkState)
    → select is_retryable (map cancel_chunk (map (activate_chunk k) cs)) ≡ []
unfolding select
none_left k [] = refl
none_left k (c ∷ cs) =
    let gone : is_retryable (cancel_chunk (activate_chunk k c)) ≡ false = ground arith in
    rw gone (none_left k cs)

-- Known, and perhaps canceled.
abbrev pub IsNamed : ChunkState → Type 0
IsNamed c =
    (is_pending c.status || (is_sending c.status || (is_done c.status || is_failed c.status)))
    ≡ true

abbrev pub IsOpen : ChunkState → Type 0
IsOpen c = (is_done c.status ≡ true) ⊎ (is_retryable c ≡ true)

All-IsOpen :
    (cs : List ChunkState)
    → All IsNamed cs
    → All IsOpen (map (activate_chunk (pos 3)) (map cancel_chunk cs))
All-IsOpen [] h = tt
All-IsOpen (c ∷ cs) (p, h) = (ground arith, All-IsOpen cs h)

module _ (fl : FloatOps) where
  resumed_by :
      (now : ℕ) (d d' : Download fl)
      → is_resumable d.st.job.status ≡ true
      → resume fl now d ≡ ok d'
      → d' ≡ resumed fl now d
  unfolding resume
  resumed_by now d d' e q = let q' = rw e at q in cc

  cancel_running :
      (d : Download fl) (runs : List Bool)
      → d.st.job.status ≡ running
      → d.runs ≡ false ∷ runs
      → d.is_latest_live ≡ true
      → cancel fl d ≡ record {
        st = with_status fl canceled_job (txt "canceled") d.st;
        runs = true ∷ runs;
        is_latest_live = true;
      }
  unfolding cancel
  cancel_running d runs e q live = rw (e, q, live) refl

  -- Where Resume comes after Cancel of a job whose one run is the latest one, but before that run has
  -- ended, the end of that run undoes it: the new run is not canceled, but the job says that it is,
  -- and of the chunks that the new run had made pending none is left to retry.
  pub end_at-resume :
      (d d' : Download fl) (now later : ℕ) (size : ℤ → Option ℤ) (merge_error : Option Text) (n : ℤ)
      → d.st.job.status ≡ running
      → d.runs ≡ false ∷ []
      → d.is_latest_live ≡ true
      → resume fl now (cancel fl d) ≡ ok d'
      → let d'' =
          end_at fl 1 later size merge_error n (record d' { st = begin_run fl true d'.st }) in
        (d''.runs ≡ false ∷ [])
        × (d''.st.job.status ≡ canceled_job)
        × (select is_retryable d''.st.mf.chunks ≡ [])
  unfolding end_at begin_run end_run mark_canceled_pending activate_resume remove_at
  end_at-resume d d' now later size merge_error n e q live r =
      let c = cancel_running d [] e q live in
      let canceled : Download fl = record {
        st = with_status fl canceled_job (txt "canceled") d.st;
        runs = true ∷ [];
        is_latest_live = true;
      } in
      let same = resumed_by now canceled d' refl (rw c at r) in
      let st = ended fl merge_error true (begin_run fl true (resumed fl now canceled).st) in
      rw same (
        refl,
        refresh_stats_status fl later size st n,
        ap (λ m. select is_retryable m.chunks) (refresh_stats_mf fl later size st n)
            ∙ none_left (pos 3) d.st.mf.chunks,
      )

  -- Where the one run of a job, the latest one, is canceled and has ended before Resume, and the
  -- statuses are the known ones, the job is running again with the new run alone, and every chunk is
  -- done or to be retried.
  pub resume-end_at :
      (d d' : Download fl) (now later : ℕ) (size : ℤ → Option ℤ) (merge_error : Option Text) (n : ℤ)
      → d.st.job.status ≡ running
      → d.runs ≡ false ∷ []
      → d.is_latest_live ≡ true
      → All IsNamed d.st.mf.chunks
      → resume fl later (end_at fl 0 now size merge_error n (cancel fl d)) ≡ ok d'
      → (d'.runs ≡ false ∷ [])
        × (d'.st.job.status ≡ running)
        × All IsOpen (begin_run fl true d'.st).mf.chunks
  unfolding end_at begin_run end_run mark_canceled_pending activate_resume remove_at
  resume-end_at d d' now later size merge_error n e q live h r =
      let c = cancel_running d [] e q live in
      let st = ended fl merge_error true (with_status fl canceled_job (txt "canceled") d.st) in
      let over : Download fl = record {
        st = refresh_stats fl now size st n;
        runs = [];
        is_latest_live = false;
      } in
      let resumable : is_resumable over.st.job.status ≡ true =
        ap is_resumable (refresh_stats_status fl now size st n) in
      let same = resumed_by later over d' resumable (rw c at r) in
      rw same (
        refl,
        refl,
        subst (λ m. All IsOpen (map (activate_chunk (pos 3)) m.chunks))
            (sym (refresh_stats_mf fl now size st n)) (All-IsOpen d.st.mf.chunks h),
      )
