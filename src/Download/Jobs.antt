-- ===== src/Download/Jobs.antt =====
-- The life of one download: Resume, Cancel, and what Manager.run does before and after its workers.
-- A goroutine of `run` that goes on is an entry of `runs`, which says whether its context is canceled;
-- the latest comes first. `st.cancel` is the cancel function of the latest run that was started, also
-- when that run has ended: `is_latest_live` says whether it goes on. Saving and pruning are not modelled.
pub mod Outcome
pub mod Resuming
use multi_send.Base.{
  ℕ, zero, suc, ◌+◌, Bool, true, false, ◌&&◌, ◌||◌, not, List, [], ◌∷◌, Option, none, some,
  if◌then◌else◌, Result, ok, err, get_elem?,
}
use multi_send.Base.Int.{ℤ, pos}
use multi_send.Base.Text.{Text, txt}
use multi_send.Base.Float.{FloatOps}
use multi_send.Manifest.{Manifest, activate_resume, mark_canceled_pending}
use multi_send.Download.{all_done}
use multi_send.Download.State.{State, Job, JobStatus, running, done_job, failed_job, canceled_job}
use multi_send.Download.State.Stats.{refresh_stats}

abbrev pub is_running : JobStatus → Bool
is_running running = true
is_running _ = false

-- What Resume accepts.
abbrev pub is_resumable : JobStatus → Bool
is_resumable canceled_job = true
is_resumable failed_job = true
is_resumable _ = false

pub data ResumeError : Type 0 where
  job_not_resumable : ResumeError

abbrev pub cancel_first : List Bool → List Bool
cancel_first [] = []
cancel_first (canceled ∷ runs) = true ∷ runs

-- The run at a place goes.
unfoldable pub remove_at : ℕ → List Bool → List Bool
remove_at i [] = []
remove_at zero (b ∷ bs) = bs
remove_at (suc i) (b ∷ bs) = b ∷ remove_at i bs

-- Whether the latest run goes on when the one at a place has ended.
abbrev pub still_latest : ℕ → Bool → Bool
still_latest zero live = false
still_latest (suc i) live = live

module _ (fl : FloatOps) where
  pub record Download : Type 0 where
    pub st : State fl
    pub runs : List Bool
    pub is_latest_live : Bool

  abbrev pub with_status : JobStatus → Text → State fl → State fl
  with_status status message st = record st {
    job = record st.job { status = status; message = message };
  }

  abbrev pub resumed : ℕ → Download → Download
  resumed now d = record {
    st = record (with_status running [] d.st) {
      started_at = now;
      last_at = now;
      last_bytes = d.st.job.bytes_done;
    };
    runs = false ∷ d.runs;
    is_latest_live = true;
  }

  -- Resume, of a job that is known: the new run begins with `begin_run`.
  unfoldable pub resume : ℕ → Download → Result ResumeError Download
  resume now d = if is_resumable d.st.job.status then ok (resumed now d) else err job_not_resumable

  -- Cancel, of a job that is known.
  unfoldable pub cancel : Download → Download
  cancel d = record {
    st =
        if is_running d.st.job.status then with_status canceled_job (txt "canceled") d.st else d.st;
    runs = if d.is_latest_live then cancel_first d.runs else d.runs;
    is_latest_live = d.is_latest_live;
  }

  -- `if isResume { st.mf.ActivateResume(3) … }`
  unfoldable pub begin_run : Bool → State fl → State fl
  unfolding activate_resume
  begin_run is_resume st =
      if is_resume then record st { mf = activate_resume (pos 3) st.mf } else st

  abbrev pub merged : Option Text → State fl → State fl
  merged (some e) st = with_status failed_job e st
  merged none st = with_status done_job [] st

  -- The end of run, after its workers: `merge_error` is what mergeParts returns.
  abbrev pub ended : Option Text → Bool → State fl → State fl
  ended merge_error canceled st =
      if canceled
      then with_status canceled_job (txt "canceled")
          (record st { mf = mark_canceled_pending st.mf })
      else if all_done st.mf.chunks
      then merged merge_error st
      else with_status failed_job (txt "download incomplete") st

  unfoldable pub end_run : ℕ → (ℤ → Option ℤ) → Option Text → Bool → ℤ → State fl → State fl
  unfolding mark_canceled_pending all_done refresh_stats
  end_run now part_size merge_error canceled done_bytes st =
      refresh_stats fl now part_size (ended merge_error canceled st) done_bytes

  -- The i-th run ends.
  abbrev pub end_by : Option Bool → ℕ → ℕ → (ℤ → Option ℤ) → Option Text → ℤ → Download → Download
  end_by none i now part_size merge_error done_bytes d = d
  end_by (some canceled) i now part_size merge_error done_bytes d = record {
    st = end_run now part_size merge_error canceled done_bytes d.st;
    runs = remove_at i d.runs;
    is_latest_live = still_latest i d.is_latest_live;
  }

  unfoldable pub end_at : ℕ → ℕ → (ℤ → Option ℤ) → Option Text → ℤ → Download → Download
  unfolding end_run remove_at
  end_at i now part_size merge_error done_bytes d =
      end_by (get_elem? d.runs i) i now part_size merge_error done_bytes d
