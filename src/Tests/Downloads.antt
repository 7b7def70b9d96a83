-- ===== src/Tests/Downloads.antt =====
-- A download of three chunks over one channel, run by two workers; and one canceled and resumed.
use multi_send.Base.{
  map, ℕ, ◌+◌, ◌*◌, ◌/◌, ◌≡◌, ◌≢◌, ◌⊎◌, refl, true, false, not, List, [], ◌∷◌, Option, none, arith,
  All, select,
}
use multi_send.Base.Int.{pos, pos_part, add64, wrap64, rem64}
use multi_send.Base.Text.{Text, txt}
use multi_send.Base.Sort.{sort_by}
use multi_send.Manifest.{Manifest, by_index, is_sending}
use multi_send.Download.{
  max_chunk_attempts, LocalChannel, is_retryable, all_done, build_strict_plan, cable_share,
}
use multi_send.Download.Strict.{cable_count, build_strict_plan_share}
use multi_send.Download.State.{State, Job, running, done_job, failed_job, canceled_job, two_zeros}
use multi_send.Download.Run.{Input, ready, Run, start_run}
use multi_send.Download.Run.Steps.{advance, look_at}
use multi_send.Download.Run.Refine.{crew}
use multi_send.Workers.{all_stopped, interleave}
use multi_send.Workers.Ends.{IsOver, IsResting}
use multi_send.Manifest.Distinct.{Distinct}
use multi_send.Manifest.Trace.{place}
use multi_send.Download.Run.Ends.{interleave-IsOver}
use multi_send.Download.Jobs.{Download, resume, resumed, cancel, begin_run, end_run, end_at}
use multi_send.Download.Jobs.Outcome.{GaveUp, interleave-end_run}
use multi_send.Download.Jobs.Resuming.{IsOpen, end_at-resume, resume-end_at}
use multi_send.Tests.Manifests.{three}
use multi_send.Tests.Schedules.{shifted}

-- The chunks that are not in flight.
abbrev two : Manifest
two = record three { chunks = select (λ c. not (is_sending c.status)) three.chunks }

abbrev job : Job shifted
job = record {
  id = txt "dl-1";
  url = txt "http://localhost/a";
  status = running;
  message = [];
  output_path = txt "a";
  manifest_path = txt "m";
  bytes_done = pos 0;
  total_bytes = pos 100;
  percent = 1;
  mbps_now = 1;
  mbps_avg = 1;
  chunks_total = pos 1;
  chunks_done = pos 0;
  chunks_failed = pos 0;
  chunks_pending = pos 1;
  chunks_sending = pos 0;
  resume_supported = true;
  pipelined = false;
  in_flight = [];
  queue_depth = [];
  idle_gap_ms = [];
  channels = [];
  failed_chunks = [];
}

abbrev state_of : Manifest → State shifted
state_of mf = record {
  job = job;
  mf = mf;
  started_at = 0;
  last_at = 0;
  last_bytes = pos 0;
  samples = [];
  channels = [];
  allow_range = true;
  ch_samples = [];
  idle_gap_ms = two_zeros;
  root_dir = [];
}

abbrev loopback : List LocalChannel
loopback = record { name = "cable"; ip = [] } ∷ []

abbrev at_time : ℕ → Input
at_time now = record {
  now = now;
  canceled = false;
  channels = loopback;
  part_size = λ i. none;
  error = none;
  duration = pos 1000000000;
}

abbrev begun : Run shifted
begun = start_run shifted 0 (state_of two) loopback false false (pos 50) (pos 2)

begun-Distinct : Distinct begun.st.mf.chunks
unfolding start_run select
begun-Distinct = (((λ e. cc), tt), (tt, tt))

begun-IsResting : All IsResting begun.st.mf.chunks
unfolding start_run select
begun-IsResting = (refl, (refl, tt))

build_strict_plan_share_example :
    cable_count (build_strict_plan three.chunks (pos 60)) 2 (sort_by by_index three.chunks)
    ≡ (2 * pos_part (cable_share (pos 60)) + 50) / 100
build_strict_plan_share_example =
    build_strict_plan_share three.chunks (pos 60) 2
      (((λ e. cc), ((λ e. cc), tt)), (((λ e. cc), tt), (tt, tt))) (omega arith)

-- The first worker fetches the failed chunk, and both find nothing more.
abbrev fetch : List (ℕ × Input)
fetch =
    (0, at_time 1)
    ∷ (0, at_time 2)
    ∷ (0, at_time 3)
    ∷ (0, at_time 4)
    ∷ (0, at_time 5)
    ∷ (0, at_time 6)
    ∷ (1, at_time 7)
    ∷ []

fetch_stops :
    all_stopped crew (interleave (advance shifted) fetch (begun, ready ∷ ready ∷ [])).1 ≡ true
unfolding interleave advance all_stopped start_run add64 wrap64 look_at rem64
fetch_stops = refl

interleave-IsOver_example :
    (map place (interleave (advance shifted) fetch (begun, ready ∷ ready ∷ [])).0.st.mf.chunks
      ≡ map place begun.st.mf.chunks)
    × All
        (IsOver max_chunk_attempts)
        (interleave (advance shifted) fetch (begun, ready ∷ ready ∷ [])).0.st.mf.chunks
interleave-IsOver_example =
    interleave-IsOver shifted fetch begun (ready ∷ ready ∷ [])
      (refl, (refl, (refl, (refl, (refl, (refl, (refl, tt))))))) begun-Distinct begun-IsResting
      (unfold all_stopped in refl) fetch_stops

interleave-end_run_example :
    let r' = (interleave (advance shifted) fetch (begun, ready ∷ ready ∷ [])).0 in
    let status = (end_run shifted 8 (λ i. none) none false r'.done_bytes r'.st).job.status in
    ((status ≡ done_job) × (all_done r'.st.mf.chunks ≡ true) × (◌≡◌ {A = Option Text} none none))
    ⊎ (((status ≡ failed_job)
          × (all_done r'.st.mf.chunks ≡ true)
          × (◌≢◌ {A = Option Text} none none))
        ⊎ ((status ≡ failed_job) × GaveUp max_chunk_attempts r'.st.mf.chunks))
interleave-end_run_example =
    interleave-end_run shifted fetch begun (ready ∷ ready ∷ []) 8 (λ i. none) none
      (refl, (refl, (refl, (refl, (refl, (refl, (refl, tt))))))) begun-Distinct begun-IsResting
      (unfold all_stopped in refl) fetch_stops

abbrev active : Download shifted
active = record { st = state_of three; runs = false ∷ []; is_latest_live = true }

end_at-resume_example :
    let d' =
      end_at shifted 1 3
        (λ i. none)
        none
        (pos 0)
        (record (resumed shifted 2 (cancel shifted active)) {
          st = begin_run shifted true (resumed shifted 2 (cancel shifted active)).st;
        }) in
    (d'.runs ≡ false ∷ [])
    × (d'.st.job.status ≡ canceled_job)
    × (select is_retryable d'.st.mf.chunks ≡ [])
end_at-resume_example =
    end_at-resume shifted active (resumed shifted 2 (cancel shifted active)) 2 3 (λ i. none) none
      (pos 0) refl refl refl (unfold resume cancel in refl)

abbrev stopped_run : Download shifted
stopped_run = end_at shifted 0 2 (λ i. none) none (pos 0) (cancel shifted active)

resume-end_at_example :
    let d' = resumed shifted 3 stopped_run in
    (d'.runs ≡ false ∷ [])
    × (d'.st.job.status ≡ running)
    × All IsOpen (begin_run shifted true d'.st).mf.chunks
resume-end_at_example =
    resume-end_at shifted active (resumed shifted 3 stopped_run) 2 3 (λ i. none) none (pos 0) refl
      refl refl (refl, (refl, (refl, tt))) (unfold resume cancel end_at end_run in refl)
