-- ===== src/Tests/Transfers.antt =====
-- A file of three chunks sent by one worker over the loopback channel, with one failed attempt.
use multi_send.Base.Text.{every, trim_space, Text, txt}
use multi_send.Base.Int.{quot64, pos, add64, wrap64, rem64, sub64}
use multi_send.Chunk.{chunk_count, ChunkPlan}
use multi_send.Chunk.Plan.{IsPlan}
use multi_send.Transfer.Send.Headers.{IsAccepted, validate_header-header_of}
use multi_send.Tests.Headers.{checksum, sum_bytes_lt}
use multi_send.Proto.Auth.{sign_header}
use multi_send.Transfer.{new_manifest, Source, OriginError, load_or_create}
use multi_send.Base.{
  inl, ℕ, ◌≡◌, ◌⊎◌, arith, refl, true, false, List, [], ◌∷◌, Option, none, some, All, ok, err,
}
use multi_send.Manifest.{Manifest, Status, activate_resume}
use multi_send.Manifest.Distinct.{Distinct}
use multi_send.Workers.{all_stopped, interleave}
use multi_send.Workers.Ends.{IsResting}
use multi_send.Scheduler.{new_weighted_scheduler}
use multi_send.Proto.{Header}
use multi_send.Transfer.Origin.{IsUsable, CannotResume, load_or_create_lem}
use multi_send.Transfer.Progress.{Counters, Traffic, mine, theirs, cable_counter}
use multi_send.Transfer.Attempt.{Connection, send_chunk_ctx, IsSettled, send_chunk_ctx_lem}
use multi_send.Transfer.Send.{Input, Options, ready, Sending, begin_send, header_of}
use multi_send.Transfer.Send.Steps.{advance, end_send}
use multi_send.Transfer.Send.Refine.{crew}
use multi_send.Transfer.Send.Outcome.{IsEnd, interleave-end_send}
use multi_send.Tests.Manifests.{three, chunk}
use multi_send.Tests.Schedules.{shifted}

abbrev source : Source
source = record {
  identity = txt "i";
  abs_path = txt "/a";
  dir = txt "/";
  file_name = txt "a";
  size = pos 10;
  mod_time = pos 0;
  chunk_size = pos 4;
  target_address = txt "h:1";
}

load_or_create_lem_example :
    let r =
      load_or_create 5
        (txt "tx-5")
        (some three)
        source
        (record { total_bytes = pos 10; chunk_size = pos 4; chunks = [] })
        true in
    ((m : Manifest) × (r ≡ ok m) × IsUsable source m)
    ⊎ ((e : OriginError) × (r ≡ err e) × (true ≡ true) × CannotResume source (some three))
load_or_create_lem_example =
    load_or_create_lem 5 (txt "tx-5") (some three) source
      (record { total_bytes = pos 10; chunk_size = pos 4; chunks = [] }) true

abbrev counters : Counters
counters = record { cable = pos 7; wifi = pos 1 }

abbrev traffic : List Traffic
traffic = mine (pos 3) ∷ theirs cable_counter (pos 2) ∷ mine (pos 1) ∷ []

abbrev options : Options
options = record {
  local_ips = [];
  loopback = true;
  lab = false;
  lab_receive_path = [];
  receive_rel_path = [];
  publish_name = [];
  folder_result = [];
  interface_refresh_seconds = pos 0;
  allow_new_interfaces = false;
  auth_secret = [];
  file_name = txt "a";
  size = pos 10;
}

abbrev conn : Connection
conn = record {
  ip_parses = true;
  dial_error = none;
  header_error = none;
  copy_error = none;
  traffic = traffic;
  ack = ok (record {
    type = txt "chunk_ack";
    transfer_id = txt "tx-1";
    chunk_index = pos 1;
    status = txt "done";
    bytes_received = pos 4;
    error = [];
  });
  context_error = none;
}

abbrev retried : Manifest
retried = activate_resume (pos 3) three

abbrev begun : Sending shifted options
begun =
    begin_send shifted options none
      (record { interval = pos 750000000; last = 0; last_err = none; saved = none }) retried

abbrev at_time : ℕ → Option Text → Input
at_time now failure = record {
  now = now;
  canceled = false;
  interfaces = none;
  hash = txt "h";
  hash_error = none;
  send_error = failure;
  write_error = none;
  duration = pos 1000000000;
}

begun-Distinct : Distinct begun.mf.chunks
unfolding begin_send activate_resume
begun-Distinct = (((λ e. cc), ((λ e. cc), tt)), (((λ e. cc), tt), (tt, tt)))

begun-IsResting : All IsResting begun.mf.chunks
unfolding begin_send activate_resume
begun-IsResting = (refl, (refl, (refl, tt)))

-- Two chunks are sent, the first of them at the second attempt.
abbrev delivery : List (ℕ × Input)
delivery =
    (0, at_time 1 none)
    ∷ (0, at_time 2 none)
    ∷ (0, at_time 3 none)
    ∷ (0, at_time 4 (some (txt "reset")))
    ∷ (0, at_time 5 none)
    ∷ (0, at_time 6 none)
    ∷ (0, at_time 7 none)
    ∷ (0, at_time 8 none)
    ∷ (0, at_time 9 none)
    ∷ (0, at_time 10 none)
    ∷ (0, at_time 11 none)
    ∷ (0, at_time 12 none)
    ∷ (0, at_time 13 none)
    ∷ (0, at_time 14 none)
    ∷ (0, at_time 15 none)
    ∷ (0, at_time 16 none)
    ∷ (0, at_time 17 none)
    ∷ []

delivery_stops :
    all_stopped crew (interleave (advance shifted options) delivery (begun, ready 0 ∷ [])).1 ≡ true
unfolding interleave advance all_stopped begin_send activate_resume add64 wrap64
    new_weighted_scheduler rem64 sub64
delivery_stops = refl

interleave-end_send_example :
    let r' = (interleave (advance shifted options) delivery (begun, ready 0 ∷ [])).0 in
    IsEnd shifted options r' none (end_send shifted options 18 none false r')
interleave-end_send_example =
    interleave-end_send shifted options delivery begun (ready 0 ∷ []) 18 none
      (
        refl,
        (
          refl,
          (
            refl,
            (
              refl,
              (
                refl,
                (
                  refl,
                  (
                    refl,
                    (
                      refl,
                      (refl, (refl, (refl, (refl, (refl, (refl, (refl, (refl, (refl, tt))))))))),
                    ),
                  ),
                ),
              ),
            ),
          ),
        ),
      )
      begun-Distinct begun-IsResting (unfold all_stopped in refl) delivery_stops

abbrev part : Header
part = header_of options three (chunk 1 4 4 Status.sending 1 0) (txt "h")

send_chunk_ctx_lem_example :
    IsSettled conn part "cable" counters (send_chunk_ctx conn [] part "cable" counters)
send_chunk_ctx_lem_example =
    send_chunk_ctx_lem conn [] part "cable" counters
      ((omega arith, omega arith), (omega arith, omega arith))

-- A plan of one chunk.
abbrev small : ChunkPlan
small = record {
  total_bytes = pos 3;
  chunk_size = pos 4;
  chunks = record { index = pos 0; offset = pos 0; size = pos 3; start = pos 0; end = pos 2 } ∷ [];
}

small-IsPlan : IsPlan 3 4 small
unfolding chunk_count rem64 add64 wrap64 quot64
small-IsPlan = record {
  total_kept = refl;
  size_kept = refl;
  tiles = (omega arith, refl, omega arith);
  counted = refl;
  once = λ b. ground arith;
}

validate_header-header_of_example :
    let m = new_manifest 5 (txt "tx-5") source small in
    All
      (λ c. IsAccepted checksum (1 ∷ []) (
        sign_header checksum
          (header_of (record options { size = pos 3; auth_secret = 1 ∷ [] }) m c [])
          (1 ∷ [])))
      m.chunks
unfolding every trim_space
validate_header-header_of_example =
    validate_header-header_of checksum (record options { size = pos 3; auth_secret = 1 ∷ [] }) 5
      (txt "tx-5") [] source small 3 4 small-IsPlan (omega arith) refl (omega arith)
      (omega arith, omega arith, refl, (λ e. cc), inl refl) (λ k m. (sum_bytes_lt m, tt))
      (λ k m e. cc)
