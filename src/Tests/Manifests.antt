-- ===== src/Tests/Manifests.antt =====
-- A manifest of three chunks, marked, canceled and resumed.
use multi_send.Manifest.Retry.{IsRetried, load-mark_failed}
use mathlib.Core.List.{Perm}
use multi_send.Base.{
  ◌≢◌, some, ℕ, ◌+◌, ◌≤◌, ◌⊎◌, ◌↔◌, ◌≡◌, refl, List, [], ◌∷◌, none, arith, map, length, All, false,
  ◌||◌, select,
}
use multi_send.Base.Int.{ℤ, pos, add64, wrap64, ◌≤ℤ◌}
use multi_send.Base.Sort.{IsSorted}
use multi_send.Base.Text.{txt}
use multi_send.Manifest.{
  mark_failed, Status, pending, sending, done, failed, ChunkState, Manifest, get_chunk, mark_done,
  normalize_for_resume, activate_resume, mark_canceled_pending, pending_chunks, by_index, is_done,
  is_pending, is_failed, is_sending, done_bytes, load,
}
use multi_send.Manifest.Resume.{
  activate_resume-mark_canceled_pending, length-pending_chunks-activate_resume, load_lem,
  count_status,
}
use multi_send.Manifest.Progress.{done_bytes-mark_done, IsCounted, AllDone}
use multi_send.Manifest.Pending.{pending_chunks_lem}
use multi_send.Manifest.Trace.{Event, run, place, run_lem}

abbrev pub chunk : ℕ → ℕ → ℕ → Status → ℕ → ℕ → ChunkState
chunk index offset size status attempts bytes = record {
  index = pos index;
  offset = pos offset;
  size = pos size;
  status = status;
  attempts = pos attempts;
  last_error = [];
  channel = "";
  bytes_done = pos bytes;
  started_at = none;
  completed_at = none;
  hash_sha256 = [];
}

abbrev pub three : Manifest
three = record {
  schema_version = pos 1;
  transfer_id = txt "tx-1";
  type = txt "p2p";
  file_name = txt "a.bin";
  total_bytes = pos 10;
  chunk_size = pos 4;
  created_at = 5;
  updated_at = 5;
  source = record {
    type = txt "p2p";
    address = [];
    url = [];
    identity = txt "id";
    abs_path = [];
    mod_time = pos 0;
  };
  target = record { type = txt "p2p"; address = txt "10.0.0.2"; path = [] };
  chunks = chunk 0 0 4 done 0 4 ∷ chunk 1 4 4 sending 1 0 ∷ chunk 2 8 2 failed 3 0 ∷ [];
}

activate_resume-mark_canceled_pending_example :
    (activate_resume (pos 3) (mark_canceled_pending three) ≡ activate_resume (pos 3) three)
    × (normalize_for_resume (pos 3) (normalize_for_resume (pos 3) three)
        ≡ normalize_for_resume (pos 3) three)
activate_resume-mark_canceled_pending_example = activate_resume-mark_canceled_pending (pos 3) three

length-pending_chunks-activate_resume_example :
    length (pending_chunks (activate_resume (pos 3) three)) + count_status is_done three.chunks ≡ 3
length-pending_chunks-activate_resume_example =
    length-pending_chunks-activate_resume (pos 3) three (tt, (tt, (tt, tt)))

load_lem_example :
    All
      (λ c. (is_sending c.status ≡ false) × ((is_failed c.status ≡ false) ⊎ (pos 3 ≤ℤ c.attempts)))
      (normalize_for_resume (pos 3) three).chunks
load_lem_example = load_lem three (normalize_for_resume (pos 3) three) (unfold load in refl)

three-IsCounted : All IsCounted three.chunks
three-IsCounted = ground arith

done_bytes-mark_done_example :
    done_bytes (mark_done 9 three (pos 1) (pos 4) (txt "h")) ≡ add64 (done_bytes three) (pos 4)
unfolding get_chunk
done_bytes-mark_done_example =
    done_bytes-mark_done 9 three (pos 1) (txt "h") (chunk 1 4 4 sending 1 0) three-IsCounted
      (omega arith) refl refl

done_bytes_runs : done_bytes (mark_done 9 three (pos 1) (pos 4) (txt "h")) ≡ pos 8
unfolding done_bytes mark_done add64 wrap64
done_bytes_runs = refl

pending_chunks_lem_example :
    IsSorted by_index (pending_chunks three)
    × All (λ c. (c.status ≡ pending) ⊎ (c.status ≡ failed)) (pending_chunks three)
    × Perm
        (pending_chunks three)
        (select (λ c. is_pending c.status || is_failed c.status) three.chunks)
pending_chunks_lem_example = pending_chunks_lem three

abbrev events : List Event
events =
    Event.cancel
    ∷ Event.resume (pos 3)
    ∷ Event.send 9 (pos 2) "wifi"
    ∷ Event.fail (pos 2) (txt "eof")
    ∷ Event.finish 11 (pos 1) (txt "h")
    ∷ []

run_lem_example :
    (map place (run events three).chunks ≡ map place three.chunks)
    × ((n : ℕ) × (done_bytes (run events three) ≡ pos n)
        × (n ≤ 10)
        × ((n ≡ 10) ↔ AllDone (run events three).chunks))
run_lem_example =
    run_lem 10 events three (record { counted = three-IsCounted; sizes = refl }) (omega arith)

-- The chunk that was in flight, with one failure before.
load-mark_failed_example :
    (m' : Manifest) × (load (some (mark_failed three (pos 1) (txt "e"))) ≡ some m')
    × ((c' : ChunkState) × (get_chunk m' (pos 1) ≡ some c')
        × IsRetried (txt "e") 1 (chunk 1 4 4 sending 1 0) c')
    × ((j : ℤ) → j ≢ pos 1 → get_chunk m' j ≡ get_chunk (normalize_for_resume (pos 3) three) j)
unfolding get_chunk
load-mark_failed_example =
    load-mark_failed three (pos 1) (txt "e") 1 (chunk 1 4 4 sending 1 0) refl refl (omega arith)
