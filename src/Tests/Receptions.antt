-- ===== src/Tests/Receptions.antt =====
-- A file of three bytes received in two chunks, and merged; and merged under a name that the cleanup
-- takes for a part.
use multi_send.Receiver.Finalize.{is_swept, validate_complete, Merging, finalize}
use multi_send.Manifest.{normalize_for_resume, as_done, ChunkState, Manifest}
use multi_send.Receiver.Chunks.{copy_n, Arrival, handle_conn, new_receiver_manifest, received_chunk}
use multi_send.Receiver.{
  count_chunks, Place, Session, merge_pending, merge_done, merged_and_cleaned, no_message,
}
use multi_send.Receiver.Connections.{arrive, accept_all}
use multi_send.Receiver.Honest.{Layout, IsFaithful}
use multi_send.Receiver.EndToEnd.{finalize-accept_all}
use multi_send.Receiver.Merged.{IsReady, IsStale}
use multi_send.Proto.{
  bad_sha256, bad_bounds, bad_position, bad_transfer_id, bad_message_type, Header, HeaderError,
}
use multi_send.Base.Int.{eq_ℤ, sub64, wrap64, add64, pos}
use multi_send.Base.Text.{trim_space, every, same_text, Text, txt}
use mathlib.Core.Option
use multi_send.Receiver.Whole.{drop, take}
use multi_send.Base.{
  map, All, if◌then◌else◌, ◌+◌, inl, ℕ, ◌≡◌, ◌⊎◌, refl, true, false, List, [], ◌∷◌, none, some,
}
use multi_send.Base.Sort.{sort_by}
use multi_send.Receiver.Acked.{IsRefused, IsDone, handle_conn_lem}
use multi_send.Receiver.Published.{HasStatus}
use multi_send.Tests.Headers.{checksum}

abbrev part : ℕ → ℕ → ℕ → Header
part index offset size = record {
  message_type = txt "chunk_start";
  transfer_id = txt "tx-1";
  file_name = txt "a";
  part_index = pos (index + 1);
  total_parts = pos 2;
  part_size = pos size;
  chunk_index = pos index;
  offset = pos offset;
  total_bytes = pos 3;
  lab = false;
  lab_path = [];
  receive_rel_path = [];
  publish_name = [];
  folder_result = [];
  chunk_sha256 = [];
  auth = [];
}

abbrev arrival : Arrival
arrival = record {
  now = 5;
  payload = 7 ∷ 8 ∷ [];
  accepts_paths = true;
  name = txt "a";
  target = record { type = txt "p2p"; address = []; path = txt "d" };
  temp_fails = false;
  load_fails = false;
  save_fails = false;
  remove_fails = false;
  rename_fails = false;
  ack_fails = false;
}

abbrev empty_place : Place
empty_place = record {
  manifest = none;
  parts = [];
  final = none;
  session = none;
  is_scheduled = false;
}

abbrev no_hash : List ℕ → Text
no_hash s = []

abbrev describe : HeaderError → Text
describe e = txt "invalid"

handle_conn_lem_example :
    let r = handle_conn no_hash checksum describe [] arrival (part 0 0 2) empty_place in
    (r.1 ≡ none)
    ⊎ (IsRefused no_hash empty_place r ⊎ IsDone no_hash checksum [] arrival (part 0 0 2) r)
handle_conn_lem_example =
    handle_conn_lem no_hash checksum describe [] arrival (part 0 0 2) empty_place

-- The acknowledgement of that chunk is the one that says "done".
handle_conn_done :
    Option.map
      (λ k. k.status)
      (handle_conn no_hash checksum describe [] arrival (part 0 0 2) empty_place).1
    ≡ some (txt "done")
unfolding handle_conn bad_message_type same_text bad_transfer_id every trim_space bad_position add64
    wrap64 bad_bounds sub64 bad_sha256
handle_conn_done = refl

abbrev session : Session
session = record {
  transfer_id = txt "tx-1";
  file_name = txt "a";
  status = txt "receiving";
  chunks_total = pos 2;
  chunks_done = pos 2;
  chunks_failed = pos 0;
  merge_status = merge_pending;
  merge_message = no_message;
}

abbrev whole : Manifest
whole = record (new_receiver_manifest arrival (part 0 0 2)) {
  chunks = received_chunk (part 1 2 1) (pos 1) ∷ received_chunk (part 0 0 2) (pos 2) ∷ [];
}

abbrev holding : Manifest → Place
holding m = record {
  manifest = some m;
  parts =
      record { name = txt "a"; index = pos 1; content = 9 ∷ [] }
      ∷ record { name = txt "a"; index = pos 0; content = 7 ∷ 8 ∷ [] }
      ∷ [];
  final = none;
  session = some session;
  is_scheduled = true;
}

abbrev smooth : Merging
smooth = record {
  load_fails = false;
  path_allowed = true;
  remove_fails = false;
  merge_fails = false;
  rename_fails = false;
  stat_fails = false;
  extract_fails = false;
  zip_remains = false;
  target_name = [];
  target_in_session = false;
  finds_directory = true;
  cleanup_fails = false;
  keeps_part = λ p. false;
  keeps_final = false;
}

-- Under a name with ".chunk" in it, the cleanup removes what was published; the session is done.
abbrev badly_named : Manifest
badly_named = record whole { file_name = txt "a.chunk" }

abbrev badly_named_place : Place
badly_named_place = record (holding badly_named) {
  parts =
      record { name = txt "a.chunk"; index = pos 1; content = 9 ∷ [] }
      ∷ record { name = txt "a.chunk"; index = pos 0; content = 7 ∷ 8 ∷ [] }
      ∷ [];
}

finalize_swept :
    ((finalize smooth badly_named_place).final ≡ none)
    × HasStatus merge_done merged_and_cleaned (finalize smooth badly_named_place).session
unfolding finalize normalize_for_resume new_receiver_manifest
finalize_swept = (refl, (_, refl, refl, refl))

-- The second chunk arrives and the first, and the second again before the first is published.
abbrev layout : Layout
layout = record {
  name = txt "a";
  source = 7 ∷ 8 ∷ 9 ∷ [];
  offset_of = λ i. if eq_ℤ i (pos 1) then 2 else 0;
  size_of = λ i. if eq_ℤ i (pos 1) then 1 else 2;
}

abbrev second : Arrival
second = record arrival { payload = 9 ∷ [] }

abbrev connections : List (Arrival × Header)
connections = (second, part 1 2 1) ∷ (arrival, part 0 0 2) ∷ (second, part 1 2 1) ∷ []

abbrev schedule : List ℕ
schedule = 0 ∷ 1 ∷ 0 ∷ 2 ∷ 1 ∷ 2 ∷ []

abbrev place : Place
place = accept_all no_hash checksum [] schedule (map arrive connections) empty_place

abbrev done_twice : ChunkState
done_twice = as_done 5 (pos 1) [] (received_chunk (part 1 2 1) (pos 1))

abbrev complete : Manifest
complete = record (new_receiver_manifest arrival (part 1 2 1)) {
  chunks = done_twice ∷ received_chunk (part 0 0 2) (pos 2) ∷ [];
}

place-IsReady : IsReady session complete place
unfolding accept_all bad_message_type same_text bad_transfer_id every trim_space bad_position add64
    wrap64 bad_bounds sub64 bad_sha256 count_chunks validate_complete normalize_for_resume
place-IsReady = (refl, (λ e. cc), (λ e. cc), refl, refl)

place-IsStale : IsStale complete place.final
unfolding accept_all bad_message_type same_text bad_transfer_id every trim_space bad_position add64
    wrap64 bad_bounds sub64 bad_sha256 normalize_for_resume
place-IsStale = inl refl

connections-IsFaithful : All (λ c. IsFaithful layout c.0 c.1) connections
unfolding copy_n take drop
connections-IsFaithful =
    ((refl, refl, refl, refl), ((refl, refl, refl, refl), ((refl, refl, refl, refl), tt)))

finalize-accept_all_example :
    ((finalize smooth place).final ≡ some (7 ∷ 8 ∷ 9 ∷ []))
    × HasStatus merge_done merged_and_cleaned (finalize smooth place).session
unfolding new_receiver_manifest sort_by same_text is_swept
finalize-accept_all_example =
    finalize-accept_all layout no_hash checksum [] schedule connections empty_place smooth session
      complete refl refl connections-IsFaithful place-IsReady
      (refl, refl, refl, refl, refl, refl, refl, refl, refl) place-IsStale refl refl
      (refl, (refl, refl))
