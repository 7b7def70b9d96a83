-- ===== src/Receiver/Chunks.antt =====
-- handleConn from the header on: a chunk is received, published and acknowledged.
use multi_send.Base.{
  ℕ, zero, suc, ◌++◌, Bool, true, false, ◌&&◌, ◌||◌, not, List, [], ◌∷◌, Option, none, some, length,
  if◌then◌else◌, Result, ok, err,
}
use multi_send.Base.Int.{ℤ, pos, pos_part, eq_ℤ}
use multi_send.Base.Text.{Text, txt, same_text, is_empty, equal_fold}
use multi_send.Proto.{Header, HeaderError, ChunkAck, validate_header}
use multi_send.Proto.Auth.{verify_header}
use multi_send.Manifest.{Manifest, TargetInfo, ChunkState, Status, get_chunk, mark_done, load}
use multi_send.Receiver.{
  find_part, put_part, remove_part, MergeStatus, merge_unset, merge_pending, merge_running,
  merge_done, no_message, Session, Place, update_session, with_counts,
}

-- What a connection brings, and what the file system answers. `accepts_paths` says that handleConn's
-- checks of the paths pass and the directory is there.
pub record Arrival : Type 0 where
  pub now : ℕ
  pub payload : List ℕ
  pub accepts_paths : Bool
  pub name : Text
  pub target : TargetInfo
  -- CreateTemp, Sync or Close fails; Load fails on a file that is there; SaveAtomic fails; the Remove
  -- of another content of the chunk fails; the Rename of the new one fails.
  pub temp_fails : Bool
  pub load_fails : Bool
  pub save_fails : Bool
  pub remove_fails : Bool
  pub rename_fails : Bool
  -- WriteChunkAck fails.
  pub ack_fails : Bool

pub data ReceiveError : Type 0 where
  payload_lost hash_mismatch : ReceiveError

-- io.CopyN
unfoldable pub copy_n : ℕ → List ℕ → Option (List ℕ)
copy_n zero payload = some []
copy_n (suc n) [] = none
copy_n (suc n) (b ∷ payload) = elim (copy_n n payload) [
  | none ↦ none
  | some bytes ↦ some (b ∷ bytes)
]

abbrev pub same_target : TargetInfo → TargetInfo → Bool
same_target s t =
    same_text s.type t.type && (same_text s.path t.path && same_text s.address t.address)

unfoldable pub new_receiver_manifest : Arrival → Header → Manifest
new_receiver_manifest a h = record {
  schema_version = pos 1;
  transfer_id = h.transfer_id;
  type = txt "p2p";
  file_name = a.name;
  total_bytes = h.total_bytes;
  chunk_size = h.part_size;
  created_at = a.now;
  updated_at = a.now;
  source = record {
    type = txt "p2p";
    address = [];
    url = [];
    identity = [];
    abs_path = [];
    mod_time = pos 0;
  };
  target = a.target;
  chunks = [];
}

-- The manifest that a header may go on with.
unfoldable pub is_of_header : Arrival → Header → Manifest → Bool
is_of_header a h m =
    same_text m.transfer_id h.transfer_id
    && (same_text m.file_name a.name
        && (eq_ℤ m.total_bytes h.total_bytes && same_target m.target a.target))

abbrev pub manifest_for : Arrival → Header → Option Manifest → Option Manifest
manifest_for a h none = some (new_receiver_manifest a h)
manifest_for a h (some m) = if is_of_header a h m then some m else none

abbrev pub received_chunk : Header → ℤ → ChunkState
received_chunk h written = record {
  index = h.chunk_index;
  offset = h.offset;
  size = h.part_size;
  status = Status.done;
  attempts = pos 0;
  last_error = [];
  channel = "";
  bytes_done = written;
  started_at = none;
  completed_at = none;
  hash_sha256 = [];
}

abbrev pub record_chunk : Option ChunkState → Arrival → Header → ℤ → Manifest → Option Manifest
record_chunk none a h written m =
    some (record m { chunks = m.chunks ++ received_chunk h written ∷ [] })
record_chunk (some c) a h written m =
    if not (eq_ℤ c.offset h.offset) || not (eq_ℤ c.size h.part_size)
    then none
    else some (mark_done a.now m h.chunk_index written [])

abbrev pub recorded : Option Manifest → Arrival → Header → ℤ → Option Manifest
recorded none a h written = none
recorded (some m) a h written = record_chunk (get_chunk m h.chunk_index) a h written m

abbrev pub as_receiving : Arrival → Header → Manifest → Session → Session
as_receiving a h m s = with_counts m (record s {
  transfer_id = h.transfer_id;
  file_name = a.name;
  status = txt "receiving";
  merge_status = merge_pending;
})

abbrev pub saved : Option Manifest → Arrival → Header → Place → Place × Bool
saved none a h p = (p, false)
saved (some m) a h p = if a.save_fails then (p, false) else (
  record p { manifest = some m; session = update_session (as_receiving a h m) p.session },
  true,
)

-- updateReceiverManifestFile; false stands for an error.
unfoldable pub update_manifest_file : Arrival → Header → ℤ → Place → Place × Bool
unfolding get_chunk mark_done is_of_header new_receiver_manifest load
update_manifest_file a h written p =
    if a.load_fails
    then (p, false)
    else saved (recorded (manifest_for a h (load p.manifest)) a h written) a h p

abbrev pub keep_status : Text → Text
keep_status [] = txt "receiving"
keep_status (c ∷ s) = c ∷ s

abbrev pub keep_merge : MergeStatus → MergeStatus
keep_merge merge_unset = merge_pending
keep_merge m = m

-- ensureReceiverSession
abbrev pub ensure_session : Arrival → Header → Place → Place
ensure_session a h p = record p {
  session =
      update_session
        (λ s. record s {
          transfer_id = h.transfer_id;
          file_name = a.name;
          status = keep_status s.status;
          merge_status = keep_merge s.merge_status;
        })
        p.session;
}

abbrev pub schedule_by : MergeStatus → Session → Place → Place
schedule_by merge_running s p = p
schedule_by merge_done s p = p
schedule_by _ s p = record p {
  session = some (record s { merge_status = merge_pending; merge_message = no_message });
  is_scheduled = true;
}

abbrev pub schedule_in : Option Session → Place → Place
schedule_in none p = p
schedule_in (some s) p = schedule_by s.merge_status s p

-- maybeScheduleReceiverFinalize
abbrev pub schedule_finalize : Place → Place
schedule_finalize p = schedule_in p.session p

abbrev pub ack : Text → Header → ℤ → Text → ChunkAck
ack status h bytes error = record {
  type = txt "chunk_ack";
  transfer_id = h.transfer_id;
  chunk_index = h.chunk_index;
  status = status;
  bytes_received = bytes;
  error = error;
}

-- The end of a chunk that was written to the manifest, or not.
abbrev pub acknowledge : Header → ℤ → (schedules : Bool) → Place × Bool → Place × Option ChunkAck
acknowledge h written schedules (p, false) = (p, none)
acknowledge h written schedules (p, true) =
    (if schedules then schedule_finalize p else p, some (ack (txt "done") h written []))

module _ (sha : List ℕ → Text) where
  -- receiverChunkMatches, on the content of the file if there is one that can be read.
  abbrev pub chunk_matches : Option (List ℕ) → Header → Bool
  chunk_matches none h = false
  chunk_matches (some content) h =
      eq_ℤ (pos (length content)) h.part_size
      && (is_empty h.chunk_sha256 || equal_fold (sha content) h.chunk_sha256)

  abbrev pub check_hash : Option (List ℕ) → Arrival → Header → Result ReceiveError (List ℕ)
  check_hash none a h = err payload_lost
  check_hash (some content) a h =
      if not (is_empty h.chunk_sha256) && not (equal_fold (sha content) h.chunk_sha256)
      then err hash_mismatch
      else if a.temp_fails
      then err payload_lost
      else ok content

  -- receiveChunkToTemp; the temporary file is removed on every error.
  unfoldable pub receive_chunk : Arrival → Header → Result ReceiveError (List ℕ)
  unfolding copy_n
  receive_chunk a h = check_hash (copy_n (pos_part h.part_size) a.payload) a h

  -- publishReceiverChunk, of a session that there is.
  unfoldable pub publish_chunk : Arrival → Header → List ℕ → Place → Place × Bool
  unfolding find_part put_part remove_part update_manifest_file
  publish_chunk a h content p =
      if chunk_matches (find_part a.name h.chunk_index p.parts) h
      then update_manifest_file a h (pos (length content)) p
      else if a.remove_fails
      then (p, false)
      else if a.rename_fails
      then (record p { parts = remove_part a.name h.chunk_index p.parts }, false)
      else update_manifest_file a h (pos (length content)) (record p {
        parts =
            put_part (record { name = a.name; index = h.chunk_index; content = content }) p.parts;
      })

  abbrev pub store_chunk :
      Result ReceiveError (List ℕ) → Arrival → Header → Place → Place × Option ChunkAck
  store_chunk (err hash_mismatch) a h p =
      (p, some (ack (txt "hash_mismatch") h (pos 0) (txt "chunk integrity check failed")))
  store_chunk (err payload_lost) a h p = (p, none)
  store_chunk (ok content) a h p =
      acknowledge h (pos (length content)) (not a.ack_fails) (publish_chunk a h content p)

  -- handleConn from ensureReceiverSession on, with the acknowledgement that it writes.
  unfoldable pub handle_chunk : Arrival → Header → Place → Place × Option ChunkAck
  unfolding find_part update_manifest_file receive_chunk publish_chunk
  handle_chunk a h p =
      let p = ensure_session a h p in
      if chunk_matches (find_part a.name h.chunk_index p.parts) h
      then acknowledge h h.part_size true (update_manifest_file a h h.part_size p)
      else store_chunk (receive_chunk a h) a h p

  module _ (mac : List ℕ → Text → List ℕ) (describe : HeaderError → Text) where
    abbrev pub handle_by :
        Option HeaderError → List ℕ → Arrival → Header → Place → Place × Option ChunkAck
    handle_by (some e) secret a h p = (p, some (ack (txt "failed") h (pos 0) (describe e)))
    handle_by none secret a h p =
        if not (verify_header mac h secret)
        then (p, some (ack (txt "unauthorized") h (pos 0) (txt "authentication required")))
        else if not a.accepts_paths
        then (p, none)
        else handle_chunk a h p

    -- handleConn, on the header that ReadHeader gave.
    unfoldable pub handle_conn :
        (secret : List ℕ) → Arrival → Header → Place → Place × Option ChunkAck
    unfolding verify_header validate_header handle_chunk
    handle_conn secret a h p = handle_by (validate_header h) secret a h p
