-- ===== src/Receiver.antt =====
-- cmd/multisend-agent/receiver.go: the chunks that arrive in the directory of one session. Which
-- directory, file name and target a header leads to (handleConn's checks of paths, and
-- receiverTargetInfo) is an input; so are the errors of the file system. `sha` gives the hexadecimal
-- SHA-256 of a content.
pub mod Recorded
pub mod Chunks
pub mod Connections
pub mod Finalize
pub mod Acked
pub mod Published
pub mod Honest
pub mod Delivery
pub mod Kept
pub mod Interleaved
pub mod EndToEnd
pub mod Merged
pub mod Whole
use multi_send.Base.{
  ℕ, zero, suc, ◌++◌, Bool, true, false, ◌&&◌, ◌||◌, not, List, [], ◌∷◌, Option, none, some, length,
  ltb, if◌then◌else◌, Result, ok, err,
}
use multi_send.Base.Int.{ℤ, pos, pos_part, eq_ℤ}
use multi_send.Base.Text.{Text, txt, same_text, is_empty, equal_fold}
use multi_send.Proto.{Header}
use multi_send.Manifest.{
  Manifest, TargetInfo, ChunkState, Status, is_done, is_failed, get_chunk, mark_done,
}

-- A file `<name>.chunk<index + 1>` of the directory.
pub record Part : Type 0 where
  pub name : Text
  pub index : ℤ
  pub content : List ℕ

abbrev pub is_part : Text → ℤ → Part → Bool
is_part name index p = same_text p.name name && eq_ℤ p.index index

unfoldable pub find_part : Text → ℤ → List Part → Option (List ℕ)
find_part name index [] = none
find_part name index (p ∷ ps) =
    let later = find_part name index ps in if is_part name index p then some p.content else later

-- os.Rename onto the file.
unfoldable pub put_part : Part → List Part → List Part
put_part new [] = new ∷ []
put_part new (p ∷ ps) =
    let later = put_part new ps in if is_part new.name new.index p then new ∷ ps else p ∷ later

-- os.Remove of the file, if it is there.
unfoldable pub remove_part : Text → ℤ → List Part → List Part
remove_part name index [] = []
remove_part name index (p ∷ ps) =
    let rest = remove_part name index ps in if is_part name index p then rest else p ∷ rest

pub data MergeStatus : Type 0 where
  merge_unset merge_pending merge_running merge_done merge_failed : MergeStatus

pub data MergeError : Type 0 where
  no_manifest invalid_total chunks_not_done chunks_failed outside_root stale_final merge_broken
        publish_broken final_size extract_broken cleanup_broken :
      MergeError

pub data MergeMessage : Type 0 where
  no_message already_finalized merged_and_cleaned : MergeMessage
  problem : (e : MergeError) → MergeMessage

pub record Session : Type 0 where
  pub transfer_id : Text
  pub file_name : Text
  pub status : Text
  pub chunks_total : ℤ
  pub chunks_done : ℤ
  pub chunks_failed : ℤ
  pub merge_status : MergeStatus
  pub merge_message : MergeMessage

-- The directory, the file that it is merged to, and the session that the agent keeps of it.
pub record Place : Type 0 where
  pub manifest : Option Manifest
  pub parts : List Part
  pub final : Option (List ℕ)
  pub session : Option Session
  pub is_scheduled : Bool

abbrev pub new_session : Session
new_session = record {
  transfer_id = [];
  file_name = [];
  status = [];
  chunks_total = pos 0;
  chunks_done = pos 0;
  chunks_failed = pos 0;
  merge_status = merge_pending;
  merge_message = no_message;
}

-- updateReceiverSession
abbrev pub update_session : (Session → Session) → Option Session → Option Session
update_session f none = some (f new_session)
update_session f (some s) = some (f s)

-- countManifestChunksByStatus
unfoldable pub count_chunks : (Status → Bool) → List ChunkState → ℕ
count_chunks p [] = 0
count_chunks p (c ∷ cs) = let n = count_chunks p cs in if p c.status then suc n else n

abbrev pub with_counts : Manifest → Session → Session
with_counts m s = record s {
  chunks_total = pos (length m.chunks);
  chunks_done = pos (count_chunks is_done m.chunks);
  chunks_failed = pos (count_chunks is_failed m.chunks);
}
