-- ===== src/Proto.antt =====
-- internal/proto/proto.go: the chunk header, its checks, its signature and its frame on the wire.
pub mod Auth
pub mod Frame
pub mod Validation
use multi_send.Base.{
  ℕ, ◌+◌, Bool, true, false, ◌&&◌, ◌||◌, not, List, [], ◌∷◌, Option, none, some, length, ltb, leb,
  ◌==◌, if◌then◌else◌, Result, ok, err,
}
use multi_send.Base.Int.{ℤ, pos, lt_ℤ, le_ℤ, eq_ℤ, add64, sub64}
use multi_send.Base.Text.{Text, txt, same_text, is_empty, trim_space, every, is_alnum, hex_decode}

pub record Header : Type 0 where
  pub message_type : Text
  pub transfer_id : Text
  pub file_name : Text
  pub part_index : ℤ
  pub total_parts : ℤ
  pub part_size : ℤ
  pub chunk_index : ℤ
  pub offset : ℤ
  pub total_bytes : ℤ
  pub lab : Bool
  pub lab_path : Text
  pub receive_rel_path : Text
  pub publish_name : Text
  pub folder_result : Text
  pub chunk_sha256 : Text
  pub auth : Text

pub record ChunkAck : Type 0 where
  pub type : Text
  pub transfer_id : Text
  pub chunk_index : ℤ
  pub status : Text
  pub bytes_received : ℤ
  pub error : Text

abbrev pub chunk_start : Text
chunk_start = txt "chunk_start"

-- The errors of ValidateHeader.
pub data HeaderError : Type 0 where
  invalid_message_type invalid_transfer_id invalid_file_name invalid_chunk_position : HeaderError
  invalid_chunk_bounds invalid_chunk_sha256 : HeaderError

-- The characters of a transfer id. (A rune beyond ASCII has only bytes that fail the test.)
abbrev pub is_id_char : ℕ → Bool
is_id_char c = is_alnum c || (c == 45 || c == 95)

unfoldable pub bad_message_type : Header → Bool
bad_message_type h = not (is_empty h.message_type) && not (same_text h.message_type chunk_start)

unfoldable pub bad_transfer_id : Header → Bool
bad_transfer_id h =
    length h.transfer_id == 0
    || (ltb 128 (length h.transfer_id) || not (every is_id_char h.transfer_id))

unfoldable pub bad_position : Header → Bool
bad_position h =
    lt_ℤ h.total_parts (pos 1)
    || (lt_ℤ (pos 1000000) h.total_parts
        || (lt_ℤ h.chunk_index (pos 0)
            || (le_ℤ h.total_parts h.chunk_index
                || not (eq_ℤ h.part_index (add64 h.chunk_index (pos 1))))))

unfoldable pub bad_bounds : Header → Bool
bad_bounds h =
    lt_ℤ h.total_bytes (pos 0)
    || (lt_ℤ h.offset (pos 0)
        || (lt_ℤ h.part_size (pos 0)
            || (lt_ℤ h.total_bytes h.part_size || lt_ℤ (sub64 h.total_bytes h.part_size) h.offset)))

abbrev pub is_none : Option (List ℕ) → Bool
is_none none = true
is_none (some b) = false

unfoldable pub bad_sha256 : Header → Bool
bad_sha256 h =
    not (is_empty h.chunk_sha256)
    && (not (length h.chunk_sha256 == 64) || is_none (hex_decode h.chunk_sha256))

-- ValidateHeader; `none` is the nil error.
unfoldable pub validate_header : Header → Option HeaderError
validate_header h =
    if bad_message_type h
    then some invalid_message_type
    else if bad_transfer_id h
    then some invalid_transfer_id
    else if is_empty (trim_space h.file_name)
    then some invalid_file_name
    else if bad_position h
    then some invalid_chunk_position
    else if bad_bounds h
    then some invalid_chunk_bounds
    else if bad_sha256 h
    then some invalid_chunk_sha256
    else none
