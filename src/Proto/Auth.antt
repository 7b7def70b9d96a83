-- ===== src/Proto/Auth.antt =====
-- The signature of a chunk header. HMAC-SHA256 is the parameter `mac`, of the key and the message.
pub mod Signing
pub mod Payload
use multi_send.Base.{ℕ, Bool, true, false, ◌&&◌, List, [], ◌∷◌, Option, none, some, if◌then◌else◌}
use multi_send.Base.Text.{Text, txt, same_text, is_empty, hex_encode, hex_decode}
use multi_send.Base.Decimal.{format_int}
use multi_send.Base.Joined.{join_nul}
use multi_send.Proto.{Header}

abbrev pub format_bool : Bool → Text
format_bool true = txt "true"
format_bool false = txt "false"

-- What the format string puts between its NUL bytes.
abbrev pub auth_parts : Header → List Text
auth_parts h =
    txt "v1"
    ∷ h.message_type
    ∷ h.transfer_id
    ∷ h.file_name
    ∷ format_int h.part_index
    ∷ format_int h.total_parts
    ∷ format_int h.part_size
    ∷ format_int h.chunk_index
    ∷ format_int h.offset
    ∷ format_int h.total_bytes
    ∷ format_bool h.lab
    ∷ h.lab_path
    ∷ h.receive_rel_path
    ∷ h.publish_name
    ∷ h.folder_result
    ∷ h.chunk_sha256
    ∷ []

unfoldable pub auth_payload : Header → Text
auth_payload h = join_nul (auth_parts h)

module _ (mac : List ℕ → Text → List ℕ) where
  -- SignHeader of a header that is not nil.
  unfoldable pub sign_header : Header → List ℕ → Header
  sign_header h [] = h
  sign_header h (k ∷ secret) =
      let h' = record h { auth = [] } in
      record h' { auth = hex_encode (mac (k ∷ secret) (auth_payload h')) }

  abbrev pub check_mac : Header → List ℕ → Option (List ℕ) → Bool
  check_mac h secret none = false
  check_mac h secret (some []) = false
  check_mac h secret (some (b ∷ bytes)) =
      same_text (mac secret (auth_payload (record h { auth = [] }))) (b ∷ bytes)

  unfoldable pub verify_header : Header → List ℕ → Bool
  verify_header h [] = true
  verify_header h (k ∷ secret) = check_mac h (k ∷ secret) (hex_decode h.auth)
