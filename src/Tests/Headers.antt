-- ===== src/Tests/Headers.antt =====
-- A chunk header, signed with a MAC that is no MAC, framed as itself.
use multi_send.Proto.Frame.RoundTrip.{read_header-write_header, read_frame_inv}
use multi_send.Proto.Frame.{Codec, write_header, read_header, with_type, read_frame, big_endian}
use multi_send.Base.{
  ℕ, zero, suc, ◌+◌, ◌%◌, ◌≤◌, ◌<◌, ◌≡◌, ◌≢◌, ◌↔◌, ◌⊎◌, refl, Bool, true, false, List, [], ◌∷◌,
  ◌++◌, Option, none, some, Result, ok, err, length, All, arith,
}
use multi_send.Base.Int.{pos}
use multi_send.Base.Text.{Text, txt, hex_encode}
use multi_send.Base.Decimal.{format_int}
use multi_send.Base.Joined.{HasNoNul}
use multi_send.Proto.{Header, ChunkAck, validate_header}
use multi_send.Proto.Validation.{validate_header_iff, IsValidHeader}
use multi_send.Proto.Auth.{auth_payload, sign_header, verify_header}
use multi_send.Proto.Auth.Payload.{IsPlain, auth_payload-injective}
use multi_send.Proto.Auth.Signing.{
  verify_header-sign_header, verify_header_unique, verify_header_shift,
}

abbrev header : Header
header = record {
  message_type = [];
  transfer_id = txt "t-1";
  file_name = txt "a.bin";
  part_index = pos 2;
  total_parts = pos 3;
  part_size = pos 100;
  chunk_index = pos 1;
  offset = pos 100;
  total_bytes = pos 250;
  lab = false;
  lab_path = [];
  receive_rel_path = [];
  publish_name = [];
  folder_result = [];
  chunk_sha256 = [];
  auth = [];
}

abbrev ack : ChunkAck
ack = record {
  type = [];
  transfer_id = txt "t-1";
  chunk_index = pos 1;
  status = txt "ok";
  bytes_received = pos 100;
  error = [];
}

abbrev sum_bytes : Text → ℕ
sum_bytes [] = 7
sum_bytes (c ∷ s) = (c + sum_bytes s) % 256

abbrev pub checksum : List ℕ → Text → List ℕ
checksum key message = sum_bytes message ∷ []

validate_header_iff_example : (validate_header header ≡ none) ↔ IsValidHeader header
validate_header_iff_example = validate_header_iff header (omega arith)

pub sum_bytes_lt : (s : Text) → sum_bytes s < 256
sum_bytes_lt [] = omega arith
sum_bytes_lt (c ∷ s) = omega arith

verify_header-sign_header_example :
    verify_header checksum (sign_header checksum header (1 ∷ [])) (1 ∷ []) ≡ true
verify_header-sign_header_example =
    verify_header-sign_header checksum header (1 ∷ []) (λ k m. (sum_bytes_lt m, tt)) (λ k m e. cc)

verify_header_shift_example :
    verify_header checksum
      (record header { lab_path = txt "a" ++ 0 ∷ txt "b"; receive_rel_path = txt "c" })
      (1 ∷ [])
    ≡ verify_header checksum
        (record header { lab_path = txt "a"; receive_rel_path = txt "b" ++ 0 ∷ txt "c" })
        (1 ∷ [])
verify_header_shift_example =
    verify_header_shift checksum header (1 ∷ []) (txt "a") (txt "b") (txt "c")

header-IsPlain : IsPlain header
header-IsPlain = record {
  message_type = tt;
  transfer_id = omega arith;
  file_name = omega arith;
  lab_path = tt;
  receive_rel_path = tt;
  publish_name = tt;
  folder_result = tt;
  chunk_sha256 = tt;
}

auth_payload-injective_example : record header { auth = [] } ≡ record header { auth = [] }
auth_payload-injective_example =
    auth_payload-injective header header header-IsPlain header-IsPlain refl

sign_header-IsPlain : (h : Header) → IsPlain h → IsPlain (sign_header checksum h (1 ∷ []))
unfolding sign_header
sign_header-IsPlain h p = record {
  message_type = p.message_type;
  transfer_id = p.transfer_id;
  file_name = p.file_name;
  lab_path = p.lab_path;
  receive_rel_path = p.receive_rel_path;
  publish_name = p.publish_name;
  folder_result = p.folder_result;
  chunk_sha256 = p.chunk_sha256;
}

-- The same bytes in another order have the same checksum.
abbrev turned : Header
turned = record header { transfer_id = txt "1-t" }

turned-IsPlain : IsPlain turned
turned-IsPlain = record {
  message_type = tt;
  transfer_id = omega arith;
  file_name = omega arith;
  lab_path = tt;
  receive_rel_path = tt;
  publish_name = tt;
  folder_result = tt;
  chunk_sha256 = tt;
}

signs : (h : Header) → verify_header checksum (sign_header checksum h (1 ∷ [])) (1 ∷ []) ≡ true
signs h = verify_header-sign_header checksum h (1 ∷ []) (λ k m. (sum_bytes_lt m, tt)) (λ k m e. cc)

verify_header_unique_example :
    (sign_header checksum header (1 ∷ []) ≡ sign_header checksum turned (1 ∷ []))
    ⊎ ((x : Text) × (y : Text) × (x ≢ y) × (checksum (1 ∷ []) x ≡ checksum (1 ∷ []) y))
unfolding sign_header auth_payload multi_send.Base.Joined.join_nul format_int hex_encode
verify_header_unique_example =
    verify_header_unique checksum (sign_header checksum header (1 ∷ []))
      (sign_header checksum turned (1 ∷ [])) (1 ∷ []) (λ e. cc)
      (sign_header-IsPlain header header-IsPlain) (sign_header-IsPlain turned turned-IsPlain)
      (signs header) (signs turned) refl

abbrev json : {A : Type 0} → A → Codec A
json a = record { marshal = λ _. some (txt "{}"); unmarshal = λ _. some a }

abbrev frame : Text
frame = big_endian 2 ++ txt "{}"

read_header-write_header_example :
    read_header (json (with_type header)) (frame ++ 9 ∷ []) ≡ ok (with_type header, 9 ∷ [])
unfolding write_header
read_header-write_header_example =
    read_header-write_header (json (with_type header)) header frame (9 ∷ []) (λ b e. (refl, cc))
      refl

read_frame_inv_example :
    (taken : Text) × (frame ++ 9 ∷ [] ≡ taken ++ 9 ∷ [])
    × (5 ≤ length taken)
    × (length taken ≤ 65540)
unfolding read_frame multi_send.Proto.Frame.read_length multi_send.Proto.Frame.read_full
read_frame_inv_example = read_frame_inv (json header) (frame ++ 9 ∷ []) (9 ∷ []) header refl
