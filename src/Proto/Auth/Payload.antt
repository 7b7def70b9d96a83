-- ===== src/Proto/Auth/Payload.antt =====
-- What the signed bytes determine of a header.
use multi_send.Base.{◌≡◌, refl, Bool, true, false, [], ◌∷◌, arith, All}
use multi_send.Base.Int.{ℤ}
use multi_send.Base.Text.{Text}
use multi_send.Base.Decimal.{format_int, format_int-IsNumeral, format_int-injective, IsNumeral}
use multi_send.Base.Joined.{HasNoNul, join_nul-injective}
use multi_send.Proto.{Header}
use multi_send.Proto.Auth.{auth_parts, auth_payload, format_bool}

-- The texts of the header have no NUL byte.
pub record IsPlain (h : Header) : Type 0 where
  pub message_type : HasNoNul h.message_type
  pub transfer_id : HasNoNul h.transfer_id
  pub file_name : HasNoNul h.file_name
  pub lab_path : HasNoNul h.lab_path
  pub receive_rel_path : HasNoNul h.receive_rel_path
  pub publish_name : HasNoNul h.publish_name
  pub folder_result : HasNoNul h.folder_result
  pub chunk_sha256 : HasNoNul h.chunk_sha256

numeral-HasNoNul : (s : Text) → All IsNumeral s → HasNoNul s
numeral-HasNoNul [] h = tt
numeral-HasNoNul (c ∷ s) (p, h) = (omega arith, numeral-HasNoNul s h)

format_bool-HasNoNul : (b : Bool) → HasNoNul (format_bool b)
format_bool-HasNoNul true = omega arith
format_bool-HasNoNul false = omega arith

format_bool-injective : (a b : Bool) → format_bool a ≡ format_bool b → a ≡ b
format_bool-injective true true e = refl
format_bool-injective false false e = refl
format_bool-injective true false e = cc
format_bool-injective false true e = cc

auth_parts-HasNoNul : (h : Header) → IsPlain h → All HasNoNul (auth_parts h)
auth_parts-HasNoNul h p =
    let number = λ (z : ℤ). numeral-HasNoNul (format_int z) (format_int-IsNumeral z) in
    let texts : All HasNoNul
        (h.lab_path ∷ h.receive_rel_path ∷ h.publish_name ∷ h.folder_result ∷ h.chunk_sha256 ∷ []) =
      (
        p.lab_path,
        (p.receive_rel_path, (p.publish_name, (p.folder_result, (p.chunk_sha256, tt)))),
      ) in
    let sizes : All HasNoNul (
        format_int h.part_size
        ∷ format_int h.chunk_index
        ∷ format_int h.offset
        ∷ format_int h.total_bytes
        ∷ format_bool h.lab
        ∷ h.lab_path
        ∷ h.receive_rel_path
        ∷ h.publish_name
        ∷ h.folder_result
        ∷ h.chunk_sha256
        ∷ []) =
      (
        number h.part_size,
        (
          number h.chunk_index,
          (number h.offset, (number h.total_bytes, (format_bool-HasNoNul h.lab, texts))),
        ),
      ) in
    let names : All HasNoNul (
        h.message_type
        ∷ h.transfer_id
        ∷ h.file_name
        ∷ format_int h.part_index
        ∷ format_int h.total_parts
        ∷ format_int h.part_size
        ∷ format_int h.chunk_index
        ∷ format_int h.offset
        ∷ format_int h.total_bytes
        ∷ format_bool h.lab
        ∷ h.lab_path
        ∷ h.receive_rel_path
        ∷ h.publish_name
        ∷ h.folder_result
        ∷ h.chunk_sha256
        ∷ []) =
      (
        p.message_type,
        (p.transfer_id, (p.file_name, (number h.part_index, (number h.total_parts, sizes)))),
      ) in
    (omega arith, names)

auth_parts-injective :
    (g h : Header) → auth_parts g ≡ auth_parts h → record g { auth = [] } ≡ record h { auth = [] }
auth_parts-injective g h e = cc (
  format_int-injective g.part_index h.part_index (cc),
  format_int-injective g.total_parts h.total_parts (cc),
  format_int-injective g.part_size h.part_size (cc),
  format_int-injective g.chunk_index h.chunk_index (cc),
  format_int-injective g.offset h.offset (cc),
  format_int-injective g.total_bytes h.total_bytes (cc),
  format_bool-injective g.lab h.lab (cc),
)

-- Two headers without NUL bytes that are signed as the same bytes are the same but for the
-- signature.
pub auth_payload-injective :
    (g h : Header)
    → IsPlain g
    → IsPlain h
    → auth_payload g ≡ auth_payload h
    → record g { auth = [] } ≡ record h { auth = [] }
unfolding auth_payload
auth_payload-injective g h p q e = auth_parts-injective g h (
    join_nul-injective (auth_parts g) (auth_parts h) (auth_parts-HasNoNul g p)
      (auth_parts-HasNoNul h q) refl e)
