-- ===== src/Proto/Validation.antt =====
-- Exactly which headers ValidateHeader accepts.
use multi_send.Base.{
  ℕ, ◌+◌, ◌≤◌, ◌<◌, ◌≡◌, ◌≢◌, ◌⊎◌, ◌↔◌, inl, inr, refl, true, false, List, [], ◌∷◌, none, some,
  length, arith, Bool-cases, Option-cases,
}
use multi_send.Base.Int.{pos, pos_part, ◌≤ℤ◌, ◌<ℤ◌, add64, sub64, wrap64}
use multi_send.Base.Text.{Text, same_text_iff, is_empty, trim_space, every, hex_decode}
use multi_send.Proto.{
  Header, chunk_start, is_id_char, bad_message_type, bad_transfer_id, bad_position, bad_bounds,
  bad_sha256, validate_header,
}

-- What a receiver may rely on. The arithmetic is that of the integers, with no wrap-around.
pub record IsValidHeader (h : Header) : Type 0 where
  pub typed : (h.message_type ≡ []) ⊎ (h.message_type ≡ chunk_start)
  pub id_nonempty : 0 < length h.transfer_id
  pub id_short : length h.transfer_id ≤ 128
  pub id_chars : every is_id_char h.transfer_id ≡ true
  pub named : trim_space h.file_name ≢ []
  pub parts_pos : pos 1 ≤ℤ h.total_parts
  pub parts_few : h.total_parts ≤ℤ pos 1000000
  pub index_nonneg : pos 0 ≤ℤ h.chunk_index
  pub index_below : h.chunk_index <ℤ h.total_parts
  pub part_is_next : pos_part h.part_index ≡ pos_part h.chunk_index + 1
  pub offset_nonneg : pos 0 ≤ℤ h.offset
  pub size_nonneg : pos 0 ≤ℤ h.part_size
  pub total_nonneg : pos 0 ≤ℤ h.total_bytes
  pub inside : pos_part h.offset + pos_part h.part_size ≤ pos_part h.total_bytes
  pub hash_sound :
      (h.chunk_sha256 ≡ [])
      ⊎ (length h.chunk_sha256 ≡ 64) × ((bytes : List ℕ) × (hex_decode h.chunk_sha256 ≡ some bytes))

position_iff :
    (h : Header)
    → (bad_position h ≡ false)
      ↔ (pos 1 ≤ℤ h.total_parts)
        × (h.total_parts ≤ℤ pos 1000000)
        × (pos 0 ≤ℤ h.chunk_index)
        × (h.chunk_index <ℤ h.total_parts)
        × (pos_part h.part_index ≡ pos_part h.chunk_index + 1)
unfolding bad_position add64 wrap64
position_iff h = (λ p. ground arith, λ p. ground arith)

bounds_iff :
    (h : Header)
    → pos_part h.total_bytes < 9223372036854775808
    → (bad_bounds h ≡ false)
      ↔ (pos 0 ≤ℤ h.total_bytes)
        × (pos 0 ≤ℤ h.offset)
        × (pos 0 ≤ℤ h.part_size)
        × (pos_part h.offset + pos_part h.part_size ≤ pos_part h.total_bytes)
unfolding bad_bounds sub64 wrap64
bounds_iff h r = (λ p. ground arith, λ p. ground arith)

is_empty_iff : (t : Text) → (is_empty t ≡ true) ↔ (t ≡ [])
is_empty_iff [] = (λ e. refl, λ e. refl)
is_empty_iff (c ∷ t) = (λ e. cc, λ e. cc)

type_iff :
    (h : Header)
    → (bad_message_type h ≡ false) ↔ (h.message_type ≡ []) ⊎ (h.message_type ≡ chunk_start)
unfolding bad_message_type
type_iff h = (
  λ p. ground (arith, is_empty_iff h.message_type, same_text_iff h.message_type chunk_start),
  λ p. ground (arith, is_empty_iff h.message_type, same_text_iff h.message_type chunk_start),
)

id_iff :
    (h : Header)
    → (bad_transfer_id h ≡ false)
      ↔ (0 < length h.transfer_id)
        × (length h.transfer_id ≤ 128)
        × (every is_id_char h.transfer_id ≡ true)
unfolding bad_transfer_id
id_iff h = (λ p. ground arith, λ p. ground arith)

sha_iff :
    (h : Header)
    → (bad_sha256 h ≡ false)
      ↔ (h.chunk_sha256 ≡ [])
        ⊎ (length h.chunk_sha256 ≡ 64)
          × ((bytes : List ℕ) × (hex_decode h.chunk_sha256 ≡ some bytes))
unfolding bad_sha256
sha_iff h = elim (Option-cases (hex_decode h.chunk_sha256)) [
  | inl e ↦ (
    λ p. ground (arith, is_empty_iff h.chunk_sha256),
    λ p. ground (arith, is_empty_iff h.chunk_sha256),
  )
  | inr (b, e) ↦ (
    λ p. elim (Bool-cases (is_empty h.chunk_sha256)) [
      | inl y ↦ inl ((is_empty_iff h.chunk_sha256).0 y)
      | inr n ↦ inr (ground arith, (b, e))
    ],
    λ p. ground (arith, is_empty_iff h.chunk_sha256),
  )
]

-- The guards, all passed.
pub guards_iff :
    (h : Header)
    → (validate_header h ≡ none)
      ↔ (bad_message_type h ≡ false)
        × (bad_transfer_id h ≡ false)
        × (is_empty (trim_space h.file_name) ≡ false)
        × (bad_position h ≡ false)
        × (bad_bounds h ≡ false)
        × (bad_sha256 h ≡ false)
unfolding validate_header
guards_iff h = (λ p. ground arith, λ p. ground arith)

-- ValidateHeader accepts a header with an int64 total exactly if it is one of the valid ones: a
-- chunk start with a short transfer id of letters, digits, dash and underscore, a named file, a
-- position among at most a million chunks, bytes inside the file, and a hash that is 64 hex digits
-- or absent.
pub validate_header_iff :
    (h : Header)
    → pos_part h.total_bytes < 9223372036854775808
    → (validate_header h ≡ none) ↔ IsValidHeader h
validate_header_iff h r = (
  λ p.
      let (a, b, c, d, e, f) = (guards_iff h).0 p in
      let (b0, b1, b2) = (id_iff h).0 b in
      let (d0, d1, d2, d3, d4) = (position_iff h).0 d in
      let (e0, e1, e2, e3) = (bounds_iff h r).0 e in
      record {
        typed = (type_iff h).0 a;
        id_nonempty = b0;
        id_short = b1;
        id_chars = b2;
        named = not_empty (trim_space h.file_name) c;
        parts_pos = d0;
        parts_few = d1;
        index_nonneg = d2;
        index_below = d3;
        part_is_next = d4;
        offset_nonneg = e1;
        size_nonneg = e2;
        total_nonneg = e0;
        inside = e3;
        hash_sound = (sha_iff h).0 f;
      },
  λ v. (guards_iff h).1 (
    (type_iff h).1 v.typed,
    (id_iff h).1 (v.id_nonempty, v.id_short, v.id_chars),
    empty_not (trim_space h.file_name) v.named,
    (position_iff h).1 (v.parts_pos, v.parts_few, v.index_nonneg, v.index_below, v.part_is_next),
    (bounds_iff h r).1 (v.total_nonneg, v.offset_nonneg, v.size_nonneg, v.inside),
    (sha_iff h).1 v.hash_sound,
  ),
)
  where
    not_empty : (t : Text) → is_empty t ≡ false → t ≢ []
    not_empty [] e = λ q. cc
    not_empty (c ∷ t) e = λ q. cc

    empty_not : (t : Text) → t ≢ [] → is_empty t ≡ false
    empty_not [] e = absurd (e refl)
    empty_not (c ∷ t) e = refl
