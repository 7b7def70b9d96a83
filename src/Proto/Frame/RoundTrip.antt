-- ===== src/Proto/Frame/RoundTrip.antt =====
-- A frame that was written is read back, and no frame makes the reader take more than its limit.
use mathlib.Core.List.{append_assoc}
use multi_send.Base.{
  length-append, ℕ, zero, suc, ◌%◌, ◌≤◌, ◌<◌, ◌≡◌, ◌≢◌, refl, sym, ap, ◌∙◌, false, ◌||◌, [], ◌∷◌,
  ◌++◌, some, Result, ok, err, length, ltb, ◌==◌, arith, if◌then◌else◌, ◌>>=◌, Bool-cases,
  Option-cases, inl, inr,
}
use multi_send.Base.Text.{Text, is_empty}
use multi_send.Proto.{Header, chunk_start}
use multi_send.Proto.Frame.{
  Codec, FrameError, big_endian, read_full, read_length, write_frame, read_frame, decode_body,
  read_body, with_type, write_header, read_header,
}

read_full-append : (b rest : Text) → read_full (length b) (b ++ rest) ≡ ok (b, rest)
unfolding read_full
read_full-append [] rest = refl
read_full-append (c ∷ b) rest = rw (read_full-append b rest)

read_length-big_endian :
    (n : ℕ) (rest : Text) → n < 4294967296 → read_length (big_endian n ++ rest) ≡ ok (n, rest)
unfolding read_length
read_length-big_endian n rest h = ap (λ m. ok (m, rest)) (omega arith)

read_full_inv :
    (n : ℕ) (input bytes rest : Text)
    → read_full n input ≡ ok (bytes, rest)
    → (input ≡ bytes ++ rest) × (length bytes ≡ n)
unfolding read_full
read_full_inv zero input bytes rest e = ground arith
read_full_inv (suc n) [] bytes rest e = cc
read_full_inv (suc n) (c ∷ input) bytes rest e =
    by_rest (read_full n input) (read_full_inv n input) refl e
  where
    by_rest :
        (r : Result FrameError (Text × Text))
        → ((b i : Text) → read_full n input ≡ ok (b, i) → (input ≡ b ++ i) × (length b ≡ n))
        → read_full n input ≡ r
        → ◌≡◌ {A = Result FrameError (Text × Text)}
            (elim r [ err x ↦ err x | ok (b, i) ↦ ok (c ∷ b, i) ])
            (ok (bytes, rest))
        → (c ∷ input ≡ bytes ++ rest) × (length bytes ≡ suc n)
    by_rest (err x) ih q f = cc
    by_rest (ok (b, i)) ih q f =
        let (whole, size) = ih b i q in
        let front : bytes ≡ c ∷ b = cc in
        let back : rest ≡ i = cc in rw (front, back) (ap (λ t. c ∷ t) whole, ap suc size)

read_length_inv :
    (input rest : Text) (n : ℕ)
    → read_length input ≡ ok (n, rest)
    → (head : Text) × (input ≡ head ++ rest) × (length head ≡ 4)
unfolding read_length
read_length_inv [] rest n e = cc
read_length_inv (a ∷ []) rest n e = cc
read_length_inv (a ∷ b ∷ []) rest n e = cc
read_length_inv (a ∷ b ∷ c ∷ []) rest n e = cc
read_length_inv (a ∷ b ∷ c ∷ d ∷ input) rest n e = (a ∷ b ∷ c ∷ d ∷ [], cc, refl)

-- If both steps went well, so did the first.
>>=-ok_inv :
    {A B : Type 0} (m : Result FrameError A) (f : A → Result FrameError B) {b : B}
    → (m >>= f) ≡ ok b
    → (a : A) × (m ≡ ok a) × (f a ≡ ok b)
>>=-ok_inv (ok a) f h = (a, refl, h)
>>=-ok_inv (err x) f h = cc

module _ {A : Type 0} (codec : Codec A) where
  write_frame_inv :
      (v : A) (frame : Text)
      → write_frame codec v ≡ ok frame
      → (b : Text) × (codec.marshal v ≡ some b)
        × (length b ≤ 65536)
        × (frame ≡ big_endian (length b) ++ b)
  unfolding write_frame
  write_frame_inv v frame e = elim (Option-cases (codec.marshal v)) [
    | inl q ↦ let f = rw (q, write_frame) at e in absurd (cc)
    | inr (b, q) ↦ elim (Bool-cases (ltb 65536 (length b))) [
      | inl large ↦ let f = rw (q, large, write_frame) at e in absurd (cc)
      | inr small ↦
          let f = rw (q, small, write_frame) at e in
          let fits : length b % 4294967296 ≡ length b = ground arith in
          (b, q, ground arith, sym (rw fits at (f_frame b f)))
    ]
  ]
    where
      f_frame :
          (b : Text)
          → ◌≡◌ {A = Result FrameError Text}
              (ok (big_endian (length b % 4294967296) ++ b))
              (ok frame)
          → big_endian (length b % 4294967296) ++ b ≡ frame
      f_frame b f = cc

  read_body_found :
      (v : A) (b rest : Text)
      → b ≢ []
      → length b ≤ 65536
      → codec.unmarshal b ≡ some v
      → read_body codec (length b, b ++ rest) ≡ ok (v, rest)
  read_body_found v [] rest ne small e = absurd (ne refl)
  read_body_found v (c ∷ b) rest ne small e =
      let proper : (length (c ∷ b) == 0 || ltb 65536 (length (c ∷ b))) ≡ false = ground arith in
      rw proper (rw (read_full-append (c ∷ b) rest) (rw (e, decode_body)))

  -- The reader takes back the value, where JSON does and gives at least one byte, and leaves what
  -- follows the frame.
  read_frame-write_frame :
      (v : A) (frame rest : Text)
      → ((b : Text) → codec.marshal v ≡ some b → (codec.unmarshal b ≡ some v) × (b ≢ []))
      → write_frame codec v ≡ ok frame
      → read_frame codec (frame ++ rest) ≡ ok (v, rest)
  unfolding read_frame
  read_frame-write_frame v frame rest inverse written =
      let (b, marshaled, small, shape) = write_frame_inv v frame written in
      let (back, ne) = inverse b marshaled in
      let joined : frame ++ rest ≡ big_endian (length b) ++ (b ++ rest) =
        ap (λ t. t ++ rest) shape in
      rw (joined, read_length-big_endian (length b) (b ++ rest) (omega arith))
        (read_body_found v b rest ne small back)

  read_body_inv :
      (n : ℕ) (input rest : Text) (v : A)
      → read_body codec (n, input) ≡ ok (v, rest)
      → (body : Text) × (input ≡ body ++ rest) × (1 ≤ length body) × (length body ≤ 65536)
  read_body_inv n input rest v e = elim (Bool-cases (n == 0 || ltb 65536 n)) [
    | inl bad ↦ let f = rw bad at e in absurd (cc)
    | inr good ↦
        let f = rw good at e in
        let (a, q, g) = >>=-ok_inv (read_full n input) (decode_body codec) f in
        let (whole, size) = read_full_inv n input a.0 a.1 q in
        let left : a.1 ≡ rest = decode_body_rest a.0 a.1 rest v g in
        (a.0, whole ∙ ap (λ t. a.0 ++ t) left, ground arith, ground arith)
  ]
    where
      decode_body_rest : (b i r : Text) (w : A) → decode_body codec (b, i) ≡ ok (w, r) → i ≡ r
      decode_body_rest b i r w h = elim (Option-cases (codec.unmarshal b)) [
        | inl x ↦ let k = rw (x, decode_body) at h in absurd (cc)
        | inr (y, x) ↦ let k = rw (x, decode_body) at h in cc
      ]

  -- Whatever bytes arrive, a frame that readFrame accepts is four bytes of length and from 1 to 65536
  -- bytes more, at the front of the input; what follows it is left.
  pub read_frame_inv :
      (input rest : Text) (v : A)
      → read_frame codec input ≡ ok (v, rest)
      → (frame : Text) × (input ≡ frame ++ rest) × (5 ≤ length frame) × (length frame ≤ 65540)
  unfolding read_frame
  read_frame_inv input rest v e =
      let (a, q, f) = >>=-ok_inv (read_length input) (read_body codec) e in
      let (head, whole, four) = read_length_inv input a.1 a.0 q in
      let (body, inner, some_bytes, few) = read_body_inv a.0 a.1 rest v f in
      (
        head ++ body,
        whole ∙ ap (λ t. head ++ t) inner ∙ sym (append_assoc head body rest),
        omega (arith, length-append head body),
        omega (arith, length-append head body),
      )

-- Filling in a default that is not empty, twice, is filling it in once.
fill_twice :
    (default s : Text)
    → is_empty default ≡ false
    → (if is_empty (if is_empty s then default else s)
        then default
        else if is_empty s
        then default
        else s)
      ≡ (if is_empty s then default else s)
fill_twice default [] e = rw e refl
fill_twice default (c ∷ s) e = refl

with_type_twice : (h : Header) → with_type (with_type h) ≡ with_type h
with_type_twice h =
    ap (λ m. record h { message_type = m }) (fill_twice chunk_start h.message_type refl)

-- A header that WriteHeader accepts is read back by ReadHeader as it is, its type filled in where it
-- was empty, and the bytes after the frame are left, if JSON decodes what it encoded the header to,
-- in at least one byte.
pub read_header-write_header :
    (codec : Codec Header) (h : Header) (frame rest : Text)
    → ((b : Text)
        → codec.marshal (with_type h) ≡ some b
        → (codec.unmarshal b ≡ some (with_type h)) × (b ≢ []))
    → write_header codec h ≡ ok frame
    → read_header codec (frame ++ rest) ≡ ok (with_type h, rest)
unfolding read_header write_header
read_header-write_header codec h frame rest inverse written =
    rw (read_header, read_frame-write_frame codec (with_type h) frame rest inverse written)
      (ap (λ k. ok (k, rest)) (with_type_twice h))
