-- ===== src/Base/Spaces.antt =====
-- TrimSpace leaves a text without spaces alone, such as one of hexadecimal digits.
use mathlib.Core.List.{List, reverse, reverse-reverse}
use multi_send.Base.{ap, ℕ, ◌+◌, ◌*◌, ◌/◌, ◌%◌, arith, some, ◌<◌, ◌≡◌, refl, false, [], ◌∷◌, All}
use multi_send.Base.Text.{
  hex_digit, hex_value, hex_decode, hex_encode, Text, is_space, trim_left, trim_space,
}
use multi_send.Base.Decimal.{All-reverse}

-- No byte is a space.
abbrev pub HasNoSpace : Text → Type 0
HasNoSpace = All (λ c. is_space c ≡ false)

trim_left_id : (s : Text) → HasNoSpace s → trim_left s ≡ s
unfolding trim_left
trim_left_id [] h = refl
trim_left_id (c ∷ s) (p, h) = rw p refl

pub trim_space_id : (s : Text) → HasNoSpace s → trim_space s ≡ s
unfolding trim_space
trim_space_id s h =
    rw (trim_left_id s h, trim_left_id (reverse s) (All-reverse (λ c. is_space c ≡ false) s h))
      (reverse-reverse s)

abbrev pub AreBytes : List ℕ → Type 0
AreBytes = All (λ b. b < 256)

hex_value-hex_digit : (n : ℕ) → n < 16 → hex_value (hex_digit n) ≡ some n
hex_value-hex_digit n h = ground arith

pub hex_decode-hex_encode : (bs : List ℕ) → AreBytes bs → hex_decode (hex_encode bs) ≡ some bs
unfolding hex_decode hex_encode
hex_decode-hex_encode [] h = refl
hex_decode-hex_encode (b ∷ bs) (p, h) =
    let whole : b / 16 * 16 + b % 16 ≡ b = omega arith in
    rw
      (
        hex_value-hex_digit (b / 16) (omega arith),
        hex_value-hex_digit (b % 16) (omega arith),
        hex_decode-hex_encode bs h,
      )
      (ap (λ x. some (x ∷ bs)) whole)

pub hex_encode-HasNoSpace : (bytes : List ℕ) → HasNoSpace (hex_encode bytes)
unfolding hex_encode
hex_encode-HasNoSpace [] = tt
hex_encode-HasNoSpace (b ∷ bs) = (ground arith, (ground arith, hex_encode-HasNoSpace bs))
