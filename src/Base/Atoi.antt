-- ===== src/Base/Atoi.antt =====
-- strconv.Atoi and strings.Split.
use mathlib.Core.List.{reverse, reverse-cons}
use multi_send.Base.{
  ℕ, zero, suc, ◌+◌, ◌-◌, ◌*◌, ◌/◌, ◌%◌, ◌<◌, ◌≡◌, ◌≢◌, refl, ap, ◌∙◌, false, [], ◌∷◌, ◌++◌, List,
  arith, All, ltb, ◌==◌, if◌then◌else◌, Option, none, some, inl, inr, Bool-cases, ltb→lt, lt→ltb,
}
use multi_send.Base.Int.{ℤ, pos, sub_ℕ}
use multi_send.Base.Text.{Text, is_digit}
use multi_send.Base.Decimal.{format_nat, digits_up, IsDigit, format_nat-IsDigit}

unfoldable pub parse_digits : ℕ → Text → Option ℕ
parse_digits value [] = some value
parse_digits value (c ∷ s) =
    let rest = parse_digits (value * 10 + (c - 48)) s in if is_digit c then rest else none

abbrev pub parse_unsigned : Text → Option ℕ
parse_unsigned [] = none
parse_unsigned (c ∷ s) = parse_digits 0 (c ∷ s)

-- A number from 0 on that fits, or its negative.
abbrev pub in_range : ℕ → (ℕ → ℤ) → Option ℕ → Option ℤ
in_range bound sign none = none
in_range bound sign (some n) = if ltb n bound then some (sign n) else none

-- strconv.Atoi; `none` is its error.
unfoldable pub atoi : Text → Option ℤ
unfolding parse_digits
atoi [] = none
atoi (c ∷ s) =
    if c == 43
    then in_range 9223372036854775808 pos (parse_unsigned s)
    else if c == 45
    then in_range 9223372036854775809 (sub_ℕ 0) (parse_unsigned s)
    else in_range 9223372036854775808 pos (parse_unsigned (c ∷ s))

abbrev pub cons_first : ℕ → List Text → List Text
cons_first c [] = (c ∷ []) ∷ []
cons_first c (t ∷ ts) = (c ∷ t) ∷ ts

-- strings.Split by one byte.
unfoldable pub split_on : ℕ → Text → List Text
split_on sep [] = [] ∷ []
split_on sep (c ∷ s) =
    let rest = split_on sep s in if c == sep then [] ∷ rest else cons_first c rest

-- A last digit is added to what was parsed.
abbrev then_digit : Option ℕ → ℕ → Option ℕ
then_digit none d = none
then_digit (some v) d = some (v * 10 + d)

parse_digits-snoc :
    (v d : ℕ) (s : Text)
    → d < 10
    → parse_digits v (s ++ (d + 48) ∷ []) ≡ then_digit (parse_digits v s) d
unfolding parse_digits
parse_digits-snoc v d [] h = ground arith
parse_digits-snoc v d (c ∷ s) h = ground (arith, parse_digits-snoc (v * 10 + (c - 48)) d s h)

parse_digits-digits_up :
    (rounds n : ℕ) → n < rounds → parse_digits 0 (reverse (digits_up rounds n)) ≡ some n
unfolding digits_up
parse_digits-digits_up zero n h = absurd (omega arith)
parse_digits-digits_up (suc rounds) n h = elim (Bool-cases (ltb n 10)) [
  | inl e ↦
      rw e
        (parse_digits-snoc 0 n [] (ltb→lt n 10 e) ∙ (unfold parse_digits in ap some (omega arith)))
  | inr e ↦
      let m : ℕ = n / 10 in
      rw
        (
          e,
          reverse-cons (n % 10 + 48) (digits_up rounds m),
          parse_digits-snoc 0 (n % 10) (reverse (digits_up rounds m)) (omega arith),
          parse_digits-digits_up rounds m (ground arith),
        )
        (ap some (omega arith))
]

atoi_digits :
    (s : Text) (n : ℕ)
    → All IsDigit s
    → s ≢ []
    → n < 9223372036854775808
    → parse_digits 0 s ≡ some n
    → atoi s ≡ some (pos n)
unfolding atoi
atoi_digits [] n d q h e = absurd (q refl)
atoi_digits (c ∷ s) n (p, d) q h e =
    let plus : (c == 43) ≡ false = ground arith in
    let minus : (c == 45) ≡ false = ground arith in
    rw (plus, minus, e, lt→ltb n 9223372036854775808 h) refl

snoc_nonempty : (s : Text) (d : ℕ) → s ++ d ∷ [] ≢ []
snoc_nonempty [] d = λ e. cc
snoc_nonempty (c ∷ s) d = λ e. cc

format_nat_nonempty : (n : ℕ) → format_nat n ≢ []
unfolding format_nat digits_up
format_nat_nonempty n = elim (Bool-cases (ltb n 10)) [
  | inl e ↦ rw (e, reverse-cons (n + 48) []) (snoc_nonempty [] (n + 48))
  | inr e ↦
      rw (e, reverse-cons (n % 10 + 48) (digits_up n (n / 10)))
        (snoc_nonempty (reverse (digits_up n (n / 10))) (n % 10 + 48))
]

-- Atoi reads a number that was printed.
pub atoi-format_nat : (n : ℕ) → n < 9223372036854775808 → atoi (format_nat n) ≡ some (pos n)
atoi-format_nat n h =
    atoi_digits (format_nat n) n (format_nat-IsDigit n) (format_nat_nonempty n) h
      (unfold format_nat in parse_digits-digits_up (suc n) n (omega arith))

-- Two texts without the separator, joined by it, are split again.
split_on_none : (sep : ℕ) (s : Text) → All (λ c. c ≢ sep) s → split_on sep s ≡ s ∷ []
unfolding split_on
split_on_none sep [] h = refl
split_on_none sep (c ∷ s) (p, h) = ground (arith, split_on_none sep s h)

pub split_on-join :
    (sep : ℕ) (s t : Text)
    → All (λ c. c ≢ sep) s
    → All (λ c. c ≢ sep) t
    → split_on sep (s ++ sep ∷ t) ≡ s ∷ t ∷ []
unfolding split_on
split_on-join sep [] t hs ht = ground (arith, split_on_none sep t ht)
split_on-join sep (c ∷ s) t (p, hs) ht = ground (arith, split_on-join sep s t hs ht)
