-- ===== src/Base/Decimal.antt =====
-- `%d`: numbers printed in decimal, and that no two print alike.
use mathlib.Core.List.{reverse, reverse-reverse, reverse-cons}
use multi_send.Base.{
  ℕ, zero, suc, ◌+◌, ◌-◌, ◌*◌, ◌/◌, ◌%◌, ◌≤◌, ◌<◌, ◌≡◌, ◌≢◌, sym, ap, ◌∙◌, [], ◌∷◌, ◌++◌, arith,
  All, ltb, if◌then◌else◌,
}
use multi_send.Base.Int.{ℤ, pos, negsuc}
use multi_send.Base.Text.{Text}

-- The digits from the last one on. More rounds than the number are enough.
unfoldable pub digits_up : ℕ → ℕ → Text
digits_up zero n = []
digits_up (suc rounds) n =
    let higher = digits_up rounds (n / 10) in
    if ltb n 10 then (n + 48) ∷ [] else (n % 10 + 48) ∷ higher

unfoldable pub format_nat : ℕ → Text
unfolding digits_up
format_nat n = reverse (digits_up (suc n) n)

unfoldable pub format_int : ℤ → Text
unfolding format_nat
format_int (pos n) = format_nat n
format_int (negsuc n) = 45 ∷ format_nat (suc n)

value_up : Text → ℕ
value_up [] = 0
value_up (d ∷ ds) = d - 48 + 10 * value_up ds

value_up-digits_up : (rounds n : ℕ) → n < rounds → value_up (digits_up rounds n) ≡ n
unfolding value_up digits_up
value_up-digits_up zero n h = absurd (omega arith)
value_up-digits_up (suc rounds) n h = ground (arith, value_up-digits_up rounds (n / 10))

format_nat-injective : (m n : ℕ) → format_nat m ≡ format_nat n → m ≡ n
unfolding format_nat
format_nat-injective m n e =
    sym (value_up-digits_up (suc m) m (omega arith))
    ∙ ap value_up (
        sym (reverse-reverse (digits_up (suc m) m))
        ∙ ap reverse e
        ∙ reverse-reverse (digits_up (suc n) n))
    ∙ value_up-digits_up (suc n) n (omega arith)

-- The bytes that decimal numbers are made of: digits and the minus sign.
abbrev pub IsNumeral : ℕ → Type 0
IsNumeral c = 45 ≤ c

abbrev pub IsDigit : ℕ → Type 0
IsDigit c = 48 ≤ c

digits_up-IsDigit : (rounds n : ℕ) → All IsDigit (digits_up rounds n)
unfolding digits_up
digits_up-IsDigit zero n = tt
digits_up-IsDigit (suc rounds) n = ground (arith, digits_up-IsDigit rounds (n / 10))

All-snoc : (P : ℕ → Type 0) (s : Text) (c : ℕ) → All P s → P c → All P (s ++ c ∷ [])
All-snoc P [] c h p = (p, tt)
All-snoc P (d ∷ s) c (q, h) p = (q, All-snoc P s c h p)

pub All-reverse : (P : ℕ → Type 0) (s : Text) → All P s → All P (reverse s)
All-reverse P [] h = tt
All-reverse P (c ∷ s) (p, h) =
    rw (reverse-cons c s) (All-snoc P (reverse s) c (All-reverse P s h) p)

pub format_nat-IsDigit : (n : ℕ) → All IsDigit (format_nat n)
unfolding format_nat
format_nat-IsDigit n = All-reverse IsDigit (digits_up (suc n) n) (digits_up-IsDigit (suc n) n)

digits-numerals : (s : Text) → All IsDigit s → All IsNumeral s
digits-numerals [] h = tt
digits-numerals (c ∷ s) (p, h) = (omega arith, digits-numerals s h)

pub format_int-IsNumeral : (z : ℤ) → All IsNumeral (format_int z)
unfolding format_int
format_int-IsNumeral (pos n) = digits-numerals (format_nat n) (format_nat-IsDigit n)
format_int-IsNumeral (negsuc n) =
    (omega arith, digits-numerals (format_nat (suc n)) (format_nat-IsDigit (suc n)))

minus-not_digits : (s t : Text) → All IsDigit s → s ≢ 45 ∷ t
minus-not_digits [] t h = λ e. cc
minus-not_digits (c ∷ s) t (p, h) = λ e. let q : c ≡ 45 = cc in absurd (omega arith)

pub format_int-injective : (y z : ℤ) → format_int y ≡ format_int z → y ≡ z
unfolding format_int
format_int-injective (pos m) (pos n) e = ap pos (format_nat-injective m n e)
format_int-injective (pos m) (negsuc n) e =
    absurd (minus-not_digits (format_nat m) (format_nat (suc n)) (format_nat-IsDigit m) e)
format_int-injective (negsuc m) (pos n) e =
    absurd (minus-not_digits (format_nat n) (format_nat (suc m)) (format_nat-IsDigit n) (sym e))
format_int-injective (negsuc m) (negsuc n) e =
    let same : suc m ≡ suc n = format_nat-injective (suc m) (suc n) (cc) in ap negsuc (omega arith)
