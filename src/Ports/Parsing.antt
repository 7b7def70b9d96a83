-- ===== src/Ports/Parsing.antt =====
-- ParseRange: what it accepts, and that it reads a range that was printed.
use multi_send.Base.{
  ℕ, ◌≤◌, ◌≡◌, ◌≢◌, refl, false, List, [], ◌∷◌, ◌++◌, All, Option, none, some, arith, Result, ok,
  err,
}
use multi_send.Base.Int.{ℤ, pos, ◌≤ℤ◌}
use multi_send.Base.Text.{Text, trim_space, is_space}
use multi_send.Base.Decimal.{format_nat, IsDigit, format_nat-IsDigit}
use multi_send.Base.Spaces.{HasNoSpace, trim_space_id}
use multi_send.Base.Atoi.{atoi, atoi-format_nat, split_on, split_on-join}
use multi_send.Ports.{
  Range, RangeError, normalize, normalize_valid_range, by_numbers, by_parts, parse_range,
}

-- A range of ports in order.
abbrev pub IsRange : Range → Type 0
IsRange r = (pos 1 ≤ℤ r.start) × (r.start ≤ℤ r.end) × (r.end ≤ℤ pos 65535)

abbrev pub IsOkRange : Result RangeError Range → Type 0
IsOkRange (ok r) = IsRange r
IsOkRange (err e) = Unit

pub normalize_valid_range-IsRange : (r : Range) → IsOkRange (normalize_valid_range r)
unfolding normalize_valid_range
normalize_valid_range-IsRange r = ground arith

digits-HasNoSpace : (s : Text) → All IsDigit s → HasNoSpace s
digits-HasNoSpace [] h = tt
digits-HasNoSpace (c ∷ s) (p, h) = (ground arith, digits-HasNoSpace s h)

digits-no_dash : (s : Text) → All IsDigit s → All (λ c. c ≢ 45) s
digits-no_dash [] h = tt
digits-no_dash (c ∷ s) (p, h) = (λ e. omega arith, digits-no_dash s h)

All-append : (P : ℕ → Type 0) (s t : Text) → All P s → All P t → All P (s ++ t)
All-append P [] t hs ht = ht
All-append P (c ∷ s) t (p, hs) ht = (p, All-append P s t hs ht)

valid_ports :
    (a b : ℕ)
    → 1 ≤ a
    → a ≤ 65535
    → 1 ≤ b
    → b ≤ 65535
    → normalize_valid_range (record { start = pos a; end = pos b })
      ≡ ok (normalize (record { start = pos a; end = pos b }))
unfolding normalize_valid_range
valid_ports a b la ha lb hb = ground arith

-- ParseRange reads a range that is printed as two ports and a dash, in either order.
pub parse_range-format :
    (a b : ℕ)
    → 1 ≤ a
    → a ≤ 65535
    → 1 ≤ b
    → b ≤ 65535
    → parse_range (format_nat a ++ 45 ∷ format_nat b)
      ≡ ok (normalize (record { start = pos a; end = pos b }))
unfolding parse_range
parse_range-format a b la ha lb hb =
    let da = format_nat-IsDigit a in
    let db = format_nat-IsDigit b in
    let sa = digits-HasNoSpace (format_nat a) da in
    let sb = digits-HasNoSpace (format_nat b) db in
    rw
      (
        trim_space_id (format_nat a ++ 45 ∷ format_nat b)
            (All-append (λ c. is_space c ≡ false) (format_nat a) (45 ∷ format_nat b) sa (refl, sb)),
        split_on-join 45 (format_nat a) (format_nat b) (digits-no_dash (format_nat a) da)
            (digits-no_dash (format_nat b) db),
        trim_space_id (format_nat a) sa,
        trim_space_id (format_nat b) sb,
        atoi-format_nat a (omega arith),
        atoi-format_nat b (omega arith),
      )
      (valid_ports a b la ha lb hb)

-- Whatever text ParseRange accepts, it gives a range of ports from 1 to 65535, in order.
pub parse_range-IsRange : (s : Text) → IsOkRange (parse_range s)
unfolding parse_range
parse_range-IsRange s = by_split (split_on 45 (trim_space s))
  where
    by_two : (a b : Option ℤ) → IsOkRange (by_numbers a b)
    by_two none b = tt
    by_two (some a) none = tt
    by_two (some a) (some b) = normalize_valid_range-IsRange (record { start = a; end = b })

    by_split : (parts : List Text) → IsOkRange (by_parts parts)
    by_split [] = tt
    by_split (a ∷ []) = tt
    by_split (a ∷ b ∷ []) = by_two (atoi (trim_space a)) (atoi (trim_space b))
    by_split (a ∷ b ∷ c ∷ cs) = tt
