-- ===== src/Split/Exact.antt =====
-- What ComputeParts promises, with and without overflow.
use multi_send.Base.{
  ℕ, ◌+◌, ◌*◌, ◌/◌, ◌-◌, ◌≤◌, ◌<◌, ◌≡◌, ok, err, arith, ◌⊎◌, inl, inr, Bool-cases, ◌||◌,
}
use multi_send.Base.Int.{
  ℤ, pos, InRange, ◌≤ℤ◌, ◌<ℤ◌, add64, sub64, mul64, quot64, add64_pos, sub64_pos, mul64_pos,
  add64-sub64_cancel, wrap64, lt_ℤ, le_ℤ,
}
use multi_send.Split.{invalid_inputs, compute_parts}

left_le : (t l r : ℕ) → 0 < r → t * l / (l + r) ≤ t
left_le t l r h = grind arith

-- The parts that an accepted request gets are these numbers.
compute_parts_pos :
    (t l r : ℕ)
    → 0 < l
    → 0 < r
    → t * l < 9223372036854775808
    → l + r < 9223372036854775808
    → t < 9223372036854775808
    → compute_parts (pos t) (pos l) (pos r) ≡ ok (pos (t * l / (l + r)), pos (t - t * l / (l + r)))
unfolding compute_parts quot64
compute_parts_pos t l r hl hr hm hs ht =
    ground (arith, add64_pos l r, mul64_pos t l, sub64_pos t (t * l / (l + r)), left_le t l r hr)

-- Where the product and the sum fit, the left part is the weighted share rounded down, and the
-- right part is the rest.
pub compute_parts_exact :
    (t l r : ℕ)
    → 0 < l
    → 0 < r
    → t * l < 9223372036854775808
    → l + r < 9223372036854775808
    → (left right : ℕ) × (compute_parts (pos t) (pos l) (pos r) ≡ ok (pos left, pos right))
      × (left + right ≡ t)
      × (left * (l + r) ≤ t * l)
      × (t * l < (left + 1) * (l + r))
compute_parts_exact t l r hl hr hm hs = (
  t * l / (l + r),
  t - t * l / (l + r),
  compute_parts_pos t l r hl hr hm hs (grind arith),
  omega (arith, left_le t l r hr),
  omega arith,
  omega arith,
)

-- Any int64 inputs at all: they are refused exactly if the total is negative or a weight is not
-- positive, and otherwise the parts add up to the total, in int64 arithmetic.
pub compute_parts_sum :
    (total l r : ℤ)
    → InRange total
    → ((total <ℤ pos 0) ⊎ ((l ≤ℤ pos 0) ⊎ (r ≤ℤ pos 0)))
        × (compute_parts total l r ≡ err (invalid_inputs total l r))
      ⊎ (pos 0 ≤ℤ total)
        × (pos 0 <ℤ l)
        × (pos 0 <ℤ r)
        × ((left right : ℤ) × (compute_parts total l r ≡ ok (left, right))
            × (add64 left right ≡ total))
unfolding compute_parts
compute_parts_sum total l r h =
    elim (Bool-cases (lt_ℤ total (pos 0) || (le_ℤ l (pos 0) || le_ℤ r (pos 0)))) [
      | inl bad ↦ inl (ground arith, ground arith)
      | inr good ↦ inr (
        ground arith,
        ground arith,
        ground arith,
        (
          quot64 (mul64 total l) (add64 l r),
          sub64 total (quot64 (mul64 total l) (add64 l r)),
          rw good,
          add64-sub64_cancel total (quot64 (mul64 total l) (add64 l r)) h,
        ),
      )
    ]

quot_overflow :
    (t l s : ℕ)
    → 9223372036854775808 ≤ t * l
    → t * l < 18446744073709551616
    → quot64 (mul64 (pos t) (pos l)) (pos s) ≤ℤ pos 0
unfolding quot64 mul64 wrap64
quot_overflow t l s lo hi = ground arith

-- Of two weights above 0 whose sum fits int64: where the product of the total and the left weight is at
-- least 2 ^ 63 and below 2 ^ 64, ComputeParts gives no error, and a left part that is not above 0.
pub compute_parts_overflow :
    (t l r : ℕ)
    → 0 < l
    → 0 < r
    → l + r < 9223372036854775808
    → 9223372036854775808 ≤ t * l
    → t * l < 18446744073709551616
    → (left right : ℤ) × (compute_parts (pos t) (pos l) (pos r) ≡ ok (left, right))
      × (left ≤ℤ pos 0)
unfolding compute_parts
compute_parts_overflow t l r hl hr hs lo hi = (
  quot64 (mul64 (pos t) (pos l)) (pos (l + r)),
  sub64 (pos t) (quot64 (mul64 (pos t) (pos l)) (pos (l + r))),
  ground (arith, add64_pos l r),
  quot_overflow t l (l + r) lo hi,
)
