-- ===== src/Base/Int.antt =====
-- Go's int64 (and int, on 64-bit targets): integers with the wrap-around at 64 bits.
use multi_send.Base.{
  ◌∙◌, ℕ, suc, ◌+◌, ◌-◌, ◌*◌, ◌/◌, ◌%◌, ◌≤◌, ◌<◌, ◌≡◌, ap, ◌↔◌, Bool, true, ◌&&◌, arith, ltb, leb,
  if◌then◌else◌,
}

-- `negsuc n` is -(n + 1).
pub data ℤ : Type 0 where
  pos : ℕ → ℤ
  negsuc : ℕ → ℤ

abbrev pub pos_part : ℤ → ℕ
pos_part (pos n) = n
pos_part (negsuc n) = 0

abbrev pub neg_part : ℤ → ℕ
neg_part (pos n) = 0
neg_part (negsuc n) = suc n

-- a - b, as an integer.
abbrev pub sub_ℕ : ℕ → ℕ → ℤ
sub_ℕ a b = if leb b a then pos (a - b) else negsuc (b - a - 1)

infix 50 ◌≤ℤ◌ ◌<ℤ◌
abbrev pub ◌≤ℤ◌ : ℤ → ℤ → Type 0
a ≤ℤ b = pos_part a + neg_part b ≤ pos_part b + neg_part a

abbrev pub ◌<ℤ◌ : ℤ → ℤ → Type 0
a <ℤ b = pos_part a + neg_part b < pos_part b + neg_part a

abbrev pub lt_ℤ : ℤ → ℤ → Bool
lt_ℤ a b = ltb (pos_part a + neg_part b) (pos_part b + neg_part a)

abbrev pub le_ℤ : ℤ → ℤ → Bool
le_ℤ a b = leb (pos_part a + neg_part b) (pos_part b + neg_part a)

abbrev pub eq_ℤ : ℤ → ℤ → Bool
eq_ℤ a b = le_ℤ a b && le_ℤ b a

pub eq_ℤ_iff : (a b : ℤ) → (eq_ℤ a b ≡ true) ↔ (a ≡ b)
eq_ℤ_iff a b = ground arith

pub eq_ℤ_refl : (a : ℤ) → eq_ℤ a a ≡ true
eq_ℤ_refl a = ground arith

-- The value that 64 bits keep of an integer.
unfoldable pub wrap64 : ℤ → ℤ
wrap64 z =
    let r =
      (pos_part z + (18446744073709551616 - neg_part z % 18446744073709551616))
      % 18446744073709551616 in
    if ltb r 9223372036854775808 then pos r else negsuc (18446744073709551615 - r)

-- An int64.
abbrev pub InRange : ℤ → Type 0
InRange z = (pos_part z < 9223372036854775808) × (neg_part z ≤ 9223372036854775808)

unfoldable pub add64 : ℤ → ℤ → ℤ
add64 a b = wrap64 (sub_ℕ (pos_part a + pos_part b) (neg_part a + neg_part b))

unfoldable pub sub64 : ℤ → ℤ → ℤ
sub64 a b = wrap64 (sub_ℕ (pos_part a + neg_part b) (neg_part a + pos_part b))

unfoldable pub mul64 : ℤ → ℤ → ℤ
mul64 a b = wrap64 (
    sub_ℕ (pos_part a * pos_part b + neg_part a * neg_part b)
      (pos_part a * neg_part b + neg_part a * pos_part b))

-- Go's `/` and `%` truncate toward zero. (Division by zero panics: callers show a nonzero divisor.)
unfoldable pub quot64 : ℤ → ℤ → ℤ
quot64 (pos a) (pos b) = pos (a / b)
quot64 (pos a) (negsuc b) = sub_ℕ 0 (a / suc b)
quot64 (negsuc a) (pos b) = sub_ℕ 0 (suc a / b)
quot64 (negsuc a) (negsuc b) = wrap64 (pos (suc a / suc b))

unfoldable pub rem64 : ℤ → ℤ → ℤ
rem64 (pos a) (pos b) = pos (a % b)
rem64 (pos a) (negsuc b) = pos (a % suc b)
rem64 (negsuc a) (pos b) = sub_ℕ 0 (suc a % b)
rem64 (negsuc a) (negsuc b) = sub_ℕ 0 (suc a % suc b)

pub wrap64_id : (z : ℤ) → InRange z → wrap64 z ≡ z
unfolding wrap64
wrap64_id z h = ground arith

pub wrap64-InRange : (z : ℤ) → InRange (wrap64 z)
unfolding wrap64
wrap64-InRange z = ground arith

pub add64_pos : (a b : ℕ) → a + b < 9223372036854775808 → add64 (pos a) (pos b) ≡ pos (a + b)
unfolding add64 wrap64
add64_pos a b h = ground arith

pub sub64_pos : (a b : ℕ) → b ≤ a → a < 9223372036854775808 → sub64 (pos a) (pos b) ≡ pos (a - b)
unfolding sub64 wrap64
sub64_pos a b h k = ground arith

pub mul64_pos : (a b : ℕ) → a * b < 9223372036854775808 → mul64 (pos a) (pos b) ≡ pos (a * b)
unfolding mul64 wrap64
mul64_pos a b h = ground arith

-- Subtraction undoes: `a - b + b` is `a` in int64, wrapped or not.
pub add64-sub64_cancel : (a b : ℤ) → InRange a → add64 b (sub64 a b) ≡ a
unfolding add64 sub64 wrap64
add64-sub64_cancel a b h = ground arith

pub add64_comm : (a b : ℤ) → add64 a b ≡ add64 b a
unfolding add64
add64_comm a b = ap wrap64 (ground arith)

-- What 64 bits keep of an integer, unsigned, and back.
abbrev residue : ℤ → ℕ
residue z =
    (pos_part z + (18446744073709551616 - neg_part z % 18446744073709551616)) % 18446744073709551616

abbrev signed : ℕ → ℤ
signed r = if ltb r 9223372036854775808 then pos r else negsuc (18446744073709551615 - r)

residue-signed : (r : ℕ) → r < 18446744073709551616 → residue (signed r) ≡ r
residue-signed r h = ground arith

residue-sub_ℕ :
    (a b : ℤ)
    → residue (sub_ℕ (pos_part a + pos_part b) (neg_part a + neg_part b))
      ≡ (residue a + residue b) % 18446744073709551616
residue-sub_ℕ (pos a) (pos b) = ground arith
residue-sub_ℕ (pos a) (negsuc b) = ground arith
residue-sub_ℕ (negsuc a) (pos b) = ground arith
residue-sub_ℕ (negsuc a) (negsuc b) = ground arith

add64-signed : (a b : ℤ) → add64 a b ≡ signed ((residue a + residue b) % 18446744073709551616)
unfolding add64 wrap64
add64-signed a b = ap signed (residue-sub_ℕ a b)

residue-add64 : (a b : ℤ) → residue (add64 a b) ≡ (residue a + residue b) % 18446744073709551616
residue-add64 a b = rw (add64-signed a b) (residue-signed _ (omega arith))

pub add64_assoc : (a b c : ℤ) → add64 (add64 a b) c ≡ add64 a (add64 b c)
add64_assoc a b c =
    rw
      (add64-signed (add64 a b) c, add64-signed a (add64 b c), residue-add64 a b, residue-add64 b c)
      (ap signed (omega arith))

residue-neg :
    (n : ℤ) → residue (sub64 (pos 0) n) ≡ (18446744073709551616 - residue n) % 18446744073709551616
unfolding sub64 wrap64
residue-neg (pos n) = ground arith
residue-neg (negsuc n) = ground arith

signed-residue : (a : ℤ) → InRange a → signed (residue a) ≡ a
signed-residue a h = ground arith

-- Taking away what was added.
pub add64-sub64_undo : (a n : ℤ) → InRange a → add64 (add64 a n) (sub64 (pos 0) n) ≡ a
add64-sub64_undo a n h =
    rw (add64-signed (add64 a n) (sub64 (pos 0) n), residue-add64 a n, residue-neg n)
      (ap signed (omega arith) ∙ signed-residue a h)

pub add64-InRange : (a b : ℤ) → InRange (add64 a b)
unfolding add64
add64-InRange a b = wrap64-InRange _

pub add64_zero : (a : ℤ) → InRange a → add64 a (pos 0) ≡ a
add64_zero a h = rw (add64-signed a (pos 0)) (ap signed (omega arith) ∙ signed-residue a h)
