-- ===== src/Split.antt =====
-- internal/split/split.go: a total divided between two weights, in int64 arithmetic.
pub mod Exact
use multi_send.Base.{◌||◌, Result, ok, err, if◌then◌else◌}
use multi_send.Base.Int.{ℤ, pos, lt_ℤ, le_ℤ, add64, sub64, mul64, quot64}

-- `fmt.Errorf("invalid inputs: …")`, with the inputs that its text shows.
pub data SplitError : Type 0 where
  invalid_inputs : (total left_weight right_weight : ℤ) → SplitError

unfoldable pub compute_parts : ℤ → ℤ → ℤ → Result SplitError (ℤ × ℤ)
compute_parts total left_weight right_weight =
    if lt_ℤ total (pos 0) || (le_ℤ left_weight (pos 0) || le_ℤ right_weight (pos 0))
    then err (invalid_inputs total left_weight right_weight)
    else (let sum = add64 left_weight right_weight in
        let left = quot64 (mul64 total left_weight) sum in
        let right = sub64 total left in ok (left, right))
