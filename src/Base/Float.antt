-- ===== src/Base/Float.antt =====
-- float64, as a parameter: the values and the operations that the code applies to them. No law is
-- assumed here; a theorem that needs one names it.
use multi_send.Base.{ℕ, Bool}
use multi_send.Base.Int.{ℤ}

pub record FloatOps : Type 1 where
  pub Float : Type 0
  -- The literal m / 10 ^ d.
  pub lit : (m d : ℕ) → Float
  pub negate : Float → Float
  pub of_int : ℤ → Float
  pub fadd : Float → Float → Float
  pub fmul : Float → Float → Float
  pub fdiv : Float → Float → Float
  pub flt : Float → Float → Bool
  pub fle : Float → Float → Bool
  pub feq : Float → Float → Bool
