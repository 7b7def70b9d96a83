-- ===== src/Workers/Held.antt =====
-- The invariant of workers: a chunk in flight is in a worker's hands.
use multi_send.Base.{◌≡◌, Bool, true, ◌||◌, List, [], ◌∷◌, arith, All, select}
use multi_send.Base.Int.{ℤ}
use multi_send.Manifest.{ChunkState, Status, is_sending, is_done, is_failed, is_pending}
use multi_send.Manifest.Distinct.{Distinct}
use multi_send.Workers.{Crew, held, all_stopped, is_open}

-- A chunk in flight is held by a worker, and no status is unknown or canceled.
abbrev pub is_known : Status → Bool
is_known s = is_pending s || (is_sending s || (is_done s || is_failed s))

module _ {W : Type 0} (crew : Crew W) where
  open crew use {held_by, is_stopped, max_attempts}

  -- One of the workers ws, w, is w' in ws'.
  pub record IsSwap (w w' : W) (ws ws' : List W) : Type 0 where
    pub keeps :
        (i : ℤ)
        → (held_by w i ≡ true → held_by w' i ≡ true)
        → held crew ws i ≡ true
        → held crew ws' i ≡ true
    pub gains : (i : ℤ) → held_by w' i ≡ true → held crew ws' i ≡ true
    pub stops : all_stopped crew ws' ≡ true → is_stopped w' ≡ true
    pub stays : all_stopped crew ws' ≡ true → is_stopped w ≡ true → all_stopped crew ws ≡ true

  pub IsSwap-head : (w w' : W) (ws : List W) → IsSwap w w' (w ∷ ws) (w' ∷ ws)
  unfolding held all_stopped
  IsSwap-head w w' ws = record {
    keeps = λ i k h. ground (arith, k);
    gains = λ i h. ground (arith, h);
    stops = λ h. ground (arith, h);
    stays = λ h k. ground (arith, h, k);
  }

  pub IsSwap-tail :
      (w w' v : W) (ws ws' : List W) → IsSwap w w' ws ws' → IsSwap w w' (v ∷ ws) (v ∷ ws')
  unfolding held all_stopped
  IsSwap-tail w w' v ws ws' s = record {
    keeps = λ i k h. ground (arith, s.keeps i k);
    gains = λ i h. ground (arith, s.gains i h);
    stops = λ h. ground (arith, s.stops);
    stays = λ h k. ground (arith, s.stays);
  }

  pub record IsKept (ws : List W) (c : ChunkState) : Type 0 where
    pub known : is_known c.status ≡ true
    pub in_hand : is_sending c.status ≡ true → held crew ws c.index ≡ true

  pub record IsSafe (cs : List ChunkState) (ws : List W) : Type 0 where
    pub distinct : Distinct cs
    pub kept : All (IsKept ws) cs
    -- Only when nothing is left to retry have all workers stopped.
    pub quiet : all_stopped crew ws ≡ true → select (is_open max_attempts) cs ≡ []

  pub All-IsKept :
      (ws ws' : List W) (cs : List ChunkState)
      → ((i : ℤ) → held crew ws i ≡ true → held crew ws' i ≡ true)
      → All (IsKept ws) cs
      → All (IsKept ws') cs
  All-IsKept ws ws' [] f h = tt
  All-IsKept ws ws' (c ∷ cs) f (k, h) =
      (record { known = k.known; in_hand = λ s. f c.index (k.in_hand s) }, All-IsKept ws ws' cs f h)
