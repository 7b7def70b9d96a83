-- ===== src/Workers/Ends.antt =====
-- How workers end: no chunk is lost between them.
use multi_send.Base.{
  ℕ, ◌≡◌, refl, true, false, ◌||◌, List, [], ◌∷◌, arith, All, select, Bool-cases, inl, inr, ◌⊎◌,
}
use multi_send.Base.Int.{ℤ, ◌≤ℤ◌}
use multi_send.Manifest.{ChunkState, is_sending, is_done, is_failed, is_pending}
use multi_send.Manifest.Distinct.{Distinct}
use multi_send.Workers.{Crew, Move, held, all_stopped, is_open, interleave}
use multi_send.Workers.Held.{IsSafe, IsKept}
use multi_send.Workers.Safe.{interleave-IsSafe}

-- Not in flight, and not canceled.
abbrev pub IsResting : ChunkState → Type 0
IsResting c = (is_pending c.status || (is_done c.status || is_failed c.status)) ≡ true

-- Done, or failed with no attempt left.
abbrev pub IsOver : ℤ → ChunkState → Type 0
IsOver limit c = (is_done c.status ≡ true) ⊎ ((is_failed c.status ≡ true) × (limit ≤ℤ c.attempts))

module _ {W : Type 0} (crew : Crew W) where
  open crew use {held_by, is_stopped, max_attempts, stopped_free}

  IsResting-IsKept :
      (ws : List W) (cs : List ChunkState) → All IsResting cs → All (IsKept crew ws) cs
  IsResting-IsKept ws [] h = tt
  IsResting-IsKept ws (c ∷ cs) (p, h) = (
    record { known = ground arith; in_hand = λ q. absurd (ground arith) },
    IsResting-IsKept ws cs h,
  )

  none_held : (ws : List W) (i : ℤ) → all_stopped crew ws ≡ true → held crew ws i ≡ false
  unfolding held all_stopped
  none_held [] i h = refl
  none_held (w ∷ ws) i h = ground (arith, stopped_free w i, none_held ws i)

  IsOver-IsKept :
      (ws : List W) (cs : List ChunkState)
      → all_stopped crew ws ≡ true
      → All (IsKept crew ws) cs
      → select (is_open max_attempts) cs ≡ []
      → All (IsOver max_attempts) cs
  unfolding select
  IsOver-IsKept ws [] stop h e = tt
  IsOver-IsKept ws (c ∷ cs) stop (k, h) e =
      let home : is_sending c.status ≡ false = elim (Bool-cases (is_sending c.status)) [
        | inl q ↦ absurd (cc (none_held ws c.index stop, k.in_hand q))
        | inr q ↦ q
      ] in
      let known = k.known in
      elim (Bool-cases (is_open max_attempts c)) [
        | inl q ↦ absurd (let e' = rw q at e in cc)
        | inr q ↦ (ground arith, IsOver-IsKept ws cs stop h (rw q at e))
      ]

module _ {Input R W : Type 0} (crew : Crew W) (chunks : R → List ChunkState)
    (advance : Input → R → W → R × W) (Calm : Input → Type 0) (Failed : R → Type 0)
    (stays : (inp : Input) (r : R) (w : W) → Failed r → Failed (advance inp r w).0)
    (refines : (inp : Input) (r : R) (w : W)
      → Calm inp
      → Move crew (chunks r) w (chunks (advance inp r w).0) (advance inp r w).1
        ⊎ Failed (advance inp r w).0) where
  -- Where every step is a move, or fails for good: if workers that have no chunk in hand, and have not all stopped, start
  -- on resting chunks with distinct indices, then, once all have stopped, every chunk is over,
  -- or the workers have failed.
  pub interleave-IsOver :
      (steps : List (ℕ × Input)) (r : R) (ws : List W)
      → All (λ s. Calm s.1) steps
      → Distinct (chunks r)
      → All IsResting (chunks r)
      → all_stopped crew ws ≡ false
      → all_stopped crew (interleave advance steps (r, ws)).1 ≡ true
      → All (IsOver crew.max_attempts) (chunks (interleave advance steps (r, ws)).0)
        ⊎ Failed (interleave advance steps (r, ws)).0
  interleave-IsOver steps r ws calm d h go stop =
      let start : IsSafe crew (chunks r) ws = record {
        distinct = d;
        kept = IsResting-IsKept crew ws (chunks r) h;
        quiet = λ q. absurd (cc (q, go));
      } in
      elim (interleave-IsSafe crew chunks advance Calm Failed stays refines steps r ws calm start) [
        | inl s ↦ inl (
            IsOver-IsKept crew (interleave advance steps (r, ws)).1
              (chunks (interleave advance steps (r, ws)).0) stop s.kept (s.quiet stop))
        | inr f ↦ inr f
      ]
