-- ===== src/Workers/Safe.antt =====
-- Every step of a worker keeps the invariant.
use multi_send.Base.{
  ℕ, zero, suc, ◌≡◌, refl, sym, subst, ap, ◌∙◌, true, false, List, [], ◌∷◌, arith, All, select, inl,
  inr, ◌⊎◌,
}
use multi_send.Base.Int.{ℤ}
use multi_send.Manifest.{ChunkState, Status, is_sending, is_done, is_failed, is_pending, as_sending}
use multi_send.Manifest.Distinct.{
  Distinct, Distinct-map, Distinct-update, All-update-Distinct, All-map,
}
use multi_send.Workers.{
  Crew, IsLoosened, Move, idle, quit, rest, loosen, take, land, held, all_stopped, is_open, step,
  interleave,
}
use multi_send.Workers.Held.{IsSwap, IsSwap-head, IsSwap-tail, is_known, IsKept, IsSafe, All-IsKept}

abbrev IsEnded : Status → Type 0
IsEnded t = (is_done t ≡ true) ⊎ ((is_failed t ≡ true) ⊎ (is_pending t ≡ true))

module _ {W : Type 0} (crew : Crew W) where
  open crew use {held_by, is_stopped, max_attempts}

  -- A worker that goes on keeps all_stopped false.
  goes_on :
      {w w' : W} {ws ws' : List W} {A : Type 0}
      → IsSwap crew w w' ws ws'
      → is_stopped w' ≡ false
      → all_stopped crew ws' ≡ true
      → A
  goes_on s e h = absurd (cc (s.stops h, e))

  free_keeps :
      (w w' : W) (ws ws' : List W)
      → IsSwap crew w w' ws ws'
      → ((i : ℤ) → held_by w i ≡ false)
      → (i : ℤ) → held crew ws i ≡ true
      → held crew ws' i ≡ true
  free_keeps w w' ws ws' s free i h = s.keeps i (λ q. absurd (cc (free i, q))) h

  Move-IsSafe :
      (cs cs' : List ChunkState) (w w' : W) (ws ws' : List W)
      → Move crew cs w cs' w'
      → IsSwap crew w w' ws ws'
      → IsSafe crew cs ws
      → IsSafe crew cs' ws'
  Move-IsSafe cs cs' w w' ws ws' (idle a b e) s h = record {
    distinct = subst Distinct (sym e) h.distinct;
    kept =
        subst (All (IsKept crew ws')) (sym e)
          (All-IsKept crew ws ws' cs (free_keeps w w' ws ws' s a.0) h.kept);
    quiet = λ q. goes_on s b.1 q;
  }
  Move-IsSafe cs cs' w w' ws ws' (quit a a' none_left e) s h = record {
    distinct = subst Distinct (sym e) h.distinct;
    kept =
        subst (All (IsKept crew ws')) (sym e)
          (All-IsKept crew ws ws' cs (free_keeps w w' ws ws' s a) h.kept);
    quiet = λ q. none_left;
  }
  Move-IsSafe cs cs' w w' ws ws' (rest same stop e) s h = record {
    distinct = subst Distinct (sym e) h.distinct;
    kept =
        subst (All (IsKept crew ws')) (sym e)
          (All-IsKept crew ws ws' cs (λ i k. s.keeps i (λ q. same i ∙ q) k) h.kept);
    quiet = λ q.
        subst (λ x. select (is_open max_attempts) x ≡ []) (sym e)
          (h.quiet (s.stays q (sym stop ∙ s.stops q)));
  }
  Move-IsSafe cs cs' w w' ws ws' (loosen f a b loose e) s h = record {
    distinct =
        subst Distinct (sym e)
          (Distinct-map f (λ c. ap (λ p. p.0) (loose c).same_place) cs h.distinct);
    kept = subst (All (IsKept crew ws')) (sym e) (
        All-map (IsKept crew ws) (IsKept crew ws') f
          (λ c k. loosened c (f c) (loose c) (record {
            known = k.known;
            in_hand = λ q. free_keeps w w' ws ws' s a.0 c.index (k.in_hand q);
          }))
          cs h.kept);
    quiet = λ q. goes_on s b.1 q;
  }
    where
      loosened : (c c' : ChunkState) → IsLoosened c c' → IsKept crew ws' c → IsKept crew ws' c'
      loosened c c' l k = elim l.outcome [
        | inl same ↦ record {
          known = ap is_known same ∙ k.known;
          in_hand = λ q.
              subst (λ i. held crew ws' i ≡ true) (sym (ap (λ p. p.0) l.same_place))
                (k.in_hand (ap is_sending (sym same) ∙ q));
        }
        | inr p ↦ record { known = ground arith; in_hand = λ q. absurd (ground arith) }
      ]
  Move-IsSafe cs cs' w w' ws ws' (take now channel i a e mine on) s h = record {
    distinct =
        subst Distinct (sym e)
          (Distinct-update i (as_sending now channel) (λ c. refl) cs h.distinct);
    kept = subst (All (IsKept crew ws')) (sym e) (
        All-update-Distinct (IsKept crew ws) (IsKept crew ws') i (as_sending now channel)
          (λ c same k. record {
            known = refl;
            in_hand = λ q. subst (λ j. held crew ws' j ≡ true) (sym same) (s.gains i mine);
          })
          (λ c differ k. record {
            known = k.known;
            in_hand = λ q. free_keeps w w' ws ws' s a.0 c.index (k.in_hand q);
          })
          cs h.distinct h.kept);
    quiet = λ q. goes_on s on q;
  }
  Move-IsSafe cs cs' w w' ws ws' (land i f mine b landed e) s h = record {
    distinct =
        subst Distinct (sym e)
          (Distinct-update i f (λ c. ap (λ p. p.0) (landed c).same_place) cs h.distinct);
    kept = subst (All (IsKept crew ws')) (sym e) (
        All-update-Distinct (IsKept crew ws) (IsKept crew ws') i f
          (λ c same k. record {
            known = landed_known (f c).status (landed c).outcome;
            in_hand = λ q. landed_home (f c).status (landed c).outcome q;
          })
          (λ c differ k. record {
            known = k.known;
            in_hand =
                λ q. s.keeps c.index (λ m. absurd (differ (sym (mine c.index m)))) (k.in_hand q);
          })
          cs h.distinct h.kept);
    quiet = λ q. goes_on s b.1 q;
  }
    where
      landed_known : (t : Status) → IsEnded t → is_known t ≡ true
      landed_known t l = ground arith

      landed_home : (t : Status) {A : Type 0} → IsEnded t → is_sending t ≡ true → A
      landed_home t l q = absurd (ground arith)

module _ {Input R W : Type 0} (crew : Crew W) (chunks : R → List ChunkState)
    (advance : Input → R → W → R × W) (Calm : Input → Type 0) (Failed : R → Type 0)
    (stays : (inp : Input) (r : R) (w : W) → Failed r → Failed (advance inp r w).0)
    (refines : (inp : Input) (r : R) (w : W)
      → Calm inp
      → Move crew (chunks r) w (chunks (advance inp r w).0) (advance inp r w).1
        ⊎ Failed (advance inp r w).0) where
  step-IsSwap :
      (i : ℕ) (inp : Input) (r : R) (ws : List W)
      → (step advance i inp (r, ws) ≡ (r, ws))
        ⊎ ((w : W) × ((step advance i inp (r, ws)).0 ≡ (advance inp r w).0)
            × IsSwap crew w (advance inp r w).1 ws (step advance i inp (r, ws)).1)
  unfolding step
  step-IsSwap i inp r [] = inl refl
  step-IsSwap zero inp r (w ∷ ws) = inr (w, refl, IsSwap-head crew w (advance inp r w).1 ws)
  step-IsSwap (suc i) inp r (v ∷ ws) = elim (step-IsSwap i inp r ws) [
    | inl e ↦ inl (rw e refl)
    | inr (w, e, s) ↦
        inr (w, e, IsSwap-tail crew w (advance inp r w).1 v ws (step advance i inp (r, ws)).1 s)
  ]

  step-Failed :
      (i : ℕ) (inp : Input) (r : R) (ws : List W) → Failed r → Failed (step advance i inp (r, ws)).0
  step-Failed i inp r ws f = elim (step-IsSwap i inp r ws) [
    | inl q ↦ subst (λ s. Failed s.0) (sym q) f
    | inr (w, q, s) ↦ subst Failed (sym q) (stays inp r w f)
  ]

  step-IsSafe :
      (i : ℕ) (inp : Input) (r : R) (ws : List W)
      → Calm inp
      → IsSafe crew (chunks r) ws
      → IsSafe crew (chunks (step advance i inp (r, ws)).0) (step advance i inp (r, ws)).1
        ⊎ Failed (step advance i inp (r, ws)).0
  step-IsSafe i inp r ws e h = elim (step-IsSwap i inp r ws) [
    | inl q ↦ inl (subst (λ s. IsSafe crew (chunks s.0) s.1) (sym q) h)
    | inr (w, q, s) ↦ elim (refines inp r w e) [
      | inl m ↦ inl (
          subst (λ x. IsSafe crew (chunks x) (step advance i inp (r, ws)).1) (sym q)
            (Move-IsSafe crew _ _ w _ ws _ m s h))
      | inr f ↦ inr (subst Failed (sym q) f)
    ]
  ]

  pub interleave-Failed :
      (steps : List (ℕ × Input)) (r : R) (ws : List W)
      → Failed r
      → Failed (interleave advance steps (r, ws)).0
  unfolding interleave
  interleave-Failed [] r ws f = f
  interleave-Failed ((i, inp) ∷ steps) r ws f =
      let s = step advance i inp (r, ws) in
      interleave-Failed steps s.0 s.1 (step-Failed i inp r ws f)

  -- Unless the workers failed, the invariant holds.
  pub interleave-IsSafe :
      (steps : List (ℕ × Input)) (r : R) (ws : List W)
      → All (λ s. Calm s.1) steps
      → IsSafe crew (chunks r) ws
      → IsSafe crew
          (chunks (interleave advance steps (r, ws)).0)
          (interleave advance steps (r, ws)).1
        ⊎ Failed (interleave advance steps (r, ws)).0
  unfolding interleave
  interleave-IsSafe [] r ws e h = inl h
  interleave-IsSafe ((i, inp) ∷ steps) r ws (e, es) h =
      let s = step advance i inp (r, ws) in
      elim (step-IsSafe i inp r ws e h) [
        | inl k ↦ interleave-IsSafe steps s.0 s.1 es k
        | inr f ↦ inr (interleave-Failed steps s.0 s.1 f)
      ]
