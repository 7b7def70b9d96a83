-- ===== src/Workers/Layout.antt =====
-- No step of a worker moves a chunk in the file.
use multi_send.Base.{ℕ, zero, suc, ◌≡◌, refl, ap, ◌∙◌, List, [], ◌∷◌, map, All, ◌⊎◌, inl, inr}
use multi_send.Manifest.{ChunkState, as_sending}
use multi_send.Manifest.Trace.{place, map-update_chunk, map-map_same}
use multi_send.Workers.Safe.{interleave-Failed}
use multi_send.Workers.{Crew, Move, idle, quit, rest, loosen, take, land, step, interleave}

module _ {W : Type 0} (crew : Crew W) where
  Move-place :
      (cs cs' : List ChunkState) (w w' : W) → Move crew cs w cs' w' → map place cs' ≡ map place cs
  Move-place cs cs' w w' (idle a b e) = ap (map place) e
  Move-place cs cs' w w' (quit a b n e) = ap (map place) e
  Move-place cs cs' w w' (rest same stop e) = ap (map place) e
  Move-place cs cs' w w' (loosen f a b loose e) =
      ap (map place) e ∙ map-map_same f (λ c. (loose c).same_place) cs
  Move-place cs cs' w w' (take now channel i a e m on) =
      ap (map place) e ∙ map-update_chunk i (as_sending now channel) (λ c. refl) cs
  Move-place cs cs' w w' (land i f m b l e) =
      ap (map place) e ∙ map-update_chunk i f (λ c. (l c).same_place) cs

module _ {Input R W : Type 0} (crew : Crew W) (chunks : R → List ChunkState)
    (advance : Input → R → W → R × W) (Calm : Input → Type 0) (Failed : R → Type 0)
    (stays : (inp : Input) (r : R) (w : W) → Failed r → Failed (advance inp r w).0)
    (refines : (inp : Input) (r : R) (w : W)
      → Calm inp
      → Move crew (chunks r) w (chunks (advance inp r w).0) (advance inp r w).1
        ⊎ Failed (advance inp r w).0) where
  step-place :
      (i : ℕ) (inp : Input) (r : R) (ws : List W)
      → Calm inp
      → (map place (chunks (step advance i inp (r, ws)).0) ≡ map place (chunks r))
        ⊎ Failed (step advance i inp (r, ws)).0
  unfolding step
  step-place i inp r [] c = inl refl
  step-place zero inp r (w ∷ ws) c = elim (refines inp r w c) [
    | inl m ↦ inl (Move-place crew _ _ w _ m)
    | inr f ↦ inr f
  ]
  step-place (suc i) inp r (w ∷ ws) c = step-place i inp r ws c

  pub interleave-place :
      (steps : List (ℕ × Input)) (r : R) (ws : List W)
      → All (λ s. Calm s.1) steps
      → (map place (chunks (interleave advance steps (r, ws)).0) ≡ map place (chunks r))
        ⊎ Failed (interleave advance steps (r, ws)).0
  unfolding interleave
  interleave-place [] r ws c = inl refl
  interleave-place ((i, inp) ∷ steps) r ws (c, cs) =
      let s = step advance i inp (r, ws) in
      elim (step-place i inp r ws c) [
        | inr f ↦
            inr (interleave-Failed crew chunks advance Calm Failed stays refines steps s.0 s.1 f)
        | inl e ↦ elim (interleave-place steps s.0 s.1 cs) [ inr f ↦ inr f | inl q ↦ inl (q ∙ e) ]
      ]
