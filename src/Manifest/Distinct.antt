-- ===== src/Manifest/Distinct.antt =====
-- Chunks with distinct indices, and updates of one of them.
use multi_send.Base.{◌≡◌, ◌≢◌, sym, subst, ◌∙◌, List, [], ◌∷◌, All, Bool-cases, inl, inr, map}
use multi_send.Base.Int.{ℤ, eq_ℤ, eq_ℤ_iff}
use multi_send.Manifest.{ChunkState, update_chunk}

-- No index stands twice.
abbrev pub Distinct : List ChunkState → Type 0
Distinct [] = Unit
Distinct (c ∷ cs) = All (λ d. d.index ≢ c.index) cs × Distinct cs

-- An update reaches the one chunk with the index and leaves the others.
pub All-update-Distinct :
    (P Q : ChunkState → Type 0) (i : ℤ) (f : ChunkState → ChunkState)
    → ((c : ChunkState) → c.index ≡ i → P c → Q (f c))
    → ((c : ChunkState) → c.index ≢ i → P c → Q c)
    → (cs : List ChunkState) → Distinct cs
    → All P cs
    → All Q (update_chunk i f cs)
unfolding update_chunk
All-update-Distinct P Q i f hit miss [] d h = tt
All-update-Distinct P Q i f hit miss (c ∷ cs) (a, d) (p, h) = elim (Bool-cases (eq_ℤ c.index i)) [
  | inl e ↦
      let same = (eq_ℤ_iff c.index i).0 e in
      rw e (hit c same p, others cs (subst (λ j. All (λ x. x.index ≢ j) cs) same a) h)
  | inr e ↦
      rw e
        (miss c (λ q. cc ((eq_ℤ_iff c.index i).1 q)) p, All-update-Distinct P Q i f hit miss cs d h)
]
  where
    others : (xs : List ChunkState) → All (λ x. x.index ≢ i) xs → All P xs → All Q xs
    others [] a h = tt
    others (x ∷ xs) (q, a) (p, h) = (miss x q p, others xs a h)

pub Distinct-update :
    (i : ℤ) (f : ChunkState → ChunkState)
    → ((c : ChunkState) → (f c).index ≡ c.index)
    → (cs : List ChunkState) → Distinct cs
    → Distinct (update_chunk i f cs)
unfolding update_chunk
Distinct-update i f same [] d = tt
Distinct-update i f same (c ∷ cs) (a, d) = elim (Bool-cases (eq_ℤ c.index i)) [
  | inl e ↦ rw e (subst (λ j. All (λ x. x.index ≢ j) cs) (sym (same c)) a, d)
  | inr e ↦ rw e (elsewhere c.index cs a, Distinct-update i f same cs d)
]
  where
    elsewhere :
        (j : ℤ) (xs : List ChunkState)
        → All (λ x. x.index ≢ j) xs
        → All (λ x. x.index ≢ j) (update_chunk i f xs)
    elsewhere j [] a = tt
    elsewhere j (x ∷ xs) (q, a) = elim (Bool-cases (eq_ℤ x.index i)) [
      | inl e ↦ rw e ((λ p. q (sym (same x) ∙ p)), a)
      | inr e ↦ rw e (q, elsewhere j xs a)
    ]

pub Distinct-map :
    (f : ChunkState → ChunkState)
    → ((c : ChunkState) → (f c).index ≡ c.index)
    → (cs : List ChunkState) → Distinct cs
    → Distinct (map f cs)
Distinct-map f same [] d = tt
Distinct-map f same (c ∷ cs) (a, d) = (
  subst (λ j. All (λ x. x.index ≢ j) (map f cs)) (sym (same c)) (apart c.index cs a),
  Distinct-map f same cs d,
)
  where
    apart :
        (j : ℤ) (xs : List ChunkState)
        → All (λ x. x.index ≢ j) xs
        → All (λ x. x.index ≢ j) (map f xs)
    apart j [] a = tt
    apart j (x ∷ xs) (q, a) = ((λ p. q (sym (same x) ∙ p)), apart j xs a)

pub All-map :
    (P Q : ChunkState → Type 0) (f : ChunkState → ChunkState)
    → ((c : ChunkState) → P c → Q (f c))
    → (cs : List ChunkState) → All P cs
    → All Q (map f cs)
All-map P Q f k [] h = tt
All-map P Q f k (c ∷ cs) (p, h) = (k c p, All-map P Q f k cs h)
