-- ===== src/Base/Sort.antt =====
-- `sort.Slice(xs, func(i, j) bool { return key(xs[i]) < key(xs[j]) })`, as an insertion sort.
-- (Go's sort is not stable: among equal keys this is one of the orders that it may give.)
use mathlib.Core.List.Perm
use mathlib.Core.List.{Perm}
use multi_send.Base.{
  suc, ◌≡◌, refl, List, [], ◌∷◌, All, Bool-cases, inl, inr, arith, length, if◌then◌else◌,
}
use multi_send.Base.Int.{ℤ, lt_ℤ, ◌≤ℤ◌}

module _ {ℓ} {A : Type ℓ} (key : A → ℤ) where
  unfoldable pub insert_by : A → List A → List A
  insert_by x [] = x ∷ []
  insert_by x (y ∷ ys) =
      let later = insert_by x ys in if lt_ℤ (key y) (key x) then y ∷ later else x ∷ y ∷ ys

  unfoldable pub sort_by : List A → List A
  unfolding insert_by
  sort_by [] = []
  sort_by (x ∷ xs) = insert_by x (sort_by xs)

  -- The keys never fall.
  abbrev pub IsSorted : List A → Type 0
  IsSorted [] = Unit
  IsSorted (x ∷ xs) = All (λ y. key x ≤ℤ key y) xs × IsSorted xs

  pub All-insert_by {κ} :
      (P : A → Type κ) (x : A) (xs : List A) → P x → All P xs → All P (insert_by x xs)
  unfolding insert_by
  All-insert_by P x [] p h = (p, tt)
  All-insert_by P x (y ∷ ys) p h = elim (Bool-cases (lt_ℤ (key y) (key x))) [
    | inl lt ↦ rw lt (h.0, All-insert_by P x ys p h.1)
    | inr ge ↦ rw ge (p, h)
  ]

  pub All-sort_by {κ} : (P : A → Type κ) (xs : List A) → All P xs → All P (sort_by xs)
  unfolding sort_by
  All-sort_by P [] h = tt
  All-sort_by P (x ∷ xs) h = All-insert_by P x (sort_by xs) h.0 (All-sort_by P xs h.1)

  All-le_trans :
      (x y : A) (xs : List A)
      → key x ≤ℤ key y
      → All (λ z. key y ≤ℤ key z) xs
      → All (λ z. key x ≤ℤ key z) xs
  All-le_trans x y [] h a = tt
  All-le_trans x y (z ∷ zs) h a = (omega arith, All-le_trans x y zs h a.1)

  insert_by-IsSorted : (x : A) (xs : List A) → IsSorted xs → IsSorted (insert_by x xs)
  unfolding insert_by
  insert_by-IsSorted x [] s = (tt, tt)
  insert_by-IsSorted x (y ∷ ys) s = elim (Bool-cases (lt_ℤ (key y) (key x))) [
    | inl lt ↦
        rw lt
          (All-insert_by (λ z. key y ≤ℤ key z) x ys (ground arith) s.0, insert_by-IsSorted x ys s.1)
    | inr ge ↦ rw ge ((ground arith, All-le_trans x y ys (ground arith) s.0), s)
  ]

  pub sort_by-IsSorted : (xs : List A) → IsSorted (sort_by xs)
  unfolding sort_by
  sort_by-IsSorted [] = tt
  sort_by-IsSorted (x ∷ xs) = insert_by-IsSorted x (sort_by xs) (sort_by-IsSorted xs)

  insert_by-perm : (x : A) (xs : List A) → Perm (insert_by x xs) (x ∷ xs)
  unfolding insert_by
  insert_by-perm x [] = Perm.rfl
  insert_by-perm x (y ∷ ys) = elim (Bool-cases (lt_ℤ (key y) (key x))) [
    | inl lt ↦ rw lt (Perm.trans (Perm.cons y (insert_by-perm x ys)) (Perm.swap x y ys))
    | inr ge ↦ rw ge Perm.rfl
  ]

  pub sort_by-perm : (xs : List A) → Perm (sort_by xs) xs
  unfolding sort_by
  sort_by-perm [] = Perm.rfl
  sort_by-perm (x ∷ xs) = Perm.trans (insert_by-perm x (sort_by xs)) (Perm.cons x (sort_by-perm xs))

  length-insert_by : (x : A) (xs : List A) → length (insert_by x xs) ≡ suc (length xs)
  unfolding insert_by
  length-insert_by x [] = refl
  length-insert_by x (y ∷ ys) = ground (arith, length-insert_by x ys)

  pub length-sort_by : (xs : List A) → length (sort_by xs) ≡ length xs
  unfolding sort_by
  length-sort_by [] = refl
  length-sort_by (x ∷ xs) = omega (arith, length-insert_by x (sort_by xs), length-sort_by xs)
