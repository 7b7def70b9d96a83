-- ===== src/Ports/Picking.antt =====
-- PickTCP and PickUDP: the loop ends, with the first port that can be used.
use multi_send.Base.{
  ◌∙◌, ℕ, zero, suc, ◌+◌, ◌≤◌, ◌<◌, ◌≡◌, refl, subst, Bool, true, false, List, Option, some, arith,
  Result, ok, err, Bool-cases, inl, inr, ◌⊎◌,
}
use multi_send.Base.Int.{ℤ, pos, negsuc, sub_ℕ, lt_ℤ, add64, wrap64_id}
use multi_send.Ports.{
  Range, RangeError, no_available_port, is_valid_port, normalize_valid_range, is_excluded,
  excluded_ranges, pick_from, pick_in, pick_port,
}
use multi_send.Ports.Parsing.{IsRange, IsOkRange, normalize_valid_range-IsRange}

from : (n k : ℕ) → n ≤ k → (n ≡ k) ⊎ (suc n ≤ k)
from n k h = ground arith

module _ (available : ℤ → Bool) (ex : List Range) where
  -- A port that is passed over.
  abbrev pub IsTaken : ℕ → Type 0
  IsTaken k = (is_excluded (pos k) ex ≡ true) ⊎ (available (pos k) ≡ false)

  -- What is picked from n to m: the first port that is not taken, or an error if all are.
  abbrev pub IsPicked : ℕ → ℕ → Result RangeError ℤ → Type 0
  IsPicked n m (ok port) =
      (q : ℕ) × (port ≡ pos q)
      × (n ≤ q)
      × (q ≤ m)
      × (is_excluded (pos q) ex ≡ false)
      × (available (pos q) ≡ true)
      × ((k : ℕ) → n ≤ k → k < q → IsTaken k)
  IsPicked n m (err e) = (k : ℕ) → n ≤ k → k ≤ m → IsTaken k

  IsPicked-suc :
      (n m : ℕ) (r : Result RangeError ℤ) → IsTaken n → IsPicked (suc n) m r → IsPicked n m r
  IsPicked-suc n m (ok port) t (q, e, lo, hi, x, a, before) = (
    q,
    e,
    omega arith,
    hi,
    x,
    a,
    λ k l u. elim (from n k l) [ inl same ↦ subst IsTaken same t | inr later ↦ before k later u ],
  )
  IsPicked-suc n m (err e) t h =
      λ k l u. elim (from n k l) [ inl same ↦ subst IsTaken same t | inr later ↦ h k later u ]

  next_port : (n : ℕ) → n ≤ 65535 → add64 (pos n) (pos 1) ≡ pos (suc n)
  unfolding add64
  next_port n h = wrap64_id (sub_ℕ (n + 1) 0) (ground arith) ∙ (ground arith)

  pick_from_lem :
      (rounds n m : ℕ)
      → 1 ≤ n
      → n ≤ m + 1
      → m ≤ 65535
      → m + 2 ≤ rounds + n
      → (r : Result RangeError ℤ) × (pick_from rounds available ex (pos n) (pos m) ≡ some r)
        × IsPicked n m r
  unfolding pick_from
  pick_from_lem zero n m lo up hi h = absurd (omega arith)
  pick_from_lem (suc rounds) n m lo up hi h = elim (Bool-cases (lt_ℤ (pos m) (pos n))) [
    | inl e ↦ (err no_available_port, rw e refl, λ k l u. ground arith)
    | inr e ↦
        let low : n ≤ m = ground arith in
        let (r, later, picked) =
          pick_from_lem rounds (suc n) m (omega arith) (omega arith) hi (omega arith) in
        elim (Bool-cases (is_excluded (pos n) ex)) [
          | inl x ↦
              (r, rw (e, x, next_port n (omega arith)) later, IsPicked-suc n m r (inl x) picked)
          | inr x ↦
              let valid : is_valid_port (pos n) ≡ true = ground arith in
              elim (Bool-cases (available (pos n))) [
                | inl a ↦ (
                  ok (pos n),
                  rw (e, x, valid, a) refl,
                  (n, refl, omega arith, low, x, a, λ k l u. absurd (omega arith)),
                )
                | inr a ↦ (
                  r,
                  rw (e, x, valid, a, next_port n (omega arith)) later,
                  IsPicked-suc n m r (inr a) picked,
                )
              ]
        ]
  ]

-- What PickTCP or PickUDP comes to.
abbrev pub IsPortOf : (ℤ → Bool) → List Range → Range → Option (Result RangeError ℤ) → Type 0
IsPortOf available ex r o =
    ((e : RangeError) × (normalize_valid_range r ≡ err e) × (o ≡ some (err e)))
    ⊎ ((n : ℕ) × (m : ℕ) × (picked : Result RangeError ℤ) × (normalize_valid_range r
          ≡ ok (record { start = pos n; end = pos m }))
        × (o ≡ some picked)
        × IsPicked available ex n m picked)

picked_lem :
    (available : ℤ → Bool) (ex : List Range) (r : Range) (s e : ℤ)
    → IsRange (record { start = s; end = e })
    → normalize_valid_range r ≡ ok (record { start = s; end = e })
    → IsPortOf available ex r (pick_from 65536 available ex s e)
picked_lem available ex r (pos n) (pos m) (lo, up, hi) same =
    let (picked, e, h) =
      pick_from_lem available ex 65536 n m (omega arith) (omega arith) (omega arith)
        (omega arith) in
    inr (n, m, picked, same, e, h)
picked_lem available ex r (negsuc n) e (lo, up, hi) same = absurd (omega arith)
picked_lem available ex r (pos n) (negsuc m) (lo, up, hi) same = absurd (omega arith)

pick_in_lem :
    (available : ℤ → Bool) (pairs : List (ℤ × ℤ)) (r : Range) (q : Result RangeError Range)
    → IsOkRange q
    → normalize_valid_range r ≡ q
    → IsPortOf available (excluded_ranges pairs) r (pick_in 65536 available pairs q)
pick_in_lem available pairs r (err e) h same = inl (e, same, refl)
pick_in_lem available pairs r (ok q) h same =
    picked_lem available (excluded_ranges pairs) r q.start q.end h same

-- PickTCP and PickUDP end within 65536 rounds. They refuse a range with a bound that is no port; or
-- pick the first port of the range that is neither excluded by the system nor in use; or report an
-- error, and then every port of the range is excluded or in use.
pub pick_port_lem :
    (available : ℤ → Bool) (pairs : List (ℤ × ℤ)) (r : Range)
    → IsPortOf available (excluded_ranges pairs) r (pick_port 65536 available pairs r)
unfolding pick_port
pick_port_lem available pairs r =
    pick_in_lem available pairs r (normalize_valid_range r) (normalize_valid_range-IsRange r) refl
