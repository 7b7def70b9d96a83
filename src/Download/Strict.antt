-- ===== src/Download/Strict.antt =====
-- What a strict split promises: the cable gets its percentage of the chunks, rounded.
use multi_send.Base.{
  ℕ, zero, suc, ◌+◌, ◌*◌, ◌||◌, leb, ◌/◌, ◌-◌, ◌≤◌, ◌<◌, ◌≡◌, ◌≢◌, refl, sym, ap, ◌∙◌, List, [],
  ◌∷◌, String, arith, All, if◌then◌else◌, length, Bool-cases, inl, inr,
}
use multi_send.Base.Int.{ℤ, pos, negsuc, pos_part, le_ℤ, lt_ℤ, add64, sub64, wrap64, sub_ℕ}
use multi_send.Base.Dict.{str_eq}
use multi_send.Base.Sort.{sort_by, insert_by, All-insert_by, All-sort_by, length-sort_by}
use multi_send.Manifest.{ChunkState, by_index}
use multi_send.Manifest.Distinct.{Distinct}
use multi_send.Download.{Assignment, assign, strict_plan_from, build_strict_plan, cable_share}

-- How many of the first n chunks the plan gives to the cable.
abbrev pub cable_count : Assignment → ℕ → List ChunkState → ℕ
cable_count plan zero cs = 0
cable_count plan (suc n) [] = 0
cable_count plan (suc n) (c ∷ cs) =
    let rest = cable_count plan n cs in if str_eq (plan c.index) "cable" then suc rest else rest

-- An index that no chunk has keeps what the plan says.
strict_plan_from_other :
    (pct : ℤ) (cs : List ChunkState) (a b : ℤ) (plan : Assignment) (i : ℤ)
    → All (λ d. d.index ≢ i) cs
    → strict_plan_from pct a b plan cs i ≡ plan i
unfolding strict_plan_from
strict_plan_from_other pct [] a b plan i h = refl
strict_plan_from_other pct (c ∷ cs) a b plan i (p, h) =
    strict_plan_from_other pct cs _ _ (assign plan c.index _) i h ∙ ground arith

-- The two scores always add up to 0: they are u - 50 and 50 - u, for a u below 100.
abbrev turn : ℕ → ℕ
turn v = if leb 100 v then v - 100 else v

abbrev label : ℕ → String
label v = if leb 100 v then "cable" else "wifi"

by_cable_lem :
    (pct u : ℕ)
    → pct ≤ 100
    → u < 100
    → le_ℤ (add64 (sub_ℕ 50 u) (sub64 (pos 100) (pos pct))) (add64 (sub_ℕ u 50) (pos pct))
      ≡ leb 100 (u + pct)
unfolding add64 sub64 wrap64
by_cable_lem pct u h k = ground arith

cable_score_lem :
    (pct u : ℕ)
    → pct ≤ 100
    → u < 100
    → (if leb 100 (u + pct)
        then sub64 (add64 (sub_ℕ u 50) (pos pct)) (pos 100)
        else add64 (sub_ℕ u 50) (pos pct))
      ≡ sub_ℕ (turn (u + pct)) 50
unfolding add64 sub64 wrap64
cable_score_lem pct u h k = ground arith

wifi_score_lem :
    (pct u : ℕ)
    → pct ≤ 100
    → u < 100
    → (if leb 100 (u + pct)
        then add64 (sub_ℕ 50 u) (sub64 (pos 100) (pos pct))
        else sub64 (add64 (sub_ℕ 50 u) (sub64 (pos 100) (pos pct))) (pos 100))
      ≡ sub_ℕ 50 (turn (u + pct))
unfolding add64 sub64 wrap64
wifi_score_lem pct u h k = ground arith

strict_plan_from_step :
    (pct u : ℕ) (plan : Assignment) (c : ChunkState) (cs : List ChunkState)
    → pct ≤ 100
    → u < 100
    → strict_plan_from (pos pct) (sub_ℕ u 50) (sub_ℕ 50 u) plan (c ∷ cs)
      ≡ strict_plan_from
          (pos pct)
          (sub_ℕ (turn (u + pct)) 50)
          (sub_ℕ 50 (turn (u + pct)))
          (assign plan c.index (label (u + pct)))
          cs
unfolding strict_plan_from
strict_plan_from_step pct u plan c cs h k =
    rw (by_cable_lem pct u h k, cable_score_lem pct u h k, wifi_score_lem pct u h k) refl

label_count :
    (v n k : ℕ) → (if str_eq (label v) "cable" then suc n else n) ≡ (if leb 100 v then suc n else n)
label_count v n k = elim (Bool-cases (leb 100 v)) [ inl e ↦ rw e refl | inr e ↦ rw e refl ]

round_step :
    (m v : ℕ)
    → v < 200
    → (if leb 100 v then suc ((m + turn v) / 100) else (m + turn v) / 100) ≡ (m + v) / 100
round_step m v h = ground arith

cable_count_lem :
    (pct : ℕ) (cs : List ChunkState) (n u : ℕ) (plan : Assignment)
    → pct ≤ 100
    → u < 100
    → Distinct cs
    → n ≤ length cs
    → cable_count (strict_plan_from (pos pct) (sub_ℕ u 50) (sub_ℕ 50 u) plan cs) n cs
      ≡ (n * pct + u) / 100
cable_count_lem pct cs zero u plan h k d l = omega arith
cable_count_lem pct [] (suc n) u plan h k d l = absurd (omega arith)
cable_count_lem pct (c ∷ cs) (suc n) u plan h k (d, ds) l =
    let v = u + pct in
    let given : strict_plan_from (pos pct) (sub_ℕ (turn v) 50) (sub_ℕ 50 (turn v))
          (assign plan c.index (label v)) cs c.index
        ≡ label v =
      strict_plan_from_other (pos pct) cs _ _ (assign plan c.index (label v)) c.index d
      ∙ ground arith in
    let rest =
      cable_count_lem pct cs n (turn v) (assign plan c.index (label v)) h (ground arith) ds
        (omega arith) in
    ap (λ p. cable_count p (suc n) (c ∷ cs)) (strict_plan_from_step pct u plan c cs h k)
    ∙ counted _ given rest
  where
    counted :
        (p : Assignment)
        → p c.index ≡ label (u + pct)
        → cable_count p n cs ≡ (n * pct + turn (u + pct)) / 100
        → cable_count p (suc n) (c ∷ cs) ≡ (suc n * pct + u) / 100
    counted p e r =
        rw (e, r)
          (label_count (u + pct) _ 0
            ∙ round_step (n * pct) (u + pct) (omega arith)
            ∙ ap (λ m. m / 100) (omega arith))

insert_by-Distinct :
    (c : ChunkState) (cs : List ChunkState)
    → All (λ d. d.index ≢ c.index) cs
    → Distinct cs
    → Distinct (insert_by by_index c cs)
unfolding insert_by
insert_by-Distinct c [] h d = (tt, tt)
insert_by-Distinct c (e ∷ cs) (q, h) (a, d) = elim (Bool-cases (lt_ℤ e.index c.index)) [
  | inl lt ↦ rw lt (
    All-insert_by by_index (λ x. x.index ≢ e.index) c cs (λ k. q (sym k)) a,
    insert_by-Distinct c cs h d,
  )
  | inr ge ↦ rw ge ((q, h), (a, d))
]

sort_by-Distinct : (cs : List ChunkState) → Distinct cs → Distinct (sort_by by_index cs)
unfolding sort_by
sort_by-Distinct [] d = tt
sort_by-Distinct (c ∷ cs) (a, d) =
    insert_by-Distinct c (sort_by by_index cs) (All-sort_by by_index (λ x. x.index ≢ c.index) cs a)
      (sort_by-Distinct cs d)

cable_share_range : (pct : ℤ) → (p : ℕ) × (cable_share pct ≡ pos p) × (p ≤ 100)
unfolding cable_share
cable_share_range (pos p) = elim (Bool-cases (leb p 0 || leb 100 p)) [
  | inl e ↦ (50, ground arith, omega arith)
  | inr e ↦ (p, ground arith, ground arith)
]
cable_share_range (negsuc n) = (50, ground arith, omega arith)

-- In the order of the indices, the first n chunks of a strict plan hold n times the cable's
-- percentage of chunks for the cable, rounded to the nearest whole number, for every n; a percentage
-- outside 1 to 99 counts as 50. The indices are distinct.
pub build_strict_plan_share :
    (chunks : List ChunkState) (pct : ℤ) (n : ℕ)
    → Distinct chunks
    → n ≤ length chunks
    → cable_count (build_strict_plan chunks pct) n (sort_by by_index chunks)
      ≡ (n * pos_part (cable_share pct) + 50) / 100
unfolding build_strict_plan
build_strict_plan_share chunks pct n d l =
    let (p, share, small) = cable_share_range pct in
    rw share (
      cable_count_lem p (sort_by by_index chunks) n 50 (λ i. "") small (omega arith)
        (sort_by-Distinct chunks d) (omega (arith, length-sort_by by_index chunks)))
