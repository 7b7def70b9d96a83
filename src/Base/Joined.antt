-- ===== src/Base/Joined.antt =====
-- Texts joined by a NUL byte, and when they can be told apart again.
use multi_send.Base.{◌<◌, ◌≡◌, refl, List, [], ◌∷◌, ◌++◌, arith, All, length}
use multi_send.Base.Text.{Text}

unfoldable pub join_nul : List Text → Text
join_nul [] = []
join_nul (s ∷ []) = s
join_nul (s ∷ t ∷ ts) = s ++ 0 ∷ join_nul (t ∷ ts)

-- No byte is NUL.
abbrev pub HasNoNul : Text → Type 0
HasNoNul = All (λ c. 0 < c)

split_first :
    (x y r s : Text) → HasNoNul x → HasNoNul y → x ++ 0 ∷ r ≡ y ++ 0 ∷ s → (x ≡ y) × (r ≡ s)
split_first [] [] r s hx hy e = (refl, cc)
split_first [] (d ∷ y) r s hx (p, hy) e = let q : d ≡ 0 = cc in absurd (omega arith)
split_first (c ∷ x) [] r s (p, hx) hy e = let q : c ≡ 0 = cc in absurd (omega arith)
split_first (c ∷ x) (d ∷ y) r s (p, hx) (q, hy) e =
    let (same, rest) = split_first x y r s hx hy (cc) in (cc, rest)

-- As many texts without NUL, joined to the same bytes, are the same texts.
pub join_nul-injective :
    (xs ys : List Text)
    → All HasNoNul xs
    → All HasNoNul ys
    → length xs ≡ length ys
    → join_nul xs ≡ join_nul ys
    → xs ≡ ys
unfolding join_nul
join_nul-injective [] [] hx hy l e = refl
join_nul-injective [] (y ∷ ys) hx hy l e = absurd (omega arith)
join_nul-injective (x ∷ xs) [] hx hy l e = absurd (omega arith)
join_nul-injective (x ∷ []) (y ∷ []) hx hy l e = cc
join_nul-injective (x ∷ []) (y ∷ y' ∷ ys) hx hy l e = absurd (omega arith)
join_nul-injective (x ∷ x' ∷ xs) (y ∷ []) hx hy l e = absurd (omega arith)
join_nul-injective (x ∷ x' ∷ xs) (y ∷ y' ∷ ys) (p, hx) (q, hy) l e =
    let (same, rest) = split_first x y (join_nul (x' ∷ xs)) (join_nul (y' ∷ ys)) p q e in
    let tails = join_nul-injective (x' ∷ xs) (y' ∷ ys) hx hy (omega arith) rest in cc
