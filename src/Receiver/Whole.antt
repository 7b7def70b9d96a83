-- ===== src/Receiver/Whole.antt =====
-- What finalizeReceiverSession publishes.
use multi_send.Base.{
  ℕ, zero, suc, ◌+◌, ◌≤◌, ◌≡◌, refl, sym, ap, ◌++◌, List, [], ◌∷◌, some, length, arith,
}
use multi_send.Base.Int.{pos, eq_ℤ_refl}
use multi_send.Base.Text.{Text}
use multi_send.Manifest.{ChunkState}
use multi_send.Receiver.{Part, find_part}
use multi_send.Receiver.Finalize.{merge_parts}

-- The bytes of a source from an offset on.
unfoldable pub drop : ℕ → List ℕ → List ℕ
drop zero s = s
drop (suc n) [] = []
drop (suc n) (b ∷ s) = drop n s

unfoldable pub take : ℕ → List ℕ → List ℕ
take zero s = []
take (suc n) [] = []
take (suc n) (b ∷ s) = b ∷ take n s

take-drop : (n : ℕ) (s : List ℕ) → take n s ++ drop n s ≡ s
unfolding take drop
take-drop zero s = refl
take-drop (suc n) [] = refl
take-drop (suc n) (b ∷ s) = ap (λ x. b ∷ x) (take-drop n s)

drop_nothing : (n : ℕ) → drop n [] ≡ []
unfolding drop
drop_nothing zero = refl
drop_nothing (suc n) = refl

drop-drop : (m n : ℕ) (s : List ℕ) → drop n (drop m s) ≡ drop (m + n) s
unfolding drop
drop-drop zero n s = ap (λ k. drop k s) (omega arith)
drop-drop (suc m) n [] = rw (drop_nothing n, drop_nothing (suc m + n)) refl
drop-drop (suc m) n (b ∷ s) =
    let e : suc m + n ≡ suc (m + n) = omega arith in rw e (drop-drop m n s)

length-take : (n : ℕ) (s : List ℕ) → n ≤ length s → length (take n s) ≡ n
unfolding take
length-take zero s h = refl
length-take (suc n) [] h = absurd (omega arith)
length-take (suc n) (b ∷ s) h = omega (arith, length-take n s (omega arith))

length-drop : (n : ℕ) (s : List ℕ) → n ≤ length s → length (drop n s) + n ≡ length s
unfolding drop
length-drop zero s h = omega arith
length-drop (suc n) [] h = absurd (omega arith)
length-drop (suc n) (b ∷ s) h = omega (arith, length-drop n s (omega arith))

drop_all : (s : List ℕ) → drop (length s) s ≡ []
unfolding drop
drop_all [] = refl
drop_all (b ∷ s) = drop_all s

-- From an offset on, the chunks follow each other to the end of the source, and the file of each
-- holds its bytes.
abbrev pub HoldSource : Text → List Part → List ℕ → ℕ → List ChunkState → Type 0
HoldSource name parts source offset [] = offset ≡ length source
HoldSource name parts source offset (c ∷ cs) =
    (size : ℕ) × (c.offset ≡ pos offset)
    × (c.size ≡ pos size)
    × (find_part name c.index parts ≡ some (take size (drop offset source)))
    × HoldSource name parts source (offset + size) cs

HoldSource-length :
    (name : Text) (parts : List Part) (source : List ℕ) (offset : ℕ) (cs : List ChunkState)
    → HoldSource name parts source offset cs
    → offset ≤ length source
HoldSource-length name parts source offset [] h = omega arith
HoldSource-length name parts source offset (c ∷ cs) (size, o, s, f, h) =
    omega (arith, HoldSource-length name parts source (offset + size) cs h)

pub merge_parts-HoldSource :
    (name : Text) (parts : List Part) (source : List ℕ) (offset : ℕ) (cs : List ChunkState)
    → HoldSource name parts source offset cs
    → merge_parts name parts cs ≡ some (drop offset source)
unfolding merge_parts
merge_parts-HoldSource name parts source offset [] h = rw h (ap some (sym (drop_all source)))
merge_parts-HoldSource name parts source offset (c ∷ cs) (size, o, s, f, h) =
    let end = HoldSource-length name parts source (offset + size) cs h in
    let fits : size ≤ length (drop offset source) =
      omega (arith, length-drop offset source (omega arith)) in
    rw
      (
        s,
        f,
        length-take size (drop offset source) fits,
        eq_ℤ_refl (pos size),
        merge_parts-HoldSource name parts source (offset + size) cs h,
        sym (drop-drop offset size source),
        take-drop size (drop offset source),
      )
      refl
