-- ===== src/Receiver/Honest.antt =====
-- What the parts hold when every payload is what its header says.
use multi_send.Base.{
  ◌||◌, &&_iff, ◌↔◌, ℕ, ◌≡◌, refl, sym, ap, ◌∙◌, ◌++◌, true, false, not, ◌&&◌, List, [], ◌∷◌,
  Option, none, some, if◌then◌else◌, map, All, Bool-cases, inl, inr,
}
use multi_send.Base.Int.{ℤ, pos, eq_ℤ, eq_ℤ_iff}
use multi_send.Base.Text.{Text, same_text, same_text_iff}
use multi_send.Proto.{Header}
use multi_send.Manifest.{
  Manifest, ChunkState, get_chunk, update_chunk, mark_done, as_done, load, normalize_chunk,
  normalize_for_resume,
}
use multi_send.Receiver.{Part, is_part, find_part, put_part, Place}
use multi_send.Receiver.Whole.{take, drop}
use multi_send.Receiver.Chunks.{
  is_of_header, new_receiver_manifest, Arrival, copy_n, manifest_for, received_chunk, record_chunk,
  recorded, saved, update_manifest_file,
}

-- A file, and where a sender cuts it: the offset and the size of each chunk.
pub record Layout : Type 0 where
  pub name : Text
  pub source : List ℕ
  pub offset_of : ℤ → ℕ
  pub size_of : ℤ → ℕ

abbrev pub slice : Layout → ℤ → List ℕ
slice l i = take (l.size_of i) (drop (l.offset_of i) l.source)

-- Every part of the file's name holds the bytes of its chunk.
abbrev pub HoldSlices : Layout → List Part → Type 0
HoldSlices l ps =
    (i : ℤ) (content : List ℕ) → find_part l.name i ps ≡ some content → content ≡ slice l i

-- A chunk of the layout, whose part is there.
abbrev pub IsHeld : Layout → List Part → ChunkState → Type 0
IsHeld l ps c =
    (c.offset ≡ pos (l.offset_of c.index))
    × (c.size ≡ pos (l.size_of c.index))
    × (find_part l.name c.index ps ≡ some (slice l c.index))

abbrev pub AreHeld : Layout → List Part → Option Manifest → Type 0
AreHeld l ps none = Unit
AreHeld l ps (some m) = All (IsHeld l ps) m.chunks

abbrev pub IsHonest : Layout → Place → Type 0
IsHonest l p = HoldSlices l p.parts × AreHeld l p.parts p.manifest

-- A header of the layout, with a payload that begins with its chunk's bytes.
abbrev pub IsFaithful : Layout → Arrival → Header → Type 0
IsFaithful l a h =
    (a.name ≡ l.name)
    × (h.offset ≡ pos (l.offset_of h.chunk_index))
    × (h.part_size ≡ pos (l.size_of h.chunk_index))
    × (copy_n (l.size_of h.chunk_index) a.payload ≡ some (slice l h.chunk_index))

pub is_part_iff :
    (name : Text) (i : ℤ) (p : Part) → (is_part name i p ≡ true) ↔ ((p.name ≡ name) × (p.index ≡ i))
is_part_iff name i p = (
  λ h.
      let (n, k) = (&&_iff (same_text p.name name) (eq_ℤ p.index i)).0 h in
      ((same_text_iff p.name name).0 n, (eq_ℤ_iff p.index i).0 k),
  λ (n, k).
      (&&_iff (same_text p.name name) (eq_ℤ p.index i)).1
        ((same_text_iff p.name name).1 n, (eq_ℤ_iff p.index i).1 k),
)

same_key :
    (new p : Part) (name : Text) (i : ℤ)
    → is_part new.name new.index p ≡ true
    → is_part name i p ≡ is_part name i new
same_key new p name i h =
    let (n, k) = (is_part_iff new.name new.index p).0 h in
    ap (λ x. same_text x name && eq_ℤ p.index i) n ∙ ap (λ x. same_text new.name name && eq_ℤ x i) k

not_both :
    (new p : Part) (name : Text) (i : ℤ)
    → is_part new.name new.index p ≡ false
    → is_part name i p ≡ true
    → is_part name i new ≡ false
not_both new p name i h e = elim (Bool-cases (is_part name i new)) [
  | inr y ↦ y
  | inl y ↦
      let (n, k) = (is_part_iff name i p).0 e in
      let (n', k') = (is_part_iff name i new).0 y in
      absurd (let q = (is_part_iff new.name new.index p).1 (n ∙ sym n', k ∙ sym k') in cc)
]

pub find_part-put_part_other :
    (new : Part) (name : Text) (i : ℤ) (ps : List Part)
    → find_part name i (put_part new ps)
      ≡ (if is_part name i new then some new.content else find_part name i ps)
unfolding find_part put_part
find_part-put_part_other new name i [] = refl
find_part-put_part_other new name i (p ∷ ps) = elim (Bool-cases (is_part new.name new.index p)) [
  | inl x ↦
      let same = same_key new p name i x in
      elim (Bool-cases (is_part name i new)) [
        | inl y ↦ rw (x, y) refl
        | inr y ↦ let z : is_part name i p ≡ false = same ∙ y in rw (x, y, z) refl
      ]
  | inr x ↦ elim (Bool-cases (is_part name i p)) [
    | inl y ↦ let z = not_both new p name i x y in rw (x, y, z) refl
    | inr y ↦ rw (x, y) (find_part-put_part_other new name i ps)
  ]
]

update_chunk-All :
    (P : ChunkState → Type 0) (i : ℤ) (f : ChunkState → ChunkState)
    → ((c : ChunkState) → P c → P (f c))
    → (cs : List ChunkState) → All P cs
    → All P (update_chunk i f cs)
unfolding update_chunk
update_chunk-All P i f k [] h = tt
update_chunk-All P i f k (c ∷ cs) (p, h) = elim (Bool-cases (eq_ℤ c.index i)) [
  | inl e ↦ rw e (k c p, h)
  | inr e ↦ rw e (p, update_chunk-All P i f k cs h)
]

All-snoc :
    (P : ChunkState → Type 0) (c : ChunkState) (cs : List ChunkState)
    → All P cs
    → P c
    → All P (cs ++ c ∷ [])
All-snoc P c [] h p = (p, tt)
All-snoc P c (d ∷ cs) (q, h) p = (q, All-snoc P c cs h p)

module _ (l : Layout) where
  record_chunk-AreHeld :
      (o : Option ChunkState) (a : Arrival) (h : Header) (written : ℤ) (m : Manifest)
      (ps : List Part)
      → IsFaithful l a h
      → find_part l.name h.chunk_index ps ≡ some (slice l h.chunk_index)
      → All (IsHeld l ps) m.chunks
      → AreHeld l ps (record_chunk o a h written m)
  unfolding mark_done
  record_chunk-AreHeld none a h written m ps (n, o, s, y) f held =
      All-snoc (IsHeld l ps) (received_chunk h written) m.chunks held (o, s, f)
  record_chunk-AreHeld (some c) a h written m ps faithful f held =
      elim (Bool-cases (not (eq_ℤ c.offset h.offset) || not (eq_ℤ c.size h.part_size))) [
        | inl e ↦ rw e tt
        | inr e ↦ rw e (
            update_chunk-All (IsHeld l ps) h.chunk_index (as_done a.now written []) (λ c p. p)
              m.chunks held)
      ]

  normalized-AreHeld :
      (k : ℤ) (ps : List Part) (cs : List ChunkState)
      → All (IsHeld l ps) cs
      → All (IsHeld l ps) (map (normalize_chunk k) cs)
  normalized-AreHeld k ps [] h = tt
  normalized-AreHeld k ps (c ∷ cs) (p, h) = (p, normalized-AreHeld k ps cs h)

  pub load-AreHeld : (ps : List Part) (o : Option Manifest) → AreHeld l ps o → AreHeld l ps (load o)
  unfolding load normalize_for_resume
  load-AreHeld ps none h = tt
  load-AreHeld ps (some m) h = normalized-AreHeld (pos 3) ps m.chunks h

  pub update_manifest_file-IsHonest :
      (a : Arrival) (h : Header) (written : ℤ) (p : Place)
      → IsFaithful l a h
      → IsHonest l p
      → find_part l.name h.chunk_index p.parts ≡ some (slice l h.chunk_index)
      → IsHonest l (update_manifest_file a h written p).0
  unfolding update_manifest_file
  update_manifest_file-IsHonest a h written p faithful (parts, held) f =
      elim (Bool-cases a.load_fails) [
        | inl e ↦ simp e (parts, held)
        | inr e ↦ simp e (
            by_saved (recorded (manifest_for a h (load p.manifest)) a h written)
              (by_manifest (load p.manifest) (load-AreHeld p.parts p.manifest held)))
      ]
    where
      by_saved : (o : Option Manifest) → AreHeld l p.parts o → IsHonest l (saved o a h p).0
      by_saved none q = (parts, held)
      by_saved (some m) q = elim (Bool-cases a.save_fails) [
        | inl e ↦ simp e (parts, held)
        | inr e ↦ simp e (parts, q)
      ]

      by_recorded :
          (o : Option Manifest) → AreHeld l p.parts o → AreHeld l p.parts (recorded o a h written)
      by_recorded none q = tt
      by_recorded (some m) q =
          record_chunk-AreHeld (get_chunk m h.chunk_index) a h written m p.parts faithful f q

      by_manifest :
          (o : Option Manifest)
          → AreHeld l p.parts o
          → AreHeld l p.parts (recorded (manifest_for a h o) a h written)
      by_manifest none q =
          by_recorded (some (new_receiver_manifest a h)) (unfold new_receiver_manifest in tt)
      by_manifest (some m) q = elim (Bool-cases (is_of_header a h m)) [
        | inl e ↦ rw e (by_recorded (some m) q)
        | inr e ↦ rw e tt
      ]
