-- ===== src/Receiver/Recorded.antt =====
-- A chunk that is written to the directory and its manifest.
use multi_send.Base.{
  ℕ, zero, suc, ◌++◌, ◌≡◌, refl, subst, ◌∙◌, Bool, true, false, ◌&&◌, ◌||◌, not, List, [], ◌∷◌,
  Option, none, some, length, arith, Bool-cases, Option-cases, inl, inr, ◌⊎◌,
}
use multi_send.Base.Int.{ℤ, eq_ℤ, eq_ℤ_iff, eq_ℤ_refl}
use multi_send.Base.Text.{same_text_refl}
use multi_send.Proto.{Header}
use multi_send.Manifest.{
  Manifest, ChunkState, is_done, as_done, get_chunk, find_chunk, mark_done, load,
}
use multi_send.Manifest.Lookup.{marks_lookup}
use multi_send.Receiver.{is_part, Part, find_part, put_part, Place}
use multi_send.Receiver.Chunks.{
  Arrival, copy_n, manifest_for, received_chunk, record_chunk, recorded, saved,
  update_manifest_file,
}

-- The manifest has the header's chunk, with its place, as done.
abbrev pub HasChunk : Header → Manifest → Type 0
HasChunk h m =
    (c : ChunkState) × (get_chunk m h.chunk_index ≡ some c)
    × (is_done c.status ≡ true)
    × (c.offset ≡ h.offset)
    × (c.size ≡ h.part_size)

abbrev pub HasRecord : Header → Place → Type 0
HasRecord h p = (m : Manifest) × (p.manifest ≡ some m) × HasChunk h m

find_chunk-snoc :
    (cs : List ChunkState) (c : ChunkState)
    → find_chunk c.index cs ≡ none
    → find_chunk c.index (cs ++ c ∷ []) ≡ some c
unfolding find_chunk
find_chunk-snoc [] c h = rw (eq_ℤ_refl c.index) refl
find_chunk-snoc (d ∷ cs) c h = ground (arith, find_chunk-snoc cs c)

record_chunk-HasChunk :
    (o : Option ChunkState) (a : Arrival) (h : Header) (written : ℤ) (m : Manifest)
    → get_chunk m h.chunk_index ≡ o
    → (record_chunk o a h written m ≡ none)
      ⊎ ((m' : Manifest) × (record_chunk o a h written m ≡ some m') × HasChunk h m')
unfolding get_chunk
record_chunk-HasChunk none a h written m e = inr (
  record m { chunks = m.chunks ++ received_chunk h written ∷ [] },
  refl,
  (
    received_chunk h written,
    find_chunk-snoc m.chunks (received_chunk h written) e,
    refl,
    refl,
    refl,
  ),
)
record_chunk-HasChunk (some c) a h written m e = elim (Bool-cases (eq_ℤ c.offset h.offset)) [
  | inr q ↦ inl (rw q refl)
  | inl q ↦ elim (Bool-cases (eq_ℤ c.size h.part_size)) [
    | inr s ↦ inl (rw (q, s) refl)
    | inl s ↦ inr (
      mark_done a.now m h.chunk_index written [],
      rw (q, s) refl,
      (
        as_done a.now written [] c,
        (marks_lookup a.now m h.chunk_index h.chunk_index written "" [] []).1
            ∙ rw (eq_ℤ_refl h.chunk_index, e) refl,
        refl,
        (eq_ℤ_iff c.offset h.offset).0 q,
        (eq_ℤ_iff c.size h.part_size).0 s,
      ),
    )
  ]
]

-- A step that fails, or keeps the parts and records the chunk.
abbrev IsRecorded : Header → List Part → Place × Bool → Type 0
IsRecorded h parts (p, done) = (done ≡ false) ⊎ ((done ≡ true) × HasRecord h p × (p.parts ≡ parts))

pub update_manifest_file-IsRecorded :
    (a : Arrival) (h : Header) (written : ℤ) (p : Place)
    → IsRecorded h p.parts (update_manifest_file a h written p)
unfolding update_manifest_file
update_manifest_file-IsRecorded a h written p = elim (Bool-cases a.load_fails) [
  | inl e ↦ simp e (inl refl)
  | inr e ↦ simp e (by_manifest (manifest_for a h (load p.manifest)))
]
  where
    by_saved :
        (o : Option Manifest)
        → (o ≡ none) ⊎ ((m : Manifest) × (o ≡ some m) × HasChunk h m)
        → IsRecorded h p.parts (saved o a h p)
    by_saved none q = inl refl
    by_saved (some m) (inl e) = absurd (cc)
    by_saved (some m) (inr (m', e, has)) =
        let same : m' ≡ m = cc in
        elim (Bool-cases a.save_fails) [
          | inl s ↦ simp s (inl refl)
          | inr s ↦ simp s (inr (refl, (m, refl, subst (HasChunk h) same has), refl))
        ]

    by_manifest :
        (o : Option Manifest) → IsRecorded h p.parts (saved (recorded o a h written) a h p)
    by_manifest none = inl refl
    by_manifest (some m) =
        by_saved _ (record_chunk-HasChunk (get_chunk m h.chunk_index) a h written m refl)

pub find_part-put_part :
    (new : Part) (ps : List Part)
    → find_part new.name new.index (put_part new ps) ≡ some new.content
unfolding find_part put_part
find_part-put_part new [] = rw (same_text_refl new.name, eq_ℤ_refl new.index) refl
find_part-put_part new (p ∷ ps) = elim (Bool-cases (is_part new.name new.index p)) [
  | inl e ↦ rw (e, same_text_refl new.name, eq_ℤ_refl new.index) refl
  | inr e ↦ rw (e, e) (find_part-put_part new ps)
]

pub length-copy_n :
    (n : ℕ) (payload content : List ℕ) → copy_n n payload ≡ some content → length content ≡ n
unfolding copy_n
length-copy_n zero payload content e = let q : content ≡ [] = cc in rw q refl
length-copy_n (suc n) [] content e = absurd (cc)
length-copy_n (suc n) (b ∷ payload) content e = elim (Option-cases (copy_n n payload)) [
  | inl q ↦ absurd (let k = rw q at e in cc)
  | inr (bytes, q) ↦
      let k : content ≡ b ∷ bytes = let k = rw q at e in cc in
      rw (k, length-copy_n n payload bytes q) refl
]

pub one_passes : (x y : Bool) → (not x && not y) ≡ false → (x || y) ≡ true
one_passes x y h = ground arith
