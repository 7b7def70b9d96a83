-- ===== src/Manifest/Lookup.antt =====
-- Reads after writes: a mark changes the first chunk with its index, and no other index.
use multi_send.Base.{
  Bool-cases, ℕ, ◌≡◌, refl, List, [], ◌∷◌, none, some, String, arith, if◌then◌else◌, Option-cases,
  ap, inl, inr,
}
use multi_send.Base.Int.{eq_ℤ_iff, ℤ, eq_ℤ, eq_ℤ_refl}
use multi_send.Base.Text.{Text}
use multi_send.Manifest.{
  ChunkState, Manifest, find_chunk, update_chunk, get_chunk, mark_sending, mark_done, mark_failed,
  as_sending, as_done, as_failed,
}
use mathlib.Core.Option

-- A write keeps the indices, so it is read back by the index it was made with.
pub find_chunk-update_chunk :
    (i j : ℤ) (f : ChunkState → ChunkState) (cs : List ChunkState)
    → ((c : ChunkState) → (f c).index ≡ c.index)
    → find_chunk j (update_chunk i f cs)
      ≡ (if eq_ℤ i j then Option.map f (find_chunk j cs) else find_chunk j cs)
unfolding find_chunk update_chunk
find_chunk-update_chunk i j f [] keep = ground arith
find_chunk-update_chunk i j f (c ∷ cs) keep = ground (
  arith,
  keep c,
  find_chunk-update_chunk i j f cs keep,
  eq_ℤ_iff i j,
  eq_ℤ_iff c.index i,
  eq_ℤ_iff c.index j,
)

-- A lookup after MarkSending, MarkDone or MarkFailed of chunk `i` gives the marked chunk at `i` and
-- what was there before at every other index.
pub marks_lookup :
    (now : ℕ) (m : Manifest) (i j bytes : ℤ) (channel : String) (hash e : Text)
    → (get_chunk (mark_sending now m i channel) j
        ≡ (if eq_ℤ i j then Option.map (as_sending now channel) (get_chunk m j) else get_chunk m j))
      × (get_chunk (mark_done now m i bytes hash) j ≡ (
          if eq_ℤ i j then Option.map (as_done now bytes hash) (get_chunk m j) else get_chunk m j))
      × (get_chunk (mark_failed m i e) j
          ≡ (if eq_ℤ i j then Option.map (as_failed e) (get_chunk m j) else get_chunk m j))
unfolding get_chunk mark_sending mark_done mark_failed
marks_lookup now m i j bytes channel hash e = (
  find_chunk-update_chunk i j (as_sending now channel) m.chunks (λ c. refl),
  find_chunk-update_chunk i j (as_done now bytes hash) m.chunks (λ c. refl),
  find_chunk-update_chunk i j (as_failed e) m.chunks (λ c. refl),
)

pub update_chunk_absent :
    (i : ℤ) (f : ChunkState → ChunkState) (cs : List ChunkState)
    → find_chunk i cs ≡ none
    → update_chunk i f cs ≡ cs
unfolding find_chunk update_chunk
update_chunk_absent i f [] h = refl
update_chunk_absent i f (c ∷ cs) h = ground (arith, update_chunk_absent i f cs)

pub find_chunk-index :
    (i : ℤ) (cs : List ChunkState) (c : ChunkState) → find_chunk i cs ≡ some c → c.index ≡ i
unfolding find_chunk
find_chunk-index i [] c e = cc
find_chunk-index i (d ∷ cs) c e = elim (Bool-cases (eq_ℤ d.index i)) [
  | inl same ↦
      let e' = rw same at e in
      let q : d ≡ c = cc in cc ((eq_ℤ_iff d.index i).0 same, ap (λ x. x.index) q)
  | inr differ ↦ find_chunk-index i cs c (rw differ at e)
]

pub find_before :
    (i : ℤ) (f : ChunkState → ChunkState)
    → ((c : ChunkState) → (f c).index ≡ c.index)
    → (cs : List ChunkState) → find_chunk i (update_chunk i f cs) ≡ none
    → find_chunk i cs ≡ none
find_before i f same cs e = elim (Option-cases (find_chunk i cs)) [
  | inl q ↦ q
  | inr (c, q) ↦
      let found = find_chunk-update_chunk i i f cs same in
      let found' = rw (eq_ℤ_refl i, q) at found in absurd (cc)
]

-- Two updates of a chunk are one.
pub update_chunk-update_chunk :
    (i : ℤ) (f g : ChunkState → ChunkState)
    → ((c : ChunkState) → (f c).index ≡ c.index)
    → (cs : List ChunkState)
    → update_chunk i g (update_chunk i f cs) ≡ update_chunk i (λ c. g (f c)) cs
unfolding update_chunk
update_chunk-update_chunk i f g same [] = refl
update_chunk-update_chunk i f g same (c ∷ cs) = elim (Bool-cases (eq_ℤ c.index i)) [
  | inl e ↦ rw e (rw (same c, e) refl)
  | inr e ↦ rw e (rw e (ap (λ t. c ∷ t) (update_chunk-update_chunk i f g same cs)))
]
