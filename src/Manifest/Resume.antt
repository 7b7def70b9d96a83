-- ===== src/Manifest/Resume.antt =====
-- Resuming: what Load, ActivateResume and MarkCanceledPending leave of a manifest.
use multi_send.Base.{
  subst, some, ℕ, ◌+◌, ◌≡◌, refl, ap, Bool, false, ◌||◌, List, [], ◌∷◌, arith, map, length, All,
  if◌then◌else◌, select, ◌⊎◌,
}
use multi_send.Base.Int.{ℤ, pos, ◌≤ℤ◌}
use multi_send.Base.Sort.{length-sort_by}
use multi_send.Manifest.{
  Status, other, ChunkState, Manifest, is_done, is_pending, is_failed, is_sending,
  normalize_for_resume, activate_resume, mark_canceled_pending, normalize_chunk, activate_chunk,
  cancel_chunk, pending_chunks, by_index, load,
}

map-map_eq :
    (f g h : ChunkState → ChunkState)
    → ((c : ChunkState) → f (g c) ≡ h c)
    → (cs : List ChunkState) → map f (map g cs) ≡ map h cs
map-map_eq f g h e [] = refl
map-map_eq f g h e (c ∷ cs) = cc (e c, map-map_eq f g h e cs)

activate-cancel : (k : ℤ) (c : ChunkState) → activate_chunk k (cancel_chunk c) ≡ activate_chunk k c
activate-cancel k c = ground arith

normalize-normalize :
    (k : ℤ) (c : ChunkState) → normalize_chunk k (normalize_chunk k c) ≡ normalize_chunk k c
normalize-normalize k c = ground arith

-- Canceling and then resuming is the same as resuming: nothing is lost by the cancellation. Loading
-- twice is the same as loading once.
pub activate_resume-mark_canceled_pending :
    (k : ℤ) (m : Manifest)
    → (activate_resume k (mark_canceled_pending m) ≡ activate_resume k m)
      × (normalize_for_resume k (normalize_for_resume k m) ≡ normalize_for_resume k m)
unfolding activate_resume mark_canceled_pending normalize_for_resume
activate_resume-mark_canceled_pending k m = (
  ap (λ cs. record m { chunks = cs })
      (map-map_eq (activate_chunk k) cancel_chunk (activate_chunk k) (activate-cancel k) m.chunks),
  ap (λ cs. record m { chunks = cs })
      (map-map_eq (normalize_chunk k) (normalize_chunk k) (normalize_chunk k)
        (normalize-normalize k) m.chunks),
)

-- The status is one of the five constants.
abbrev pub IsKnown : Status → Type 0
IsKnown (other s) = ⊥
IsKnown _ = Unit

-- How many chunks have a status that passes the test.
abbrev pub count_status : (Status → Bool) → List ChunkState → ℕ
count_status p [] = 0
count_status p (c ∷ cs) = (if p c.status then 1 else 0) + count_status p cs

length-select_pending :
    (k : ℤ) (cs : List ChunkState)
    → All (λ c. IsKnown c.status) cs
    → length (select (λ c. is_pending c.status || is_failed c.status) (map (activate_chunk k) cs))
        + count_status is_done cs
      ≡ length cs
unfolding select
length-select_pending k [] h = refl
length-select_pending k (c ∷ cs) h = ground (arith, length-select_pending k cs h.1)

-- After ActivateResume every chunk that is not done is handed out again: the pending chunks and the
-- done ones are all there is, where the statuses are the known ones.
pub length-pending_chunks-activate_resume :
    (k : ℤ) (m : Manifest)
    → All (λ c. IsKnown c.status) m.chunks
    → length (pending_chunks (activate_resume k m)) + count_status is_done m.chunks
      ≡ length m.chunks
unfolding pending_chunks activate_resume
length-pending_chunks-activate_resume k m h =
    rw (length-sort_by by_index) (length-select_pending k m.chunks h)

All-normalize :
    (k : ℤ) (cs : List ChunkState)
    → All
        (λ c. (is_sending c.status ≡ false) × ((is_failed c.status ≡ false) ⊎ (k ≤ℤ c.attempts)))
        (map (normalize_chunk k) cs)
All-normalize k [] = tt
All-normalize k (c ∷ cs) = ((ground arith, ground arith), All-normalize k cs)

-- A loaded manifest has no chunk in flight, and its failed chunks are out of attempts.
pub load_lem :
    (m m' : Manifest)
    → load (some m) ≡ some m'
    → All
        (λ c.
          (is_sending c.status ≡ false) × ((is_failed c.status ≡ false) ⊎ (pos 3 ≤ℤ c.attempts)))
        m'.chunks
unfolding load normalize_for_resume
load_lem m m' h =
    let e : normalize_for_resume (pos 3) m ≡ m' = cc in
    subst
      (λ (x : Manifest).
        All
          (λ c.
            (is_sending c.status ≡ false) × ((is_failed c.status ≡ false) ⊎ (pos 3 ≤ℤ c.attempts)))
          x.chunks)
      e (All-normalize (pos 3) m.chunks)
