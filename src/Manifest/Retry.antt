-- ===== src/Manifest/Retry.antt =====
-- What Load makes of a chunk that failed: MarkFailed counts the attempt, and normalizeForResume reads it.
use multi_send.Base.{
  ℕ, suc, ◌<◌, ◌≤◌, ◌≡◌, ◌≢◌, refl, ap, sym, ◌∙◌, List, [], ◌∷◌, some, map, arith, Bool-cases, inl,
  inr,
}
use multi_send.Base.Int.{ℤ, pos, eq_ℤ, eq_ℤ_iff, eq_ℤ_refl, add64, add64_pos}
use multi_send.Base.Text.{Text}
use multi_send.Manifest.{
  ChunkState, Manifest, pending, failed, find_chunk, get_chunk, as_failed, mark_failed,
  normalize_chunk, normalize_for_resume, load,
}
use multi_send.Manifest.Lookup.{marks_lookup}
use multi_send.Manifest.Trace.{place}
use mathlib.Core.Option

find_chunk-map :
    (f : ChunkState → ChunkState)
    → ((c : ChunkState) → (f c).index ≡ c.index)
    → (j : ℤ) (cs : List ChunkState) → find_chunk j (map f cs) ≡ Option.map f (find_chunk j cs)
unfolding find_chunk
find_chunk-map f keep j [] = refl
find_chunk-map f keep j (c ∷ cs) = ground (arith, keep c, find_chunk-map f keep j cs)

loaded :
    (m : Manifest) (j : ℤ)
    → get_chunk (normalize_for_resume (pos 3) m) j
      ≡ Option.map (normalize_chunk (pos 3)) (get_chunk m j)
unfolding get_chunk normalize_for_resume
loaded m j = find_chunk-map (normalize_chunk (pos 3)) (λ c. refl) j m.chunks

-- What became of a chunk that had failed n times before it failed with the error.
pub record IsRetried (e : Text) (n : ℕ) (c c' : ChunkState) : Type 0 where
  pub same_place : place c' ≡ place c
  pub counted : c'.attempts ≡ pos (suc n)
  pub explained : c'.last_error ≡ e
  pub retried : suc n < 3 → c'.status ≡ pending
  pub given_up : 3 ≤ suc n → c'.status ≡ failed

failed_chunk-IsRetried :
    (e : Text) (n : ℕ) (c : ChunkState)
    → c.attempts ≡ pos n
    → suc n < 9223372036854775808
    → IsRetried e n c (normalize_chunk (pos 3) (as_failed e c))
failed_chunk-IsRetried e n c a small =
    let counted : add64 c.attempts (pos 1) ≡ pos (suc n) =
      ap (λ z. add64 z (pos 1)) a ∙ add64_pos n 1 (omega arith) ∙ ap pos (omega arith) in
    record {
      same_place = refl;
      counted = counted;
      explained = refl;
      retried = λ h. rw counted (ground arith);
      given_up = λ h. rw counted (ground arith);
    }

-- A chunk that had failed n times is marked as failed and the manifest is loaded again, where n + 1 fits
-- int64. The chunk keeps its index, offset and size, has n + 1 attempts and the error, and is pending if
-- these are fewer than 3, and failed otherwise. Every other index reads as if only Load had been made.
pub load-mark_failed :
    (m : Manifest) (i : ℤ) (e : Text) (n : ℕ) (c : ChunkState)
    → get_chunk m i ≡ some c
    → c.attempts ≡ pos n
    → suc n < 9223372036854775808
    → (m' : Manifest) × (load (some (mark_failed m i e)) ≡ some m')
      × ((c' : ChunkState) × (get_chunk m' i ≡ some c') × IsRetried e n c c')
      × ((j : ℤ) → j ≢ i → get_chunk m' j ≡ get_chunk (normalize_for_resume (pos 3) m) j)
unfolding load
load-mark_failed m i e n c found a small = (
  normalize_for_resume (pos 3) (mark_failed m i e),
  refl,
  (
    normalize_chunk (pos 3) (as_failed e c),
    loaded (mark_failed m i e) i ∙ ap (Option.map (normalize_chunk (pos 3))) marked,
    failed_chunk-IsRetried e n c a small,
  ),
  λ j differs.
      loaded (mark_failed m i e) j
      ∙ ap (Option.map (normalize_chunk (pos 3))) (other j differs)
      ∙ sym (loaded m j),
)
  where
    marked : get_chunk (mark_failed m i e) i ≡ some (as_failed e c)
    marked =
        (marks_lookup 0 m i i (pos 0) "" [] e).2
        ∙ rw (eq_ℤ_refl i) (ap (Option.map (as_failed e)) found)

    other : (j : ℤ) → j ≢ i → get_chunk (mark_failed m i e) j ≡ get_chunk m j
    other j differs = elim (Bool-cases (eq_ℤ i j)) [
      | inl same ↦ absurd (differs (sym ((eq_ℤ_iff i j).0 same)))
      | inr ne ↦ (marks_lookup 0 m i j (pos 0) "" [] e).2 ∙ rw ne refl
    ]
