-- ===== src/Manifest/Progress.antt =====
-- DoneBytes: what is counted as done, that it stays within the total, and what each mark adds.
use native.Mathlib.Nat.{add_assoc}
use multi_send.Base.{
  ℕ, sym, subst, Bool-cases, inl, inr, ◌+◌, ◌≤◌, ◌<◌, ◌≡◌, ◌↔◌, refl, ap, true, false, List, [],
  ◌∷◌, arith, map, All, if◌then◌else◌, ◌∙◌, some,
}
use multi_send.Base.Int.{ℤ, pos, pos_part, ◌≤ℤ◌, ◌<ℤ◌, add64, add64_pos, eq_ℤ}
use multi_send.Base.Text.{Text}
use multi_send.Manifest.{
  ChunkState, Manifest, is_done, done_bytes, done_bytes_from, normalize_for_resume, activate_resume,
  mark_canceled_pending, normalize_chunk, activate_chunk, cancel_chunk, mark_done, update_chunk,
  find_chunk, as_done, get_chunk,
}

-- A chunk of at least one byte, with no more bytes counted than it has, and all of them if done.
pub record IsCounted (c : ChunkState) : Type 0 where
  pub some_bytes : pos 0 <ℤ c.size
  pub counted_nonneg : pos 0 ≤ℤ c.bytes_done
  pub all_done : is_done c.status ≡ true → c.bytes_done ≡ c.size

-- The sum of the chunks' sizes.
abbrev pub size_sum : List ChunkState → ℕ
size_sum [] = 0
size_sum (c ∷ cs) = pos_part c.size + size_sum cs

-- The sum of the sizes of the done chunks.
abbrev pub done_sum : List ChunkState → ℕ
done_sum [] = 0
done_sum (c ∷ cs) = (if is_done c.status then pos_part c.size else 0) + done_sum cs

abbrev pub AllDone : List ChunkState → Type 0
AllDone = All (λ c. is_done c.status ≡ true)

done_sum_le : (cs : List ChunkState) → done_sum cs ≤ size_sum cs
done_sum_le [] = omega arith
done_sum_le (c ∷ cs) = ground (arith, done_sum_le cs)

done_sum_full : (cs : List ChunkState) → All IsCounted cs → done_sum cs ≡ size_sum cs → AllDone cs
done_sum_full [] h e = tt
done_sum_full (c ∷ cs) h e =
    (ground (arith, done_sum_le cs), done_sum_full cs h.1 (ground (arith, done_sum_le cs)))

done_sum_all : (cs : List ChunkState) → AllDone cs → done_sum cs ≡ size_sum cs
done_sum_all [] h = refl
done_sum_all (c ∷ cs) h = ground (arith, done_sum_all cs h.1)

-- What one chunk adds to the sum.
abbrev share : ChunkState → ℕ
share c = if is_done c.status then pos_part c.size else 0

add_share :
    (n : ℕ) (c : ChunkState)
    → IsCounted c
    → n + pos_part c.size < 9223372036854775808
    → (if is_done c.status then add64 (pos n) c.bytes_done else pos n) ≡ pos (n + share c)
add_share n c h m = ground (arith, add64_pos n (pos_part c.size), h.all_done)

share_le : (c : ChunkState) → share c ≤ pos_part c.size
share_le c = ground arith

done_bytes_from-eq :
    (n : ℕ) (cs : List ChunkState)
    → All IsCounted cs
    → n + size_sum cs < 9223372036854775808
    → done_bytes_from (pos n) cs ≡ pos (n + done_sum cs)
unfolding done_bytes_from
done_bytes_from-eq n [] h m = ground arith
done_bytes_from-eq n (c ∷ cs) (h, hs) m =
    ap (λ z. done_bytes_from z cs) (add_share n c h (omega arith))
    ∙ done_bytes_from-eq (n + share c) cs hs (omega (arith, share_le c))
    ∙ ap pos (add_assoc n (share c) (done_sum cs))

-- Where the sizes add up to the total, DoneBytes is between 0 and the total, and it is the total
-- exactly if every chunk is done.
pub done_bytes_bounds :
    (m : Manifest) (total : ℕ)
    → All IsCounted m.chunks
    → size_sum m.chunks ≡ total
    → total < 9223372036854775808
    → (n : ℕ) × (done_bytes m ≡ pos n) × (n ≤ total) × ((n ≡ total) ↔ AllDone m.chunks)
unfolding done_bytes
done_bytes_bounds m total h s lt = (
  done_sum m.chunks,
  done_bytes_from-eq 0 m.chunks h (omega arith) ∙ ap pos (omega arith),
  omega (arith, done_sum_le m.chunks),
  (λ e. done_sum_full m.chunks h (omega arith), λ a. omega (arith, done_sum_all m.chunks a)),
)

done_sum-map :
    (f : ChunkState → ChunkState)
    → ((c : ChunkState) → share (f c) ≡ share c)
    → (cs : List ChunkState) → done_sum (map f cs) ≡ done_sum cs
done_sum-map f e [] = refl
done_sum-map f e (c ∷ cs) = omega (arith, e c, done_sum-map f e cs)

done_from-map :
    (f : ChunkState → ChunkState)
    → ((c : ChunkState) → is_done (f c).status ≡ is_done c.status)
    → ((c : ChunkState) → (f c).bytes_done ≡ c.bytes_done)
    → (z : ℤ) (cs : List ChunkState) → done_bytes_from z (map f cs) ≡ done_bytes_from z cs
unfolding done_bytes_from
done_from-map f e b z [] = refl
done_from-map f e b z (c ∷ cs) =
    let same : (if is_done (f c).status then add64 z (f c).bytes_done else z)
        ≡ (if is_done c.status then add64 z c.bytes_done else z) =
      cc (e c, b c) in
    ap (λ y. done_bytes_from y (map f cs)) same
    ∙ done_from-map f e b (if is_done c.status then add64 z c.bytes_done else z) cs

-- Loading, resuming and canceling never change the number of bytes done.
pub done_bytes-kept :
    (k : ℤ) (m : Manifest)
    → (done_bytes (normalize_for_resume k m) ≡ done_bytes m)
      × (done_bytes (activate_resume k m) ≡ done_bytes m)
      × (done_bytes (mark_canceled_pending m) ≡ done_bytes m)
unfolding done_bytes normalize_for_resume activate_resume mark_canceled_pending
done_bytes-kept k m = (
  done_from-map (normalize_chunk k) (λ c. ground arith) (λ c. refl) (pos 0) m.chunks,
  done_from-map (activate_chunk k) (λ c. ground arith) (λ c. ground arith) (pos 0) m.chunks,
  done_from-map cancel_chunk (λ c. ground arith) (λ c. ground arith) (pos 0) m.chunks,
)

done_sum-mark_done :
    (now : ℕ) (i : ℤ) (hash : Text) (cs : List ChunkState) (c : ChunkState)
    → find_chunk i cs ≡ some c
    → is_done c.status ≡ false
    → done_sum (update_chunk i (as_done now c.size hash) cs) ≡ done_sum cs + pos_part c.size
unfolding find_chunk update_chunk
done_sum-mark_done now i hash [] c f h = cc
done_sum-mark_done now i hash (d ∷ cs) c f h = ground (arith, done_sum-mark_done now i hash cs c)

pub All-update_chunk {ℓ} :
    (P : ChunkState → Type ℓ) (i : ℤ) (f : ChunkState → ChunkState) (cs : List ChunkState)
    → All P cs
    → ((c : ChunkState) → find_chunk i cs ≡ some c → P c → P (f c))
    → All P (update_chunk i f cs)
unfolding find_chunk update_chunk
All-update_chunk P i f [] h k = tt
All-update_chunk P i f (c ∷ cs) (h, hs) k = elim (Bool-cases (eq_ℤ c.index i)) [
  | inl here ↦ rw here (k c (rw here) h, hs)
  | inr there ↦ rw there (h, All-update_chunk P i f cs hs (λ d found. k d (rw there found)))
]

pub size_sum-update_chunk :
    (i : ℤ) (f : ChunkState → ChunkState)
    → ((c : ChunkState) → (f c).size ≡ c.size)
    → (cs : List ChunkState) → size_sum (update_chunk i f cs) ≡ size_sum cs
unfolding update_chunk
size_sum-update_chunk i f e [] = refl
size_sum-update_chunk i f e (c ∷ cs) =
    ground (arith, e c, ap pos_part (e c), size_sum-update_chunk i f e cs)

pub All-find_chunk {ℓ} :
    (P : ChunkState → Type ℓ) (i : ℤ) (cs : List ChunkState) (c : ChunkState)
    → All P cs
    → find_chunk i cs ≡ some c
    → P c
unfolding find_chunk
All-find_chunk P i [] c h e = cc
All-find_chunk P i (d ∷ cs) c (h, hs) e = elim (Bool-cases (eq_ℤ d.index i)) [
  | inl here ↦ subst P (some_inj d c (rw here at e)) h
  | inr there ↦ All-find_chunk P i cs c hs (rw there at e)
]
  where
    some_inj : (x y : ChunkState) → some x ≡ some y → x ≡ y
    some_inj x y q = cc

-- MarkDone of a chunk that was not done, with the chunk's size, adds exactly that size to DoneBytes.
pub done_bytes-mark_done :
    (now : ℕ) (m : Manifest) (i : ℤ) (hash : Text) (c : ChunkState)
    → All IsCounted m.chunks
    → size_sum m.chunks < 9223372036854775808
    → get_chunk m i ≡ some c
    → is_done c.status ≡ false
    → done_bytes (mark_done now m i c.size hash) ≡ add64 (done_bytes m) c.size
unfolding done_bytes mark_done get_chunk
done_bytes-mark_done now m i hash c h lt found fresh =
    let cs' = update_chunk i (as_done now c.size hash) m.chunks in
    let sizes : size_sum cs' ≡ size_sum m.chunks =
      size_sum-update_chunk i (as_done now c.size hash) (λ d. refl) m.chunks in
    let grown : done_sum cs' ≡ done_sum m.chunks + pos_part c.size =
      done_sum-mark_done now i hash m.chunks c found fresh in
    let counted : All IsCounted cs' =
      All-update_chunk IsCounted i (as_done now c.size hash) m.chunks h (λ d e k. record {
        some_bytes = k.some_bytes;
        counted_nonneg = nonneg c (All-find_chunk IsCounted i m.chunks c h found);
        all_done = λ _. same_size d c (sym e ∙ found);
      }) in
    done_bytes_from-eq 0 cs' counted (omega arith)
    ∙ ap pos (omega arith)
    ∙ sum_pos (done_sum m.chunks) c (All-find_chunk IsCounted i m.chunks c h found)
        (omega (arith, done_sum_le cs'))
    ∙ ap (λ z. add64 z c.size) (sym (done_bytes_from-eq 0 m.chunks h (omega arith)))
  where
    nonneg : (d : ChunkState) → IsCounted d → pos 0 ≤ℤ d.size
    nonneg d k = omega arith

    same_size : (d d' : ChunkState) → some d ≡ some d' → d'.size ≡ d.size
    same_size d d' e = cc

    sum_pos :
        (n : ℕ) (d : ChunkState)
        → IsCounted d
        → n + pos_part d.size < 9223372036854775808
        → pos (n + pos_part d.size) ≡ add64 (pos (0 + n)) d.size
    sum_pos n d k lt' = ground (arith, add64_pos n (pos_part d.size))
