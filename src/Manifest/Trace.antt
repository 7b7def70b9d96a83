-- ===== src/Manifest/Trace.antt =====
-- Every operation on a manifest, in any order: the plan stays, and the progress stays in bounds.
use multi_send.Base.{
  ℕ, ◌≤◌, ◌<◌, ◌≡◌, ◌↔◌, refl, sym, ◌∙◌, List, [], ◌∷◌, Option, some, none, String, arith, map, All,
}
use multi_send.Base.Int.{ℤ, pos, ◌≤ℤ◌}
use multi_send.Base.Text.{Text}
use multi_send.Manifest.{
  ChunkState, Manifest, mark_sending, mark_done, mark_failed, normalize_for_resume, activate_resume,
  mark_canceled_pending, get_chunk, update_chunk, as_done, as_sending, as_failed, done_bytes,
  normalize_chunk, activate_chunk, cancel_chunk,
}
use multi_send.Manifest.Progress.{
  IsCounted, size_sum, size_sum-update_chunk, All-update_chunk, All-find_chunk, done_bytes_bounds,
  AllDone,
}

-- The calls that change a manifest. A chunk is marked done with its own size, as both workers do.
pub data Event : Type 0 where
  send : (now : ℕ) (index : ℤ) (channel : String) → Event
  finish : (now : ℕ) (index : ℤ) (hash : Text) → Event
  fail : (index : ℤ) (error : Text) → Event
  reload resume : (max_attempts : ℤ) → Event
  cancel : Event

finish_at : ℕ → ℤ → Text → Manifest → Option ChunkState → Manifest
finish_at now i hash m none = m
finish_at now i hash m (some c) = mark_done now m i c.size hash

pub apply : Event → Manifest → Manifest
unfolding finish_at
apply (send now i channel) m = mark_sending now m i channel
apply (finish now i hash) m = finish_at now i hash m (get_chunk m i)
apply (fail i e) m = mark_failed m i e
apply (reload k) m = normalize_for_resume k m
apply (resume k) m = activate_resume k m
apply cancel m = mark_canceled_pending m

pub run : List Event → Manifest → Manifest
run [] m = m
run (e ∷ es) m = run es (apply e m)

-- What the plan fixed of a chunk.
abbrev pub place : ChunkState → ℤ × ℤ × ℤ
place c = (c.index, c.offset, c.size)

pub map-update_chunk :
    (i : ℤ) (f : ChunkState → ChunkState)
    → ((c : ChunkState) → place (f c) ≡ place c)
    → (cs : List ChunkState) → map place (update_chunk i f cs) ≡ map place cs
unfolding update_chunk
map-update_chunk i f e [] = refl
map-update_chunk i f e (c ∷ cs) = ground (arith, e c, map-update_chunk i f e cs)

pub map-map_same :
    (f : ChunkState → ChunkState)
    → ((c : ChunkState) → place (f c) ≡ place c)
    → (cs : List ChunkState) → map place (map f cs) ≡ map place cs
map-map_same f e [] = refl
map-map_same f e (c ∷ cs) = cc (e c, map-map_same f e cs)

apply-place : (e : Event) (m : Manifest) → map place (apply e m).chunks ≡ map place m.chunks
unfolding apply mark_sending mark_done mark_failed normalize_for_resume activate_resume
    mark_canceled_pending get_chunk
apply-place (send now i channel) m =
    map-update_chunk i (as_sending now channel) (λ c. refl) m.chunks
apply-place (finish now i hash) m = finish_place (get_chunk m i)
  where
    finish_place :
        (o : Option ChunkState) → map place (finish_at now i hash m o).chunks ≡ map place m.chunks
    finish_place none = refl
    finish_place (some c) = map-update_chunk i (as_done now c.size hash) (λ d. refl) m.chunks
apply-place (fail i e) m = map-update_chunk i (as_failed e) (λ c. refl) m.chunks
apply-place (reload k) m = map-map_same (normalize_chunk k) (λ c. refl) m.chunks
apply-place (resume k) m = map-map_same (activate_chunk k) (λ c. ground arith) m.chunks
apply-place cancel m = map-map_same cancel_chunk (λ c. ground arith) m.chunks

-- The sizes add up to a total that fits int64, and the counts agree with the statuses.
pub record IsSound (total : ℕ) (m : Manifest) : Type 0 where
  pub counted : All IsCounted m.chunks
  pub sizes : size_sum m.chunks ≡ total

All-map :
    (f : ChunkState → ChunkState)
    → ((c : ChunkState) → IsCounted c → IsCounted (f c))
    → (cs : List ChunkState) → All IsCounted cs
    → All IsCounted (map f cs)
All-map f k [] h = tt
All-map f k (c ∷ cs) (h, hs) = (k c h, All-map f k cs hs)

size_sum-map :
    (f : ChunkState → ChunkState)
    → ((c : ChunkState) → (f c).size ≡ c.size)
    → (cs : List ChunkState) → size_sum (map f cs) ≡ size_sum cs
size_sum-map f e [] = refl
size_sum-map f e (c ∷ cs) = ground (arith, e c, size_sum-map f e cs)

finish_at-IsSound :
    (now : ℕ) (i : ℤ) (hash : Text) (total : ℕ) (m : Manifest) (o : Option ChunkState)
    → get_chunk m i ≡ o
    → IsSound total m
    → IsSound total (finish_at now i hash m o)
unfolding finish_at mark_done get_chunk
finish_at-IsSound now i hash total m none e s = s
finish_at-IsSound now i hash total m (some c) e s = record {
  counted = All-update_chunk IsCounted i (as_done now c.size hash) m.chunks s.counted (λ d found k.
      record {
        some_bytes = k.some_bytes;
        counted_nonneg = nonneg c (All-find_chunk IsCounted i m.chunks c s.counted e);
        all_done = λ _. same_size d c (sym found ∙ e);
      });
  sizes = size_sum-update_chunk i (as_done now c.size hash) (λ d. refl) m.chunks ∙ s.sizes;
}
  where
    nonneg : (d : ChunkState) → IsCounted d → pos 0 ≤ℤ d.size
    nonneg d k = omega arith

    same_size : (d d' : ChunkState) → some d ≡ some d' → d'.size ≡ d.size
    same_size d d' q = cc

apply-IsSound : (total : ℕ) (e : Event) (m : Manifest) → IsSound total m → IsSound total (apply e m)
unfolding apply mark_sending mark_failed normalize_for_resume activate_resume mark_canceled_pending
apply-IsSound total (send now i channel) m s = record {
  counted =
      All-update_chunk IsCounted i (as_sending now channel) m.chunks s.counted
        (λ d found k. ground arith);
  sizes = size_sum-update_chunk i (as_sending now channel) (λ d. refl) m.chunks ∙ s.sizes;
}
apply-IsSound total (finish now i hash) m s =
    finish_at-IsSound now i hash total m (get_chunk m i) refl s
apply-IsSound total (fail i e) m s = record {
  counted =
      All-update_chunk IsCounted i (as_failed e) m.chunks s.counted (λ d found k. ground arith);
  sizes = size_sum-update_chunk i (as_failed e) (λ d. refl) m.chunks ∙ s.sizes;
}
apply-IsSound total (reload k) m s = record {
  counted = All-map (normalize_chunk k) (λ c h. ground arith) m.chunks s.counted;
  sizes = size_sum-map (normalize_chunk k) (λ c. refl) m.chunks ∙ s.sizes;
}
apply-IsSound total (resume k) m s = record {
  counted = All-map (activate_chunk k) (λ c h. ground arith) m.chunks s.counted;
  sizes = size_sum-map (activate_chunk k) (λ c. ground arith) m.chunks ∙ s.sizes;
}
apply-IsSound total cancel m s = record {
  counted = All-map cancel_chunk (λ c h. ground arith) m.chunks s.counted;
  sizes = size_sum-map cancel_chunk (λ c. ground arith) m.chunks ∙ s.sizes;
}

run-place : (es : List Event) (m : Manifest) → map place (run es m).chunks ≡ map place m.chunks
unfolding run
run-place [] m = refl
run-place (e ∷ es) m = run-place es (apply e m) ∙ apply-place e m

run-IsSound :
    (total : ℕ) (es : List Event) (m : Manifest) → IsSound total m → IsSound total (run es m)
unfolding run
run-IsSound total [] m s = s
run-IsSound total (e ∷ es) m s = run-IsSound total es (apply e m) (apply-IsSound total e m s)

-- Of a manifest whose chunks have sizes above 0 that sum to less than 2 ^ 63, no negative BytesDone,
-- and as done all their bytes: whatever calls of MarkSending, MarkFailed, normalizeForResume,
-- ActivateResume and MarkCanceledPending are made, and of MarkDone with the chunk's own size, in any
-- order, the chunks keep their indices, offsets and sizes, DoneBytes stays between 0 and the sum of
-- the sizes, and it is that sum exactly if every chunk is done.
pub run_lem :
    (total : ℕ) (es : List Event) (m : Manifest)
    → IsSound total m
    → total < 9223372036854775808
    → (map place (run es m).chunks ≡ map place m.chunks)
      × ((n : ℕ) × (done_bytes (run es m) ≡ pos n)
          × (n ≤ total)
          × ((n ≡ total) ↔ AllDone (run es m).chunks))
run_lem total es m s lt =
    let s' = run-IsSound total es m s in
    (run-place es m, done_bytes_bounds (run es m) total s'.counted s'.sizes lt)
