-- ===== src/Manifest/Pending.antt =====
-- PendingChunks: what it hands out, and in which order.
use mathlib.Core.List.{Perm}
use multi_send.Base.{◌≡◌, ◌⊎◌, true, ◌||◌, arith, All, All-select, select}
use multi_send.Base.Sort.{IsSorted, sort_by-IsSorted, sort_by-perm, All-sort_by}
use multi_send.Manifest.{
  pending, failed, ChunkState, Manifest, is_pending, is_failed, pending_chunks, by_index,
}

is_open :
    (c : ChunkState)
    → (is_pending c.status || is_failed c.status) ≡ true
    → (c.status ≡ pending) ⊎ (c.status ≡ failed)
is_open c h = ground arith

-- PendingChunks gives the manifest's pending and failed chunks, each as often as it stands there,
-- by rising index.
pub pending_chunks_lem :
    (m : Manifest)
    → IsSorted by_index (pending_chunks m)
      × All (λ c. (c.status ≡ pending) ⊎ (c.status ≡ failed)) (pending_chunks m)
      × Perm (pending_chunks m) (select (λ c. is_pending c.status || is_failed c.status) m.chunks)
unfolding pending_chunks
pending_chunks_lem m =
    let picked = select (λ (c : ChunkState). is_pending c.status || is_failed c.status) m.chunks in
    (
      sort_by-IsSorted by_index picked,
      All-sort_by by_index (λ c. (c.status ≡ pending) ⊎ (c.status ≡ failed)) picked
          (All-select _ (λ c. is_pending c.status || is_failed c.status) is_open m.chunks),
      sort_by-perm by_index picked,
    )
