-- ===== src/Chunk/Tiling.antt =====
-- The loop of BuildPlan: its rounds are enough, and its chunks tile the file.
use native.Mathlib.Decide.{dec_lt, dec_le}
use multi_send.Base.{
  ℕ, zero, suc, ◌+◌, ◌-◌, ◌*◌, ◌≤◌, ◌<◌, min, ◌≡◌, sym, subst, List, [], ◌∷◌, some, arith,
}
use multi_send.Base.Int.{pos, add64_pos, sub64_pos}
use multi_send.Chunk.{Chunk, build_chunks, chunk_at}

-- The chunks from number `i` at byte `off` on: each starts where the one before it ends, is as
-- large as the chunk size and the file allow, and the last one ends at the file's end.
abbrev pub Tiles : ℕ → ℕ → ℕ → ℕ → List Chunk → Type 0
Tiles total size i off [] = off ≡ total
Tiles total size i off (c ∷ cs) =
    (off < total)
    × (c ≡ record {
      index = pos i;
      offset = pos off;
      size = pos (min size (total - off));
      start = pos off;
      end = pos (off + min size (total - off) - 1);
    })
    × Tiles total size (i + 1) (off + min size (total - off)) cs

chunk_at_pos :
    (total size i off : ℕ)
    → 0 < size
    → off < total
    → total < 9223372036854775808
    → chunk_at (pos total) (pos size) (pos i) (pos off) ≡ record {
      index = pos i;
      offset = pos off;
      size = pos (min size (total - off));
      start = pos off;
      end = pos (off + min size (total - off) - 1);
    }
chunk_at_pos total size i off h k m = ground (
  arith,
  sub64_pos total off,
  add64_pos off (min size (total - off)),
  sub64_pos (off + min size (total - off)) 1,
)

build_chunks_end :
    (rounds total size i off : ℕ)
    → total ≤ off
    → build_chunks (suc rounds) (pos total) (pos size) (pos i) (pos off) ≡ some []
unfolding build_chunks
build_chunks_end rounds total size i off h = ground arith

build_chunks_more :
    (rounds total size i off : ℕ) (cs : List Chunk)
    → off < total
    → off + size < 9223372036854775808
    → i + 1 < 9223372036854775808
    → build_chunks rounds (pos total) (pos size) (pos (i + 1)) (pos (off + size)) ≡ some cs
    → build_chunks (suc rounds) (pos total) (pos size) (pos i) (pos off)
      ≡ some (chunk_at (pos total) (pos size) (pos i) (pos off) ∷ cs)
unfolding build_chunks
build_chunks_more rounds total size i off cs h m n e =
    rw (add64_pos off size m, add64_pos i 1 n, e) (ground arith)

-- The loop from chunk `i` at byte `off` on ends within `rounds` rounds and tiles what is left.
pub build_chunks-Tiles :
    (rounds total size i off : ℕ)
    → 0 < size
    → off ≤ total
    → total + size ≤ 9223372036854775808
    → i ≤ off
    → total + size ≤ off + rounds * size
    → (chunks : List Chunk) × (build_chunks rounds (pos total) (pos size) (pos i) (pos off)
        ≡ some chunks)
      × Tiles total size i off chunks
build_chunks-Tiles zero total size i off h k m n f = absurd (omega arith)
build_chunks-Tiles (suc rounds) total size i off h k m n f = elim (dec_lt off total) [
  | no done ↦ ([], build_chunks_end rounds total size i off (omega arith), omega arith)
  | yes more ↦ elim (dec_le (off + size) total) [
    | yes full ↦
        let e : min size (total - off) ≡ size = omega arith in
        let (cs, built, tiles) =
          build_chunks-Tiles rounds total size (i + 1) (off + size) h full m (omega arith)
            (omega arith) in
        (
          chunk_at (pos total) (pos size) (pos i) (pos off) ∷ cs,
          build_chunks_more rounds total size i off cs more (omega arith) (omega arith) built,
          (
            more,
            chunk_at_pos total size i off h more (omega arith),
            subst (λ m. Tiles total size (i + 1) (off + m) cs) (sym e) tiles,
          ),
        )
    | no last ↦ (
      chunk_at (pos total) (pos size) (pos i) (pos off) ∷ [],
      build_chunks_more rounds total size i off [] more (omega arith) (omega arith)
          (last_round rounds f more last),
      (more, chunk_at_pos total size i off h more (omega arith), omega arith),
    )
  ]
]
  where
    last_round :
        (r : ℕ)
        → total + size ≤ off + suc r * size
        → off < total
        → ¬ (off + size ≤ total)
        → build_chunks r (pos total) (pos size) (pos (i + 1)) (pos (off + size)) ≡ some []
    last_round zero f' more last = absurd (omega arith)
    last_round (suc r) f' more last =
        build_chunks_end r total size (i + 1) (off + size) (omega arith)
