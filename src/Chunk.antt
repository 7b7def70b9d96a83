-- ===== src/Chunk.antt =====
-- internal/chunk/chunk.go: the chunk sizes and the plan that cuts a file into chunks.
pub mod Tiling
pub mod Plan
use multi_send.Base.{
  ℕ, zero, suc, ◌||◌, Bool, List, [], ◌∷◌, Option, none, some, Result, ok, err, if◌then◌else◌,
}
use multi_send.Base.Int.{ℤ, pos, lt_ℤ, le_ℤ, eq_ℤ, add64, sub64, quot64, rem64}
use mathlib.Core.Bool.{not}
use mathlib.Core.Option

pub record Chunk : Type 0 where
  pub index : ℤ
  pub offset : ℤ
  pub size : ℤ
  pub start : ℤ
  pub end : ℤ

pub record ChunkPlan : Type 0 where
  pub total_bytes : ℤ
  pub chunk_size : ℤ
  pub chunks : List Chunk

pub data PlanError : Type 0 where
  invalid_total_bytes invalid_chunk_size : PlanError

-- const MiB
abbrev pub mib : ℕ
mib = 1048576

unfoldable pub auto_chunk_size : ℤ → ℤ
auto_chunk_size total_bytes =
    if lt_ℤ total_bytes (pos 104857600)
    then pos 2097152
    else if le_ℤ total_bytes (pos 1073741824)
    then pos 4194304
    else if le_ℤ total_bytes (pos 4294967296)
    then pos 8388608
    else pos 16777216

unfoldable pub chunk_count : ℤ → ℤ → ℤ
chunk_count total_bytes chunk_size =
    if le_ℤ total_bytes (pos 0) || le_ℤ chunk_size (pos 0)
    then pos 0
    else (let count = quot64 total_bytes chunk_size in
        if not (eq_ℤ (rem64 total_bytes chunk_size) (pos 0)) then add64 count (pos 1) else count)

-- The size of the chunk at an offset: `size := chunkSize; if remain := …; remain < size { … }`.
abbrev pub size_at : ℤ → ℤ → ℤ → ℤ
size_at total_bytes chunk_size offset =
    let remain = sub64 total_bytes offset in if lt_ℤ remain chunk_size then remain else chunk_size

abbrev pub chunk_at : ℤ → ℤ → ℤ → ℤ → Chunk
chunk_at total_bytes chunk_size i offset =
    let size = size_at total_bytes chunk_size offset in
    record {
      index = i;
      offset = offset;
      size = size;
      start = offset;
      end = sub64 (add64 offset size) (pos 1);
    }

-- The `for` loop. `none` means that the rounds given were not enough.
unfoldable pub build_chunks : ℕ → ℤ → ℤ → ℤ → ℤ → Option (List Chunk)
build_chunks zero total_bytes chunk_size i offset = none
build_chunks (suc rounds) total_bytes chunk_size i offset =
    let rest =
      build_chunks rounds total_bytes chunk_size (add64 i (pos 1)) (add64 offset chunk_size) in
    let more = Option.map (λ chunks. chunk_at total_bytes chunk_size i offset ∷ chunks) rest in
    if lt_ℤ offset total_bytes then more else some []

-- BuildPlan with a bound on the loop's rounds.
unfoldable pub build_plan : ℕ → ℤ → ℤ → Option (Result PlanError ChunkPlan)
build_plan rounds total_bytes chunk_size =
    if lt_ℤ total_bytes (pos 0)
    then some (err invalid_total_bytes)
    else if le_ℤ chunk_size (pos 0)
    then some (err invalid_chunk_size)
    else Option.map
        (λ chunks.
          ok (record { total_bytes = total_bytes; chunk_size = chunk_size; chunks = chunks }))
        (build_chunks rounds total_bytes chunk_size (pos 0) (pos 0))
