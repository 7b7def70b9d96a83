-- ===== src/Chunk/Plan.antt =====
-- What BuildPlan returns, against ChunkCount and against the bytes of the file.
use native.Mathlib.Decide.{dec_lt, dec_le}
use multi_send.Base.{
  ℕ, ltb, lt→ltb, ◌+◌, ◌-◌, ◌*◌, ◌/◌, ◌%◌, ◌≤◌, ◌<◌, min, ◌≡◌, refl, subst, ap, List, [], ◌∷◌,
  arith, length, if◌then◌else◌, some, ◌&&◌, ok, Bool,
}
use multi_send.Base.Int.{ℤ, pos, add64_pos, le_ℤ, quot64, rem64, ◌≤ℤ◌}
use multi_send.Chunk.{Chunk, ChunkPlan, build_plan, chunk_count, auto_chunk_size}
use multi_send.Chunk.Tiling.{Tiles, build_chunks-Tiles}

-- Whether the byte lies in the chunk.
abbrev pub covers : ℕ → Chunk → Bool
covers b c = le_ℤ c.start (pos b) && le_ℤ (pos b) c.end

-- In how many chunks the byte lies.
abbrev pub cover_count : ℕ → List Chunk → ℕ
cover_count b [] = 0
cover_count b (c ∷ cs) = (if covers b c then 1 else 0) + cover_count b cs

cover_count-zero :
    (total size i off b : ℕ) (cs : List Chunk)
    → 0 < size
    → b < off
    → Tiles total size i off cs
    → cover_count b cs ≡ 0
cover_count-zero total size i off b [] h k t = refl
cover_count-zero total size i off b (c ∷ cs) h k (more, e, t) =
    ground (arith, cover_count-zero total size (i + 1) (off + min size (total - off)) b cs)

pub cover_count-one :
    (total size i off b : ℕ) (cs : List Chunk)
    → 0 < size
    → off ≤ b
    → b < total
    → Tiles total size i off cs
    → cover_count b cs ≡ 1
cover_count-one total size i off b [] h k m t = absurd (omega arith)
cover_count-one total size i off b (c ∷ cs) h k m (more, e, t) =
    elim (dec_lt b (off + min size (total - off))) [
      | yes now ↦
          ground (arith, cover_count-zero total size (i + 1) (off + min size (total - off)) b cs)
      | no later ↦
          ground (arith, cover_count-one total size (i + 1) (off + min size (total - off)) b cs)
    ]

-- No chunk reaches past the end.
cover_count-past :
    (total size i off b : ℕ) (cs : List Chunk)
    → 0 < size
    → total ≤ b
    → Tiles total size i off cs
    → cover_count b cs ≡ 0
cover_count-past total size i off b [] h k t = refl
cover_count-past total size i off b (c ∷ cs) h k (more, e, t) =
    ground (arith, cover_count-past total size (i + 1) (off + min size (total - off)) b cs)

-- The number of chunks is the least one that holds the bytes.
pub length-Tiles :
    (total size i off : ℕ) (cs : List Chunk)
    → 0 < size
    → off ≤ total
    → Tiles total size i off cs
    → (total ≤ off + length cs * size) × (off + length cs * size < total + size)
length-Tiles total size i off [] h k t = omega arith
length-Tiles total size i off (c ∷ cs) h k (more, e, t) = elim (dec_le (off + size) total) [
  | yes full ↦
      let eq : off + min size (total - off) ≡ off + size = omega arith in
      omega (
        arith,
        length-Tiles total size (i + 1) (off + size) cs h full
            (subst (λ o. Tiles total size (i + 1) o cs) eq t),
      )
  | no last ↦
      let eq : off + min size (total - off) ≡ total = omega arith in
      let none_left : length cs ≡ 0 =
        length-Tiles_end total size (i + 1) cs (subst (λ o. Tiles total size (i + 1) o cs) eq t) in
      let one : (1 + length cs) * size ≡ size = rw none_left (omega arith) in omega arith
]
  where
    length-Tiles_end :
        (total size i : ℕ) (cs : List Chunk) → Tiles total size i total cs → length cs ≡ 0
    length-Tiles_end total size i [] t = refl
    length-Tiles_end total size i (c ∷ cs) (more, _, _) = absurd (omega arith)

count_unique :
    (total size n m : ℕ)
    → total ≤ n * size
    → n * size < total + size
    → total ≤ m * size
    → m * size < total + size
    → n ≤ m
count_unique total size n m a b c d = elim (dec_le n m) [ yes h ↦ h | no h ↦ absurd (grind arith) ]

div_le : (a b : ℕ) → 0 < b → a / b ≤ a
div_le a b h = grind arith

count_pos :
    (total size : ℕ)
    → 0 < size
    → total < 9223372036854775808
    → (n : ℕ) × (chunk_count (pos total) (pos size) ≡ pos n)
      × (total ≤ n * size)
      × (n * size < total + size)
unfolding chunk_count quot64 rem64
count_pos total size h k = elim (dec_lt 0 (total % size)) [
  | yes r ↦ (
    total / size + 1,
    ground (arith, add64_pos (total / size) 1, div_le total size h),
    omega arith,
    omega arith,
  )
  | no r ↦ (total / size, ground (arith, div_le total size h), omega arith, omega arith)
]

-- Bytes and chunks of an accepted plan.
pub record IsPlan (total size : ℕ) (plan : ChunkPlan) : Type 0 where
  pub total_kept : plan.total_bytes ≡ pos total
  pub size_kept : plan.chunk_size ≡ pos size
  pub tiles : Tiles total size 0 0 plan.chunks
  pub counted : chunk_count (pos total) (pos size) ≡ pos (length plan.chunks)
  pub once : (b : ℕ) → cover_count b plan.chunks ≡ (if ltb b total then 1 else 0)

-- BuildPlan ends and returns a plan whose chunks tile the file, as many as ChunkCount says: each
-- byte of the file lies in exactly one chunk, and no chunk reaches past its end. Enough rounds are
-- given, and the offset with which the loop ends fits int64.
pub build_plan-IsPlan :
    (rounds total size : ℕ)
    → 0 < size
    → total + size ≤ 9223372036854775808
    → total + size ≤ rounds * size
    → (plan : ChunkPlan) × (build_plan rounds (pos total) (pos size) ≡ some (ok plan))
      × IsPlan total size plan
unfolding build_plan
build_plan-IsPlan rounds total size h m f =
    let (cs, built, tiles) =
      build_chunks-Tiles rounds total size 0 0 h (omega arith) m (omega arith) (omega arith) in
    let (n, counted, lo, hi) = count_pos total size h (omega arith) in
    let (lo', hi') = length-Tiles total size 0 0 cs h (omega arith) tiles in
    let same : n ≡ length cs = omega (
      arith,
      count_unique total size n (length cs) lo hi (omega arith) (omega arith),
      count_unique total size (length cs) n (omega arith) (omega arith) lo hi,
    ) in
    (
      record { total_bytes = pos total; chunk_size = pos size; chunks = cs },
      rw built (ground arith),
      record {
        total_kept = refl;
        size_kept = refl;
        tiles = tiles;
        counted = rw counted (ap pos same);
        once = λ b. covers_once b cs tiles;
      },
    )
  where
    covers_once :
        (b : ℕ) (cs : List Chunk)
        → Tiles total size 0 0 cs
        → cover_count b cs ≡ (if ltb b total then 1 else 0)
    covers_once b cs t = elim (dec_lt b total) [
      | yes lt ↦ rw (lt→ltb b total lt) (cover_count-one total size 0 0 b cs h (omega arith) lt t)
      | no ge ↦ ground (arith, cover_count-past total size 0 0 b cs)
    ]

-- A larger file never gets smaller chunks, and a chunk is between 2 and 16 MiB.
pub auto_chunk_size_mono :
    (a b : ℤ)
    → a ≤ℤ b
    → (auto_chunk_size a ≤ℤ auto_chunk_size b)
      × (pos 2097152 ≤ℤ auto_chunk_size a)
      × (auto_chunk_size b ≤ℤ pos 16777216)
unfolding auto_chunk_size
auto_chunk_size_mono a b h = ground arith
