-- ===== src/Download.antt =====
-- internal/download/manager.go: downloads of a file in chunks over several interfaces. Here its
-- helpers on chunks and channels; the children have a run's workers and the jobs.
pub mod Strict
pub mod State
pub mod Run
pub mod Jobs
use multi_send.Base.{
  ℕ, zero, suc, ◌+◌, Bool, true, false, ◌&&◌, ◌||◌, not, List, [], ◌∷◌, Option, none, some, String,
  select, if◌then◌else◌,
}
use multi_send.Base.Int.{ℤ, pos, sub_ℕ, lt_ℤ, le_ℤ, eq_ℤ, add64, sub64, mul64, quot64}
use multi_send.Base.Text.{Text}
use multi_send.Base.Dict.{str_eq}
use multi_send.Base.Sort.{sort_by}
use multi_send.Manifest.{
  ChunkState, Manifest, Status, pending, is_pending, is_sending, is_done, is_failed, by_index,
}

pub record LocalChannel : Type 0 where
  pub name : String
  pub ip : Text

abbrev pub max_chunk_attempts : ℤ
max_chunk_attempts = pos 8

abbrev pub is_retryable : ChunkState → Bool
is_retryable c = is_pending c.status || (is_failed c.status && lt_ℤ c.attempts max_chunk_attempts)

unfoldable pub retry_pending : Manifest → List ChunkState
unfolding select sort_by
retry_pending mf = sort_by by_index (select is_retryable mf.chunks)

-- `c.StartedAt != nil && now.Sub(*c.StartedAt) < stallLimit`
abbrev pub is_fresh : ℕ → ℤ → Option ℕ → Bool
is_fresh now stall_limit none = false
is_fresh now stall_limit (some t) = lt_ℤ (sub_ℕ now t) stall_limit

abbrev pub is_stalled : ℕ → ℤ → ChunkState → Bool
is_stalled now stall_limit c = is_sending c.status && not (is_fresh now stall_limit c.started_at)

-- The loop of resetStalledChunksLocked: the chunks and how many of them it reset.
unfoldable pub reset_stalled : ℕ → ℤ → List ChunkState → List ChunkState × ℕ
reset_stalled now stall_limit [] = ([], 0)
reset_stalled now stall_limit (c ∷ cs) =
    let (rest, reset) = reset_stalled now stall_limit cs in
    if is_stalled now stall_limit c
    then (record c { status = pending; channel = "" } ∷ rest, suc reset)
    else (c ∷ rest, reset)

unfoldable pub all_done : List ChunkState → Bool
all_done [] = true
all_done (c ∷ cs) = is_done c.status && all_done cs

unfoldable pub has_channel : List LocalChannel → String → Bool
has_channel [] name = false
has_channel (c ∷ cs) name = str_eq c.name name || has_channel cs name

unfoldable pub find_channel : List LocalChannel → String → Option LocalChannel
find_channel [] name = none
find_channel (c ∷ cs) name =
    let rest = find_channel cs name in if str_eq c.name name then some c else rest

-- targetChunkCount
unfoldable pub target_chunk_count : ℤ → ℤ → ℤ
target_chunk_count total initial_channels =
    if le_ℤ initial_channels (pos 1)
    then (if le_ℤ total (pos 134217728) then pos 1 else pos 4)
    else if le_ℤ total (pos 134217728)
    then pos 1
    else if le_ℤ total (pos 536870912)
    then pos 3
    else if le_ℤ total (pos 1073741824)
    then pos 6
    else pos 6

-- chunkTimeout, in nanoseconds.
unfoldable pub chunk_timeout : ℤ → Bool → ℤ
unfolding quot64 add64 mul64
chunk_timeout size pipelined =
    let size = if le_ℤ size (pos 0) then pos 1048576 else size in
    let d = mul64 (add64 (quot64 size (pos 1048576)) (pos 1)) (pos 1500000000) in
    if pipelined
    then (if lt_ℤ d (pos 30000000000)
        then pos 30000000000
        else if lt_ℤ (pos 180000000000) d
        then pos 180000000000
        else d)
    else pos 45000000000

-- The plan of a strict split: the channel of a chunk's index. A missing index reads as "".
abbrev pub Assignment : Type 0
Assignment = ℤ → String

abbrev pub assign : Assignment → ℤ → String → Assignment
assign plan index channel = λ i. if eq_ℤ i index then channel else plan i

-- The loop of buildStrictPlan, with the two scores.
unfoldable pub strict_plan_from : ℤ → ℤ → ℤ → Assignment → List ChunkState → Assignment
strict_plan_from cable_pct cable_score wifi_score plan [] = plan
strict_plan_from cable_pct cable_score wifi_score plan (c ∷ cs) =
    let cable = add64 cable_score cable_pct in
    let wifi = add64 wifi_score (sub64 (pos 100) cable_pct) in
    let by_cable = le_ℤ wifi cable in
    strict_plan_from cable_pct (if by_cable then sub64 cable (pos 100) else cable)
      (if by_cable then wifi else sub64 wifi (pos 100))
      (assign plan c.index (if by_cable then "cable" else "wifi")) cs

unfoldable pub cable_share : ℤ → ℤ
cable_share cable_pct =
    if le_ℤ cable_pct (pos 0) || le_ℤ (pos 100) cable_pct then pos 50 else cable_pct

unfoldable pub build_strict_plan : List ChunkState → ℤ → Assignment
unfolding sort_by strict_plan_from cable_share
build_strict_plan chunks cable_pct =
    strict_plan_from (cable_share cable_pct) (pos 0) (pos 0) (λ i. "") (sort_by by_index chunks)

-- pickStrictPendingForChannel
unfoldable pub pick_strict : List ChunkState → String → Assignment → Option ℤ
pick_strict [] channel plan = none
pick_strict (p ∷ ps) channel plan =
    let rest = pick_strict ps channel plan in
    if str_eq (plan p.index) channel then some p.index else rest
