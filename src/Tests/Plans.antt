-- ===== src/Tests/Plans.antt =====
-- Chunk plans and splits of concrete sizes.
use multi_send.Base.{ℕ, ◌+◌, ◌*◌, ◌≤◌, ◌<◌, ◌⊎◌, ◌≡◌, refl, [], ◌∷◌, some, arith, ok, err}
use multi_send.Base.Int.{ℤ, pos, negsuc, ◌≤ℤ◌, ◌<ℤ◌, add64, wrap64, sub64}
use multi_send.Chunk.{ChunkPlan, build_plan, build_chunks, auto_chunk_size}
use multi_send.Chunk.Plan.{IsPlan, build_plan-IsPlan, auto_chunk_size_mono}
use multi_send.Split.{compute_parts, invalid_inputs}
use multi_send.Split.Exact.{compute_parts_exact, compute_parts_sum, compute_parts_overflow}

-- Ten bytes in chunks of four.
build_plan-IsPlan_example :
    (plan : ChunkPlan) × (build_plan 4 (pos 10) (pos 4) ≡ some (ok plan)) × IsPlan 10 4 plan
build_plan-IsPlan_example = build_plan-IsPlan 4 10 4 (omega arith) (omega arith) (omega arith)

build_plan_runs :
    build_plan 4 (pos 10) (pos 4)
    ≡ some (
        ok (record {
          total_bytes = pos 10;
          chunk_size = pos 4;
          chunks =
              record { index = pos 0; offset = pos 0; size = pos 4; start = pos 0; end = pos 3 }
              ∷ record { index = pos 1; offset = pos 4; size = pos 4; start = pos 4; end = pos 7 }
              ∷ record { index = pos 2; offset = pos 8; size = pos 2; start = pos 8; end = pos 9 }
              ∷ [];
        }))
unfolding build_plan build_chunks add64 sub64 wrap64
build_plan_runs = refl

auto_chunk_size_mono_example :
    (auto_chunk_size (pos 5) ≤ℤ auto_chunk_size (pos 5000000000))
    × (pos 2097152 ≤ℤ auto_chunk_size (pos 5))
    × (auto_chunk_size (pos 5000000000) ≤ℤ pos 16777216)
auto_chunk_size_mono_example = auto_chunk_size_mono (pos 5) (pos 5000000000) (omega arith)

compute_parts_exact_example :
    (left right : ℕ) × (compute_parts (pos 10) (pos 2) (pos 1) ≡ ok (pos left, pos right))
    × (left + right ≡ 10)
    × (left * (2 + 1) ≤ 10 * 2)
    × (10 * 2 < (left + 1) * (2 + 1))
compute_parts_exact_example =
    compute_parts_exact 10 2 1 (omega arith) (omega arith) (omega arith) (omega arith)

compute_parts_sum_example :
    ((pos 10 <ℤ pos 0) ⊎ ((pos 2 ≤ℤ pos 0) ⊎ (negsuc 0 ≤ℤ pos 0)))
      × (compute_parts (pos 10) (pos 2) (negsuc 0)
          ≡ err (invalid_inputs (pos 10) (pos 2) (negsuc 0)))
    ⊎ (pos 0 ≤ℤ pos 10)
      × (pos 0 <ℤ pos 2)
      × (pos 0 <ℤ negsuc 0)
      × ((left right : ℤ) × (compute_parts (pos 10) (pos 2) (negsuc 0) ≡ ok (left, right))
          × (add64 left right ≡ pos 10))
compute_parts_sum_example = compute_parts_sum (pos 10) (pos 2) (negsuc 0) (omega arith)

compute_parts_overflow_example :
    (left right : ℤ) × (compute_parts (pos 4611686018427387904) (pos 3) (pos 1) ≡ ok (left, right))
    × (left ≤ℤ pos 0)
compute_parts_overflow_example =
    compute_parts_overflow 4611686018427387904 3 1 (omega arith) (omega arith) (omega arith)
      (omega arith) (omega arith)
