-- ===== src/Tests/Schedules.antt =====
-- A scheduler with two channels, over numbers shifted by one in place of floats.
use mathlib.Core.List.{Memᴰ}
use multi_send.Base.{
  ℕ, suc, ◌+◌, ◌-◌, ◌*◌, ◌/◌, ◌%◌, ◌^◌, min, ◌≡◌, ◌≢◌, refl, [], ◌∷◌, some, String, arith, ltb, leb,
  ◌==◌, true, get_elem?,
}
use multi_send.Base.Int.{pos, pos_part, add64, rem64, wrap64}
use multi_send.Base.Dict.{at, str_eq_iff}
use multi_send.Base.Float.{FloatOps}
use multi_send.Manifest.{ChunkState}
use multi_send.Scheduler.{
  Channel, WeightedScheduler, zero_state, next_chunk, report_failure, report_success, pick,
  score_of,
}
use multi_send.Scheduler.Backoff.{report_failure_lem, report_success_lem}
use multi_send.Scheduler.Choice.{IsEligible, ScoresAboveFloor, next_chunk_safe, next_chunk_live}
use multi_send.Tests.Manifests.{three}

-- `suc n` stands for n, and 0 for what is below zero.
abbrev pub shifted : FloatOps
shifted = record {
  Float = ℕ;
  lit = λ m d. suc (m / 10 ^ d);
  negate = λ x. 0;
  of_int = λ z. suc (pos_part z);
  fadd = λ x y. suc (x - 1 + (y - 1));
  fmul = λ x y. suc ((x - 1) * (y - 1));
  fdiv = λ x y. suc ((x - 1) / (y - 1));
  flt = ltb;
  fle = leb;
  feq = ◌==◌;
}

abbrev cable : Channel shifted
cable = record {
  name = "cable";
  active = true;
  in_flight = pos 0;
  mbps30s = 58;
  failures = pos 0;
  last_error = [];
}

abbrev wifi : Channel shifted
wifi = record {
  name = "wifi";
  active = true;
  in_flight = pos 1;
  mbps30s = 21;
  failures = pos 0;
  last_error = [];
}

abbrev fresh : WeightedScheduler shifted
fresh = record {
  cooldown = pos 10000000000;
  max_cooldown = pos 40000000000;
  channel_states = [];
  next_chunk_pos = pos 0;
}

abbrev failed_often : WeightedScheduler shifted
failed_often = record fresh {
  channel_states = ("wifi", record { failures = pos 4; cooldown_ends = 3; mbps30s = 1 }) ∷ [];
}

-- The fifth failure in a row.
report_failure_lem_example :
    let after = (report_failure shifted 100 failed_often "wifi").channel_states in
    ((at (zero_state shifted) after "wifi").failures ≡ pos 5)
    × ((at (zero_state shifted) after "wifi").cooldown_ends
        ≡ 100 + min (10000000000 * 2 ^ 2) 40000000000)
    × (at (zero_state shifted) after "cable"
        ≡ at (zero_state shifted) failed_often.channel_states "cable")
report_failure_lem_example =
    report_failure_lem shifted 100 4 10000000000 40000000000 failed_often "wifi" "cable" refl refl
      (omega arith) (omega arith) (omega arith) (unfold at in refl) (omega arith) names_differ
  where
    names_differ : ◌≢◌ {A = String} "wifi" "cable"
    names_differ = ground (arith, str_eq_iff "wifi" "cable")

report_success_lem_example :
    let s' = report_success shifted failed_often "wifi" (pos 4000000) (pos 1000000000) in
    let after = at (zero_state shifted) s'.channel_states "wifi" in
    (after.failures ≡ pos 0)
    × (after.cooldown_ends ≡ 0)
    × (at (zero_state shifted) s'.channel_states "cable"
        ≡ at (zero_state shifted) failed_often.channel_states "cable")
    × (s'.next_chunk_pos ≡ pos 0)
report_success_lem_example =
    report_success_lem shifted failed_often "wifi" "cable" (pos 4000000) (pos 1000000000)
      (ground (arith, str_eq_iff "wifi" "cable"))

picks_cable :
    (next_chunk shifted 100 fresh three.chunks (wifi ∷ cable ∷ [])).1 ≡ pick (pos 0) "cable"
unfolding next_chunk rem64 wrap64 add64
picks_cable = refl

next_chunk_safe_example :
    ((c : Channel shifted) × Memᴰ c (wifi ∷ cable ∷ [])
      × IsEligible shifted 100 fresh.channel_states c
      × (c.name ≡ "cable"))
    × ((p : ChunkState) × Memᴰ p three.chunks × (p.index ≡ pos 0))
next_chunk_safe_example =
    next_chunk_safe shifted 100 fresh three.chunks (wifi ∷ cable ∷ []) (pos 0) "cable" picks_cable

scores_above_floor : ScoresAboveFloor shifted fresh.channel_states wifi
unfolding score_of
scores_above_floor = ground arith

next_chunk_live_example :
    (p : ChunkState) × (channel : String) × (get_elem? three.chunks (0 % 3) ≡ some p)
    × (next_chunk shifted 100 fresh three.chunks (wifi ∷ cable ∷ [])
        ≡ (record fresh { next_chunk_pos = add64 (pos 0) (pos 1) }, pick p.index channel))
next_chunk_live_example =
    next_chunk_live shifted 100 0 fresh three.chunks (wifi ∷ cable ∷ []) wifi (omega arith) refl
      scores_above_floor
      (ground (arith, str_eq_iff "wifi" ""), (ground (arith, str_eq_iff "cable" ""), tt))
      (Memᴰ.head refl) (record { is_active = refl; is_ready = unfold at in omega arith })
