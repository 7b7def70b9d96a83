-- ===== src/Scheduler/Backoff.antt =====
-- How long a failing channel is left alone.
use native.Mathlib.Nat.{pow-suc}
use native.Mathlib.Decide.{dec_le}
use multi_send.Base.{
  ℕ, ltb, zero, suc, ◌+◌, ◌-◌, ◌*◌, ◌^◌, ◌≤◌, ◌<◌, min, ◌≡◌, ◌≢◌, refl, ap, ◌∙◌, true, false,
  String, arith, if◌then◌else◌, Bool-cases, inl, inr,
}
use multi_send.Base.Int.{ℤ, pos, mul64_pos, add64, add64_pos, sub64_pos, le_ℤ, lt_ℤ}
use multi_send.Base.Dict.{at, at-put_self, at-put_ne}
use multi_send.Base.Float.{FloatOps}
use multi_send.Scheduler.{
  back_off, WeightedScheduler, zero_state, report_failure, report_success, cooldown_after,
}

one-le-two_pow : (n : ℕ) → 1 ≤ 2 ^ n
one-le-two_pow zero = omega arith
one-le-two_pow (suc n) = rw pow-suc (omega (arith, one-le-two_pow n))

double_pow : (cd n : ℕ) → cd * 2 ^ suc n ≡ cd * 2 * 2 ^ n
double_pow cd n = rw pow-suc (omega arith)

pow_grows : (cd n : ℕ) → cd ≤ cd * 2 ^ n
pow_grows cd n = grind (arith, one-le-two_pow n)

-- The loop's result is the doubled cooldown, cut at the maximum.
pub back_off_lem :
    (steps cap cd : ℕ)
    → 0 < cd
    → cd ≤ cap
    → cap < 4611686018427387904
    → back_off steps (pos cap) (pos cd) ≡ pos (min (cd * 2 ^ steps) cap)
unfolding back_off
back_off_lem zero cap cd h k m = ap pos (omega arith)
back_off_lem (suc steps) cap cd h k m =
    rw (mul64_pos cd 2 (omega arith)) (elim (dec_le cap (cd * 2)) [
      | yes capped ↦ ground (arith, pow_grows (cd * 2) steps, double_pow cd steps)
      | no more ↦ ground (arith, double_pow cd steps, back_off_lem steps cap (cd * 2))
    ])

module _ (fl : FloatOps) where
  cooldown_after_late :
      (now k cooldown cap ends : ℕ) (s : WeightedScheduler fl)
      → s.cooldown ≡ pos cooldown
      → s.max_cooldown ≡ pos cap
      → 0 < cooldown
      → cooldown ≤ cap
      → cap < 4611686018427387904
      → k < 1000000
      → 2 ≤ k
      → cooldown_after fl now s (pos (k + 1)) ends ≡ now + min (cooldown * 2 ^ (k - 2)) cap
  unfolding cooldown_after
  cooldown_after_late now k cooldown cap ends s hc hm h0 hle hcap small late =
      let steps : k + 1 - 3 ≡ k - 2 = omega arith in
      rw
        (
          hc,
          hm,
          sub64_pos (k + 1) 3 (omega arith) (omega arith),
          steps,
          back_off_lem (k - 2) cap cooldown h0 hle hcap,
        )
        (ground arith)

  cooldown_after_early :
      (now k ends : ℕ) (s : WeightedScheduler fl)
      → k < 2
      → cooldown_after fl now s (pos (k + 1)) ends ≡ ends
  unfolding cooldown_after
  cooldown_after_early now k ends s h = ground arith

  cooldown_after_cases :
      (now k cooldown cap ends : ℕ) (s : WeightedScheduler fl)
      → s.cooldown ≡ pos cooldown
      → s.max_cooldown ≡ pos cap
      → 0 < cooldown
      → cooldown ≤ cap
      → cap < 4611686018427387904
      → k < 1000000
      → cooldown_after fl now s (pos (k + 1)) ends
        ≡ (if ltb k 2 then ends else now + min (cooldown * 2 ^ (k - 2)) cap)
  cooldown_after_cases now k cooldown cap ends s hc hm h0 hle hcap small = ground (
    arith,
    cooldown_after_late now k cooldown cap ends s hc hm h0 hle hcap small,
    cooldown_after_early now k ends s,
  )

  -- A failure of a channel that has failed k times in a row is counted. Below two earlier failures
  -- its cooldown stays as it was. From then on it ends after the scheduler's cooldown, doubled k - 2
  -- times and cut at the maximum. No other channel's state changes. (The bounds on k and on the
  -- maximum keep the counters within int64.)
  pub report_failure_lem :
      (now k cooldown cap : ℕ) (s : WeightedScheduler fl) (channel other : String)
      → s.cooldown ≡ pos cooldown
      → s.max_cooldown ≡ pos cap
      → 0 < cooldown
      → cooldown ≤ cap
      → cap < 4611686018427387904
      → (at (zero_state fl) s.channel_states channel).failures ≡ pos k
      → k < 1000000
      → channel ≢ other
      → let before = at (zero_state fl) s.channel_states channel in
        let after = (report_failure fl now s channel).channel_states in
        ((at (zero_state fl) after channel).failures ≡ pos (k + 1))
        × ((at (zero_state fl) after channel).cooldown_ends
            ≡ (if ltb k 2 then before.cooldown_ends else now + min (cooldown * 2 ^ (k - 2)) cap))
        × (at (zero_state fl) after other ≡ at (zero_state fl) s.channel_states other)
  unfolding report_failure
  report_failure_lem now k cooldown cap s channel other hc hm h0 hle hcap hk small ne =
      let st = at (zero_state fl) s.channel_states channel in
      let counted : add64 st.failures (pos 1) ≡ pos (k + 1) = rw hk (add64_pos k 1 (omega arith)) in
      let self = at-put_self (zero_state fl) s.channel_states channel (record st {
        failures = add64 st.failures (pos 1);
        cooldown_ends = cooldown_after fl now s (add64 st.failures (pos 1)) st.cooldown_ends;
      }) in
      (
        ap (λ x. x.failures) self ∙ counted,
        ap (λ x. x.cooldown_ends) self
            ∙ ap (λ f. cooldown_after fl now s f st.cooldown_ends) counted
            ∙ cooldown_after_cases now k cooldown cap st.cooldown_ends s hc hm h0 hle hcap small,
        at-put_ne (zero_state fl) s.channel_states channel other _ ne,
      )

  -- A success ends the cooldown and the count of failures of its channel, and no other channel's
  -- state changes. A success that took no time is not counted.
  pub report_success_lem :
      (s : WeightedScheduler fl) (channel other : String) (bytes duration : ℤ)
      → channel ≢ other
      → let before = at (zero_state fl) s.channel_states channel in
        let s' = report_success fl s channel bytes duration in
        let after = at (zero_state fl) s'.channel_states channel in
        (after.failures ≡ (if lt_ℤ (pos 0) duration then pos 0 else before.failures))
        × (after.cooldown_ends ≡ (if lt_ℤ (pos 0) duration then 0 else before.cooldown_ends))
        × (at (zero_state fl) s'.channel_states other ≡ at (zero_state fl) s.channel_states other)
        × (s'.next_chunk_pos ≡ s.next_chunk_pos)
  unfolding report_success
  report_success_lem s channel other bytes duration ne = elim (Bool-cases (le_ℤ duration (pos 0))) [
    | inl idle ↦ rw (idle, not_timed duration idle) (refl, refl, refl, refl)
    | inr timed ↦
        rw (timed, is_timed duration timed)
          (
            ap (λ x. x.failures) (at-put_self _ s.channel_states channel _),
            ap (λ x. x.cooldown_ends) (at-put_self _ s.channel_states channel _),
            at-put_ne (zero_state fl) s.channel_states channel other _ ne,
            refl,
          )
  ]
    where
      not_timed : (d : ℤ) → le_ℤ d (pos 0) ≡ true → lt_ℤ (pos 0) d ≡ false
      not_timed d h = ground arith

      is_timed : (d : ℤ) → le_ℤ d (pos 0) ≡ false → lt_ℤ (pos 0) d ≡ true
      is_timed d h = ground arith
