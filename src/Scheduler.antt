-- ===== src/Scheduler.antt =====
-- internal/scheduler/scheduler.go: which channel gets the next chunk, and how failures back off.
-- The clock is the argument `now`, in nanoseconds; a zero time.Time is 0. Methods hold the mutex,
-- so each is one step on the state.
pub mod Backoff
pub mod Choice
use multi_send.Base.{
  ℕ, zero, suc, ◌+◌, ◌-◌, Bool, true, false, ◌&&◌, not, List, [], ◌∷◌, Option, none, some, String,
  length, get_elem?, ltb, if◌then◌else◌,
}
use multi_send.Base.Int.{
  ℤ, pos, negsuc, pos_part, neg_part, lt_ℤ, le_ℤ, eq_ℤ, add64, sub64, mul64, rem64,
}
use multi_send.Base.Text.{Text}
use multi_send.Base.Dict.{Dict, str_eq, at, put}
use multi_send.Base.Float.{FloatOps}
use multi_send.Manifest.{ChunkState}

-- t.Add(d)
abbrev pub time_add : ℕ → ℤ → ℕ
time_add t d = t + pos_part d - neg_part d

-- The loop over `backoffSteps` of ReportFailure: the cooldown doubles up to the maximum.
unfoldable pub back_off : ℕ → ℤ → ℤ → ℤ
back_off zero max_cooldown cd = cd
back_off (suc steps) max_cooldown cd =
    let doubled = mul64 cd (pos 2) in
    let later = back_off steps max_cooldown doubled in
    if lt_ℤ (pos 0) max_cooldown && le_ℤ max_cooldown doubled then max_cooldown else later

module _ (fl : FloatOps) where
  open fl use {Float, lit, negate, of_int, fadd, fmul, fdiv, flt, fle, feq}

  pub record Channel : Type 0 where
    pub name : String
    pub active : Bool
    pub in_flight : ℤ
    pub mbps30s : Float
    pub failures : ℤ
    pub last_error : Text

  -- type state
  pub record ChannelState : Type 0 where
    pub failures : ℤ
    pub cooldown_ends : ℕ
    pub mbps30s : Float

  pub record WeightedScheduler : Type 0 where
    pub cooldown : ℤ
    pub max_cooldown : ℤ
    pub channel_states : Dict ChannelState
    pub next_chunk_pos : ℤ

  -- The zero value of `state`.
  abbrev pub zero_state : ChannelState
  zero_state = record { failures = pos 0; cooldown_ends = 0; mbps30s = lit 0 0 }

  unfoldable pub new_weighted_scheduler : WeightedScheduler
  new_weighted_scheduler = record {
    cooldown = pos 10000000000;
    max_cooldown = pos 40000000000;
    channel_states = [];
    next_chunk_pos = pos 0;
  }

  -- bestChannel and bestScore of NextChunk. No channel yet is the empty name.
  pub record Best : Type 0 where
    pub channel : String
    pub score : Float

  -- The weighted speed of a channel.
  unfoldable pub score_of : Channel → ChannelState → Float
  score_of c st =
      let mbps = if flt c.mbps30s st.mbps30s then st.mbps30s else c.mbps30s in
      let mbps = if feq mbps (lit 0 0) && eq_ℤ c.in_flight (pos 0) then lit 10 0 else mbps in
      let score = fdiv mbps (of_int (add64 c.in_flight (pos 1))) in
      if eq_ℤ c.in_flight (pos 0) && flt (lit 0 0) mbps then fmul score (lit 15 1) else score

  -- The loop's body for a channel that is active and not cooling down.
  unfoldable pub improve : Best → Channel → Float → Best
  improve best c score =
      if not (str_eq best.channel "") && fle score (fmul best.score (lit 105 2))
      then best
      else if flt best.score score
      then record { channel = c.name; score = score }
      else best

  unfoldable pub consider : ℕ → Dict ChannelState → Best → Channel → Best
  unfolding score_of improve at
  consider now states best c =
      let st = at zero_state states c.name in
      if not c.active
      then best
      else if ltb now st.cooldown_ends
      then best
      else improve best c (score_of c st)

  unfoldable pub best_channel : ℕ → Dict ChannelState → Best → List Channel → Best
  unfolding consider
  best_channel now states best [] = best
  best_channel now states best (c ∷ cs) = best_channel now states (consider now states best c) cs

  abbrev pub no_best : Best
  no_best = record { channel = ""; score = negate (lit 1 0) }

  -- What NextChunk returns; `index_panic` is an index out of range.
  pub data Pick : Type 0 where
    no_pick : Pick
    pick : (index : ℤ) (channel : String) → Pick
    index_panic : Pick

  -- pending[i], where i may be negative after 2 ^ 63 picks.
  abbrev pub pick_at : ℤ → List ChunkState → String → Pick
  pick_at (negsuc n) pending channel = index_panic
  pick_at (pos n) pending channel = elim (get_elem? pending n) [
    | none ↦ index_panic
    | some c ↦ pick c.index channel
  ]

  unfoldable pub next_chunk :
      ℕ → WeightedScheduler → List ChunkState → List Channel → WeightedScheduler × Pick
  unfolding best_channel
  next_chunk now s [] channels = (s, no_pick)
  next_chunk now s (p ∷ ps) channels =
      let best = best_channel now s.channel_states no_best channels in
      if str_eq best.channel "" then (s, no_pick) else (
        record s { next_chunk_pos = add64 s.next_chunk_pos (pos 1) },
        pick_at (rem64 s.next_chunk_pos (pos (length (p ∷ ps)))) (p ∷ ps) best.channel,
      )

  -- `duration.Seconds()` is the duration in nanoseconds over 10 ^ 9.
  unfoldable pub report_success : WeightedScheduler → String → ℤ → ℤ → WeightedScheduler
  unfolding at put
  report_success s channel bytes duration =
      if le_ℤ duration (pos 0)
      then s
      else (let st = at zero_state s.channel_states channel in
          let mbps =
            fdiv (fdiv (fmul (of_int bytes) (lit 8 0)) (fdiv (of_int duration) (lit 1000000000 0)))
              (lit 1000000 0) in
          let average =
            if feq st.mbps30s (lit 0 0)
            then mbps
            else fadd (fmul st.mbps30s (lit 6 1)) (fmul mbps (lit 4 1)) in
          record s {
            channel_states =
                put s.channel_states channel
                  (record { failures = pos 0; cooldown_ends = 0; mbps30s = average });
          })

  -- When the cooldown of a channel ends that has failed that often.
  unfoldable pub cooldown_after : ℕ → WeightedScheduler → ℤ → ℕ → ℕ
  unfolding back_off
  cooldown_after now s failures ends =
      if le_ℤ (pos 3) failures && lt_ℤ (pos 0) s.cooldown
      then time_add now (back_off (pos_part (sub64 failures (pos 3))) s.max_cooldown s.cooldown)
      else ends

  unfoldable pub report_failure : ℕ → WeightedScheduler → String → WeightedScheduler
  unfolding cooldown_after at put
  report_failure now s channel =
      let st = at zero_state s.channel_states channel in
      let failures = add64 st.failures (pos 1) in
      record s {
        channel_states = put s.channel_states channel (record st {
          failures = failures;
          cooldown_ends = cooldown_after now s failures st.cooldown_ends;
        });
      }
