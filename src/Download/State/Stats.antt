-- ===== src/Download/State/Stats.antt =====
-- refreshChannelRates and refreshStatsLocked: speeds, counts and progress.
use multi_send.Base.{ℕ, ◌&&◌, List, [], ◌∷◌, Option, String, if◌then◌else◌}
use multi_send.Base.Int.{ℤ, pos, sub_ℕ, lt_ℤ, le_ℤ, sub64}
use multi_send.Base.Dict.{Dict, at, has_key, put}
use multi_send.Base.Float.{FloatOps}
use multi_send.Download.State.{
  ChannelStatus, Job, State, Sample, Counts, no_counts, tally, add_sample, estimate_progress_bytes,
  channel_progress_from, two_zeros,
}
use multi_send.Download.State.Updates.{zero_status, with_channels}

module _ (fl : FloatOps) where
  open fl use {Float, lit, of_int, fmul, fdiv, flt}

  -- d.Seconds(), of nanoseconds.
  abbrev pub seconds : ℤ → Float
  seconds d = fdiv (of_int d) (lit 1000000000 0)

  -- Megabits per second of bytes over a time.
  abbrev pub mbps : ℤ → Float → Float
  mbps bytes secs = fdiv (fmul (of_int bytes) (lit 8 0)) (fmul secs (lit 1000000 0))

  -- The rates of a channel, from its samples, the latest last.
  abbrev pub with_rates : Float → List Sample → ChannelStatus fl → ChannelStatus fl
  with_rates elapsed [] cs = record cs {
    mbps_now = lit 0 0;
    mbps_avg = if flt (lit 0 0) elapsed then mbps cs.bytes_sent elapsed else lit 0 0;
  }
  with_rates elapsed (s ∷ []) cs = record cs {
    mbps_now = lit 0 0;
    mbps_avg = if flt (lit 0 0) elapsed then mbps cs.bytes_sent elapsed else lit 0 0;
  }
  with_rates elapsed (prev ∷ last ∷ []) cs =
      let d = seconds (sub_ℕ last.at_time prev.at_time) in
      record cs {
        mbps_now =
            if flt (lit 0 0) d && le_ℤ prev.bytes last.bytes
            then mbps (sub64 last.bytes prev.bytes) d
            else cs.mbps_now;
        mbps_avg = if flt (lit 0 0) elapsed then mbps cs.bytes_sent elapsed else cs.mbps_avg;
      }
  with_rates elapsed (s ∷ t ∷ u ∷ ss) cs = with_rates elapsed (t ∷ u ∷ ss) cs

  -- The loop of refreshChannelRates.
  unfoldable pub rates_from : ℕ → Dict ℤ → State fl → List String → State fl
  unfolding at put has_key
  rates_from now bytes st [] = st
  rates_from now bytes st (n ∷ ns) =
      let cs = record (at (zero_status fl) st.channels n) { bytes_sent = at (pos 0) bytes n } in
      let samples = add_sample now cs.bytes_sent (at [] st.ch_samples n) in
      rates_from now bytes
        (if has_key st.channels n
          then record st {
            ch_samples = put st.ch_samples n samples;
            channels =
                put st.channels n (with_rates (seconds (sub_ℕ now st.started_at)) samples cs);
          }
          else st)
        ns

  unfoldable pub refresh_channel_rates : ℕ → (ℤ → Option ℤ) → State fl → State fl
  unfolding rates_from channel_progress_from
  refresh_channel_rates now part_size st =
      let st =
        rates_from now (channel_progress_from part_size two_zeros st.mf.chunks) st
          ("cable" ∷ "wifi" ∷ []) in
      with_channels fl st st.channels

  -- What refreshStatsLocked writes to the job, from the bytes and the counts.
  abbrev pub with_counts : Job fl → ℤ → Counts → Job fl
  with_counts job bytes n = record job {
    bytes_done = bytes;
    percent =
        if lt_ℤ (pos 0) job.total_bytes
        then fdiv (fmul (of_int bytes) (lit 100 0)) (of_int job.total_bytes)
        else job.percent;
    chunks_done = n.done_count;
    chunks_failed = n.failed_count;
    chunks_pending = n.pending_count;
    chunks_sending = n.sending_count;
    failed_chunks = n.failed_list;
  }

  -- refreshStatsLocked up to the channels' rates, with the progress in bytes.
  abbrev pub with_job_stats : ℕ → State fl → ℤ → State fl
  with_job_stats now st bytes =
      let job = with_counts st.job bytes (tally no_counts st.mf.chunks) in
      let delta = seconds (sub_ℕ now st.last_at) in
      let diff = sub64 bytes st.last_bytes in
      let elapsed = seconds (sub_ℕ now st.started_at) in
      record st {
        job = record job {
          mbps_now =
              if flt (lit 0 0) delta && le_ℤ (pos 0) diff then mbps diff delta else job.mbps_now;
          mbps_avg = if flt (lit 0 0) elapsed then mbps bytes elapsed else job.mbps_avg;
        };
        samples = add_sample now bytes st.samples;
      }

  -- The larger of the estimate and the counter.
  abbrev pub progress_bytes : (ℤ → Option ℤ) → State fl → ℤ → ℤ
  progress_bytes part_size st done_bytes =
      let estimate = estimate_progress_bytes part_size st.mf st.job.total_bytes in
      if lt_ℤ estimate done_bytes then done_bytes else estimate

  unfoldable pub refresh_stats : ℕ → (ℤ → Option ℤ) → State fl → ℤ → State fl
  unfolding estimate_progress_bytes tally refresh_channel_rates
  refresh_stats now part_size st done_bytes =
      let bytes = progress_bytes part_size st done_bytes in
      record (refresh_channel_rates now part_size (with_job_stats now st bytes)) {
        last_at = now;
        last_bytes = bytes;
      }
