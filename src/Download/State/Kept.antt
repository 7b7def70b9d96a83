-- ===== src/Download/State/Kept.antt =====
-- What the statistics leave as it is.
use multi_send.Base.{
  ℕ, ◌≡◌, refl, ◌∙◌, List, [], ◌∷◌, Option, String, Bool, true, false, if◌then◌else◌,
}
use multi_send.Base.Int.{ℤ}
use multi_send.Base.Dict.{Dict, has_key}
use multi_send.Base.Float.{FloatOps}
use multi_send.Download.State.{State, Sample, ChannelStatus, channel_progress_from, two_zeros}
use multi_send.Download.State.Stats.{
  rates_from, refresh_channel_rates, refresh_stats, with_job_stats, progress_bytes,
}

module _ (fl : FloatOps) where
  either_branch :
      {X : Type 0} (p : State fl → X) (b : Bool) (x y : State fl)
      → p x ≡ p y
      → p (if b then x else y) ≡ p y
  either_branch p true x y e = e
  either_branch p false x y e = refl

  rates_from_kept :
      {X : Type 0} (p : State fl → X)
      → ((st : State fl) (a : Dict (List Sample)) (b : Dict (ChannelStatus fl))
          → p (record st { ch_samples = a; channels = b }) ≡ p st)
      → (ns : List String) (now : ℕ) (bytes : Dict ℤ) (st : State fl)
      → p (rates_from fl now bytes st ns) ≡ p st
  unfolding rates_from
  rates_from_kept p same [] now bytes st = refl
  rates_from_kept p same (n ∷ ns) now bytes st =
      rates_from_kept p same ns now bytes _
      ∙ either_branch p (has_key st.channels n) _ st (same st _ _)

  pub refresh_stats_mf :
      (now : ℕ) (size : ℤ → Option ℤ) (st : State fl) (n : ℤ)
      → (refresh_stats fl now size st n).mf ≡ st.mf
  unfolding refresh_stats refresh_channel_rates
  refresh_stats_mf now size st n =
      rates_from_kept (λ s. s.mf) (λ s a b. refl) ("cable" ∷ "wifi" ∷ []) now
        (channel_progress_from size two_zeros st.mf.chunks)
        (with_job_stats fl now st (progress_bytes fl size st n))

  pub refresh_stats_status :
      (now : ℕ) (size : ℤ → Option ℤ) (st : State fl) (n : ℤ)
      → (refresh_stats fl now size st n).job.status ≡ st.job.status
  unfolding refresh_stats refresh_channel_rates
  refresh_stats_status now size st n =
      rates_from_kept (λ s. s.job.status) (λ s a b. refl) ("cable" ∷ "wifi" ∷ []) now
        (channel_progress_from size two_zeros st.mf.chunks)
        (with_job_stats fl now st (progress_bytes fl size st n))
