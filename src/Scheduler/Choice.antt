-- ===== src/Scheduler/Choice.antt =====
-- Which channel and which chunk NextChunk picks, and that it does pick.
use mathlib.Core.List.{Memᴰ}
use multi_send.Base.{
  ℕ, zero, suc, ◌%◌, ◌≤◌, ◌<◌, ◌≡◌, ◌≢◌, ◌⊎◌, inl, inr, refl, sym, ap, ◌∙◌, subst, true, false,
  List, [], ◌∷◌, String, arith, Bool-cases, Option-cases, length, get_elem?, some, All,
}
use multi_send.Base.Int.{ℤ, pos, negsuc, add64, rem64}
use multi_send.Base.Dict.{Dict, at, str_eq, str_eq_iff}
use multi_send.Base.Float.{FloatOps}
use multi_send.Manifest.{ChunkState}
use multi_send.Scheduler.{
  Channel, ChannelState, WeightedScheduler, zero_state, Best, no_best, pick, pick_at, score_of,
  consider, best_channel, next_chunk,
}

get_elem?-mem {ℓ} : {A : Type ℓ} (xs : List A) (n : ℕ) (a : A) → get_elem? xs n ≡ some a → Memᴰ a xs
get_elem?-mem [] n a h = cc
get_elem?-mem (x ∷ xs) zero a h = Memᴰ.head (cc)
get_elem?-mem (x ∷ xs) (suc n) a h = Memᴰ.tail (get_elem?-mem xs n a h)

get_elem?-in_range {ℓ} :
    {A : Type ℓ} (xs : List A) (n : ℕ) → n < length xs → (a : A) × (get_elem? xs n ≡ some a)
get_elem?-in_range [] n h = absurd (omega arith)
get_elem?-in_range (x ∷ xs) zero h = (x, refl)
get_elem?-in_range (x ∷ xs) (suc n) h = get_elem?-in_range xs n (omega arith)

module _ (fl : FloatOps) where
  open fl use {Float, lit, negate, flt}

  -- The channel is active, and its cooldown is over.
  pub record IsEligible (now : ℕ) (states : Dict (ChannelState fl)) (c : Channel fl) : Type 0 where
    pub is_active : c.active ≡ true
    pub is_ready : (at (zero_state fl) states c.name).cooldown_ends ≤ now

  consider_cases :
      (now : ℕ) (states : Dict (ChannelState fl)) (best : Best fl) (c : Channel fl)
      → (consider fl now states best c ≡ best)
        ⊎ IsEligible now states c × ((consider fl now states best c).channel ≡ c.name)
  unfolding consider
  consider_cases now states best c = ground arith

  best_channel_cases :
      (now : ℕ) (states : Dict (ChannelState fl)) (cs : List (Channel fl)) (best : Best fl)
      → (best_channel fl now states best cs ≡ best)
        ⊎ ((c : Channel fl) × Memᴰ c cs
            × IsEligible now states c
            × ((best_channel fl now states best cs).channel ≡ c.name))
  unfolding best_channel
  best_channel_cases now states [] best = inl refl
  best_channel_cases now states (c ∷ cs) best =
      elim (best_channel_cases now states cs (consider fl now states best c)) [
        | inr (d, m, e, q) ↦ inr (d, Memᴰ.tail m, e, q)
        | inl same ↦ elim (consider_cases now states best c) [
          | inl kept ↦ inl (same ∙ kept)
          | inr (e, q) ↦ inr (c, Memᴰ.head refl, e, ap (λ b. b.channel) same ∙ q)
        ]
      ]

  pick_at-mem :
      (i : ℤ) (cs : List ChunkState) (name : String) (index : ℤ) (channel : String)
      → pick_at fl i cs name ≡ pick index channel
      → ((p : ChunkState) × Memᴰ p cs × (p.index ≡ index)) × (name ≡ channel)
  pick_at-mem (negsuc n) cs name index channel h = cc
  pick_at-mem (pos n) cs name index channel h = elim (Option-cases (get_elem? cs n)) [
    | inl e ↦ let q = rw (e, pick_at) at h in absurd (cc)
    | inr (p, e) ↦ let q = rw (e, pick_at) at h in ((p, get_elem?-mem cs n p e, cc), cc)
  ]

  pick_at_found :
      (n : ℕ) (cs : List ChunkState) (name : String) (p : ChunkState)
      → get_elem? cs n ≡ some p
      → pick_at fl (pos n) cs name ≡ pick p.index name
  pick_at_found n cs name p e = rw (e, pick_at)

  -- NextChunk picks only a channel of its list that is active and not cooling down, and a chunk that
  -- is pending.
  pub next_chunk_safe :
      (now : ℕ) (s : WeightedScheduler fl) (pending : List ChunkState)
      (channels : List (Channel fl)) (index : ℤ) (channel : String)
      → (next_chunk fl now s pending channels).1 ≡ pick index channel
      → ((c : Channel fl) × Memᴰ c channels
          × IsEligible now s.channel_states c
          × (c.name ≡ channel))
        × ((p : ChunkState) × Memᴰ p pending × (p.index ≡ index))
  unfolding next_chunk
  next_chunk_safe now s [] channels index channel h = cc
  next_chunk_safe now s (p ∷ ps) channels index channel h =
      elim (Bool-cases
        (str_eq (best_channel fl now s.channel_states (no_best fl) channels).channel "")) [
          | inl nobody ↦ let q = rw nobody at h in absurd (cc)
          | inr somebody ↦
              let q = rw somebody at h in
              let (found, named) =
                pick_at-mem (rem64 s.next_chunk_pos (pos (length (p ∷ ps)))) (p ∷ ps)
                  (best_channel fl now s.channel_states (no_best fl) channels).channel index channel
                  q in
              elim (best_channel_cases now s.channel_states channels (no_best fl)) [
                | inl same ↦ absurd (nameless (ap (λ b. b.channel) same) somebody)
                | inr (c, m, e, r) ↦ ((c, m, e, sym r ∙ named), found)
              ]
        ]
    where
      nameless : {x : String} → x ≡ "" → str_eq x "" ≡ false → ⊥
      nameless e f = let q = rw e at f in cc

  consider_kept :
      (now : ℕ) (states : Dict (ChannelState fl)) (best : Best fl) (c : Channel fl)
      → c.name ≢ ""
      → best.channel ≢ ""
      → (consider fl now states best c).channel ≢ ""
  consider_kept now states best c h k = elim (consider_cases now states best c) [
    | inl same ↦ λ e. k (ap (λ b. b.channel) (sym same) ∙ e)
    | inr (_, named) ↦ λ e. h (sym named ∙ e)
  ]

  best_channel_kept :
      (now : ℕ) (states : Dict (ChannelState fl)) (cs : List (Channel fl)) (best : Best fl)
      → All (λ c. c.name ≢ "") cs
      → best.channel ≢ ""
      → (best_channel fl now states best cs).channel ≢ ""
  unfolding best_channel
  best_channel_kept now states [] best h k = k
  best_channel_kept now states (c ∷ cs) best h k =
      best_channel_kept now states cs (consider fl now states best c) h.1
        (consider_kept now states best c h.0 k)

  -- The channel's score is above the -1 that the search starts from.
  abbrev pub ScoresAboveFloor : Dict (ChannelState fl) → Channel fl → Type 0
  ScoresAboveFloor states c =
      flt (negate (lit 1 0)) (score_of fl c (at (zero_state fl) states c.name)) ≡ true

  consider_first :
      (now : ℕ) (states : Dict (ChannelState fl)) (c : Channel fl)
      → ScoresAboveFloor states c
      → IsEligible now states c
      → (consider fl now states (no_best fl) c).channel ≡ c.name
  unfolding consider
  consider_first now states c high e = ground (arith, high, e.is_active, e.is_ready)

  best_channel_found :
      (now : ℕ) (states : Dict (ChannelState fl)) (cs : List (Channel fl)) (c : Channel fl)
      → ScoresAboveFloor states c
      → All (λ d. d.name ≢ "") cs
      → Memᴰ c cs
      → IsEligible now states c
      → (best_channel fl now states (no_best fl) cs).channel ≢ ""
  unfolding best_channel
  best_channel_found now states [] c high names m e = elim m [ ]
  best_channel_found now states (d ∷ cs) c high names (Memᴰ.head same) e =
      best_channel_kept now states cs (consider fl now states (no_best fl) d) names.1 (
        first d names.0 (subst (ScoresAboveFloor states) same high)
          (subst (IsEligible now states) same e))
    where
      first :
          (x : Channel fl)
          → x.name ≢ ""
          → ScoresAboveFloor states x
          → IsEligible now states x
          → (consider fl now states (no_best fl) x).channel ≢ ""
      first x h score k q = h (sym (consider_first now states x score k) ∙ q)
  best_channel_found now states (d ∷ cs) c high names (Memᴰ.tail m) e =
      elim (consider_cases now states (no_best fl) d) [
        | inl same ↦
            subst (λ b. (best_channel fl now states b cs).channel ≢ "") (sym same)
              (best_channel_found now states cs c high names.1 m e)
        | inr (k, named) ↦
            best_channel_kept now states cs (consider fl now states (no_best fl) d) names.1
              (λ q. names.0 (sym named ∙ q))
      ]

  -- With a chunk pending, every listed channel named, and among them one that is active, not cooling
  -- down and has a score above the -1 that the search starts from, NextChunk picks some channel, and
  -- the pending chunk whose turn it is, round robin; the position moves on by one. The position is not
  -- negative.
  pub next_chunk_live :
      (now n : ℕ) (s : WeightedScheduler fl) (pending : List ChunkState)
      (channels : List (Channel fl)) (c : Channel fl)
      → 0 < length pending
      → s.next_chunk_pos ≡ pos n
      → ScoresAboveFloor s.channel_states c
      → All (λ d. d.name ≢ "") channels
      → Memᴰ c channels
      → IsEligible now s.channel_states c
      → (p : ChunkState) × (channel : String) × (get_elem? pending (n % length pending) ≡ some p)
        × (next_chunk fl now s pending channels
            ≡ (record s { next_chunk_pos = add64 (pos n) (pos 1) }, pick p.index channel))
  unfolding next_chunk rem64
  next_chunk_live now n s [] channels c some_pending hn high names m e = absurd (omega arith)
  next_chunk_live now n s (p ∷ ps) channels c some_pending hn high names m e =
      let (q, there) = get_elem?-in_range (p ∷ ps) (n % length (p ∷ ps)) (omega arith) in
      let best = best_channel fl now s.channel_states (no_best fl) channels in
      let somebody =
        named best.channel (best_channel_found now s.channel_states channels c high names m e) in
      (
        q,
        best.channel,
        there,
        rw (somebody, hn)
            (ap (λ x. (record s { next_chunk_pos = add64 (pos n) (pos 1) }, x))
              (pick_at_found (n % length (p ∷ ps)) (p ∷ ps) best.channel q there)),
      )
    where
      named : (x : String) → x ≢ "" → str_eq x "" ≡ false
      named x h = elim (Bool-cases (str_eq x "")) [
        | inl eq ↦ absurd (h ((str_eq_iff x "").0 eq))
        | inr ne ↦ ne
      ]
