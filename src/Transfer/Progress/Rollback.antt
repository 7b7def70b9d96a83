-- ===== src/Transfer/Progress/Rollback.antt =====
-- progressReader.rollback undoes an attempt, whatever others add meanwhile.
use multi_send.Base.{
  inr, inl, Bool-cases, subst, ◌≡◌, refl, sym, ap, ◌∙◌, true, false, List, [], ◌∷◌, String,
}
use multi_send.Base.Int.{
  eq_ℤ_iff, add64-InRange, add64-sub64_undo, add64_zero, ℤ, pos, lt_ℤ, eq_ℤ, add64, add64_assoc,
  add64_comm, sub64, InRange,
}
use multi_send.Transfer.Progress.{
  Counters, Counter, cable_counter, wifi_counter, no_counter, counter, add_to, Reader, count_by,
  read, rollback, Traffic, mine, theirs, flow, others, written,
}

pub add_to_comm :
    (a b : Counter) (m n : ℤ) (c : Counters) → add_to a m (add_to b n c) ≡ add_to b n (add_to a m c)
add_to_comm cable_counter cable_counter m n c = ap (λ x. record c { cable = x }) (swap c.cable)
  where
    swap : (x : ℤ) → add64 (add64 x n) m ≡ add64 (add64 x m) n
    swap x = add64_assoc x n m ∙ ap (add64 x) (add64_comm n m) ∙ sym (add64_assoc x m n)
add_to_comm wifi_counter wifi_counter m n c = ap (λ x. record c { wifi = x }) (swap c.wifi)
  where
    swap : (x : ℤ) → add64 (add64 x n) m ≡ add64 (add64 x m) n
    swap x = add64_assoc x n m ∙ ap (add64 x) (add64_comm n m) ∙ sym (add64_assoc x m n)
add_to_comm cable_counter wifi_counter m n c = refl
add_to_comm wifi_counter cable_counter m n c = refl
add_to_comm no_counter b m n c = refl
add_to_comm a no_counter m n c = refl

add_to-twice :
    (a : Counter) (m n : ℤ) (c : Counters) → add_to a m (add_to a n c) ≡ add_to a (add64 n m) c
add_to-twice cable_counter m n c = ap (λ x. record c { cable = x }) (add64_assoc c.cable n m)
add_to-twice wifi_counter m n c = ap (λ x. record c { wifi = x }) (add64_assoc c.wifi n m)
add_to-twice no_counter m n c = refl

-- Both counters are int64.
abbrev pub AreInRange : Counters → Type 0
AreInRange c = InRange c.cable × InRange c.wifi

-- A read keeps the reader's count in step with its counter.
read_lem :
    (n : ℤ) (p : Reader) (c : Counters)
    → (p' : Reader) × (p'.channel ≡ p.channel)
      × (read n (p, add_to (counter p.channel) p.counted c)
          ≡ (p', add_to (counter p.channel) p'.counted c))
unfolding read
read_lem n p c = elim (Bool-cases (lt_ℤ (pos 0) n)) [
  | inl e ↦ rw e (counted (counter p.channel))
  | inr e ↦ rw e (p, refl, refl)
]
  where
    counted :
        (k : Counter)
        → (p' : Reader) × (p'.channel ≡ p.channel)
          × (◌≡◌ {A = Reader × Counters}
              (count_by k n p, add_to k n (add_to k p.counted c))
              (p', add_to k p'.counted c))
    counted cable_counter = (
      record p { counted = add64 p.counted n },
      refl,
      ap (λ x. (record p { counted = add64 p.counted n }, x))
          (add_to-twice cable_counter n p.counted c),
    )
    counted wifi_counter = (
      record p { counted = add64 p.counted n },
      refl,
      ap (λ x. (record p { counted = add64 p.counted n }, x))
          (add_to-twice wifi_counter n p.counted c),
    )
    counted no_counter = (p, refl, refl)

-- The counters are the others' plus what the reader has counted.
flow_lem :
    (ts : List Traffic) (p : Reader) (c : Counters)
    → let s = flow ts (p, add_to (counter p.channel) p.counted c) in
      (s.0.channel ≡ p.channel) × (s.1 ≡ add_to (counter p.channel) s.0.counted (others ts c))
unfolding flow others
flow_lem [] p c = (refl, refl)
flow_lem (mine n ∷ ts) p c =
    let (p', same, e) = read_lem n p c in
    rw (flow, e)
      (subst
        (λ ch.
          let s = flow ts (p', add_to (counter ch) p'.counted c) in
          (s.0.channel ≡ ch) × (s.1 ≡ add_to (counter ch) s.0.counted (others ts c)))
        same (flow_lem ts p' c))
flow_lem (theirs to n ∷ ts) p c =
    rw (flow, add_to_comm to (counter p.channel) n p.counted c) (flow_lem ts p (add_to to n c))

pub add_to-AreInRange :
    (k : Counter) (n : ℤ) (c : Counters) → AreInRange c → AreInRange (add_to k n c)
add_to-AreInRange cable_counter n c h = (add64-InRange c.cable n, h.1)
add_to-AreInRange wifi_counter n c h = (h.0, add64-InRange c.wifi n)
add_to-AreInRange no_counter n c h = h

others-AreInRange : (ts : List Traffic) (c : Counters) → AreInRange c → AreInRange (others ts c)
unfolding others
others-AreInRange [] c h = h
others-AreInRange (mine n ∷ ts) c h = others-AreInRange ts c h
others-AreInRange (theirs to n ∷ ts) c h =
    others-AreInRange ts (add_to to n c) (add_to-AreInRange to n c h)

add_to_undo :
    (k : Counter) (n : ℤ) (c : Counters)
    → AreInRange c
    → add_to k (sub64 (pos 0) n) (add_to k n c) ≡ c
add_to_undo cable_counter n c h = ap (λ x. record c { cable = x }) (add64-sub64_undo c.cable n h.0)
add_to_undo wifi_counter n c h = ap (λ x. record c { wifi = x }) (add64-sub64_undo c.wifi n h.1)
add_to_undo no_counter n c h = refl

add_to_zero : (k : Counter) (c : Counters) → AreInRange c → add_to k (pos 0) c ≡ c
add_to_zero cable_counter c h = ap (λ x. record c { cable = x }) (add64_zero c.cable h.0)
add_to_zero wifi_counter c h = ap (λ x. record c { wifi = x }) (add64_zero c.wifi h.1)
add_to_zero no_counter c h = refl

-- After a failed attempt the counters are what they were without it: whatever it read, on whatever
-- channel, and whatever the other attempts added in between, rollback takes away exactly what this
-- attempt added. The counters are int64, and wrap around.
pub rollback-flow :
    (ts : List Traffic) (channel : String) (c : Counters)
    → AreInRange c
    → (rollback (flow ts (record { channel = channel; counted = pos 0 }, c))).1 ≡ others ts c
unfolding rollback
rollback-flow ts channel c h =
    let p : Reader = record { channel = channel; counted = pos 0 } in
    let s = flow ts (p, c) in
    let (same, sum) =
      subst
        (λ x.
          let t = flow ts (p, x) in
          (t.0.channel ≡ channel) × (t.1 ≡ add_to (counter channel) t.0.counted (others ts c)))
        (add_to_zero (counter channel) c h) (flow_lem ts p c) in
    let r = others-AreInRange ts c h in
    elim (Bool-cases (eq_ℤ s.0.counted (pos 0))) [
      | inl e ↦
          rw (e, sum, (eq_ℤ_iff s.0.counted (pos 0)).0 e)
            (add_to_zero (counter channel) (others ts c) r)
      | inr e ↦ rw (e, same, sum) (add_to_undo (counter channel) s.0.counted (others ts c) r)
    ]

others-add_to :
    (ts : List Traffic) (k : Counter) (n : ℤ) (c : Counters)
    → others ts (add_to k n c) ≡ add_to k n (others ts c)
unfolding others
others-add_to [] k n c = refl
others-add_to (mine m ∷ ts) k n c = others-add_to ts k n c
others-add_to (theirs to m ∷ ts) k n c =
    rw (add_to_comm to k m n c) (others-add_to ts k n (add_to to m c))

read-counters :
    (n : ℤ) (p : Reader) (c : Counters)
    → (lt_ℤ (pos 0) n ≡ true)
    → ((read n (p, c)).0.channel ≡ p.channel) × ((read n (p, c)).1 ≡ add_to (counter p.channel) n c)
unfolding read
read-counters n p c e = rw e (kept (counter p.channel), refl)
  where
    kept : (k : Counter) → (count_by k n p).channel ≡ p.channel
    kept cable_counter = refl
    kept wifi_counter = refl
    kept no_counter = refl

read_nothing : (n : ℤ) (p : Reader) (c : Counters) → lt_ℤ (pos 0) n ≡ false → read n (p, c) ≡ (p, c)
unfolding read
read_nothing n p c e = rw e refl

-- An attempt's reads add their bytes to its own counter.
pub flow-written :
    (ts : List Traffic) (p : Reader) (c : Counters)
    → AreInRange c
    → (flow ts (p, c)).1 ≡ add_to (counter p.channel) (written ts) (others ts c)
unfolding flow written others
flow-written [] p c h = sym (add_to_zero (counter p.channel) c h)
flow-written (mine n ∷ ts) p c h = elim (Bool-cases (lt_ℤ (pos 0) n)) [
  | inl e ↦
      let (same, sum) = read-counters n p c e in
      let r = read n (p, c) in
      rw e (
        flow-written ts r.0 r.1 (rw sum (add_to-AreInRange (counter p.channel) n c h))
        ∙ rw (same, sum, others-add_to ts (counter p.channel) n c)
            (add_to-twice (counter p.channel) (written ts) n (others ts c)))
  | inr e ↦ rw (flow, read_nothing n p c e, e) (flow-written ts p c h)
]
flow-written (theirs to n ∷ ts) p c h =
    flow-written ts p (add_to to n c) (add_to-AreInRange to n c h)
