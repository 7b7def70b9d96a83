-- ===== src/Receiver/Interleaved.antt =====
-- Connections in any order and number, their steps interleaved: the parts hold the bytes of the file.
use multi_send.Base.{
  ℕ, zero, suc, ◌≡◌, refl, sym, ap, ◌∙◌, true, not, List, [], ◌∷◌, Option, none, some, length, map,
  All, Result, ok, err, Bool-cases, inl, inr,
}
use multi_send.Base.Int.{pos}
use multi_send.Base.Text.{Text}
use multi_send.Proto.{Header, HeaderError, validate_header}
use multi_send.Proto.Auth.{verify_header}
use multi_send.Receiver.{Part, find_part, Place}
use multi_send.Receiver.Acked.{receive_chunk-matches}
use multi_send.Receiver.Honest.{Layout, slice, IsHonest, IsFaithful}
use multi_send.Receiver.Chunks.{
  Arrival, ReceiveError, update_manifest_file, chunk_matches, receive_chunk, publish_chunk,
}
use multi_send.Receiver.Connections.{
  Stage, arrived, closed, present, received, Connection, arrive, stage_of, begin_chunk,
  finish_chunk, begin_by, step_by, step_at, accept_all,
}
use multi_send.Receiver.Kept.{Keeps, updated, acknowledge-IsHonest, sized}
use multi_send.Receiver.Delivery.{find_part-slice, received_lem, publish_chunk-IsHonest}

module _ (l : Layout) (sha : List ℕ → Text) where
  -- What a connection has found out stays true.
  abbrev HasStage : List Part → Header → Stage → Type 0
  HasStage ps h arrived = Unit
  HasStage ps h closed = Unit
  HasStage ps h present = find_part l.name h.chunk_index ps ≡ some (slice l h.chunk_index)
  HasStage ps h (received content) =
      (content ≡ slice l h.chunk_index) × (chunk_matches sha (some content) h ≡ true)

  abbrev IsSafe : List Part → Connection → Type 0
  IsSafe ps c = IsFaithful l c.arrival c.header × HasStage ps c.header c.stage

  HasStage-Keeps :
      (ps ps' : List Part) (h : Header) (s : Stage)
      → Keeps l ps ps'
      → HasStage ps h s
      → HasStage ps' h s
  HasStage-Keeps ps ps' h arrived k q = tt
  HasStage-Keeps ps ps' h closed k q = tt
  HasStage-Keeps ps ps' h present k q = k h.chunk_index q
  HasStage-Keeps ps ps' h (received content) k q = q

  All-IsSafe :
      (ps ps' : List Part) (cs : List Connection)
      → Keeps l ps ps'
      → All (IsSafe ps) cs
      → All (IsSafe ps') cs
  All-IsSafe ps ps' [] k h = tt
  All-IsSafe ps ps' (c ∷ cs) k ((f, s), h) =
      ((f, HasStage-Keeps ps ps' c.header c.stage k s), All-IsSafe ps ps' cs k h)

  -- A step that keeps the parts honest, and what its connection has found out.
  abbrev IsAdvanced : Place → Header → Place × Stage → Type 0
  IsAdvanced p h (p', s) = IsHonest l p' × Keeps l p.parts p'.parts × HasStage p'.parts h s

  stage_of-HasStage :
      (r : Result ReceiveError (List ℕ)) (ps : List Part) (h : Header)
      → ((content : List ℕ) → r ≡ ok content → HasStage ps h (received content))
      → HasStage ps h (stage_of r)
  stage_of-HasStage (err e) ps h k = tt
  stage_of-HasStage (ok content) ps h k = k content refl

  begin_chunk-IsAdvanced :
      (a : Arrival) (h : Header) (p : Place)
      → IsFaithful l a h
      → IsHonest l p
      → IsAdvanced p h (begin_chunk sha a h p)
  unfolding begin_chunk
  begin_chunk-IsAdvanced a h p faithful honest =
      let (n, o, s, y) = faithful in
      elim (Bool-cases (chunk_matches sha (find_part a.name h.chunk_index p.parts) h)) [
        | inl e ↦ rw e (
          honest,
          (λ j x. x),
          find_part-slice l sha (find_part l.name h.chunk_index p.parts) h p.parts honest.0 refl
              (ap (λ x. chunk_matches sha (find_part x h.chunk_index p.parts) h) (sym n) ∙ e),
        )
        | inr e ↦ rw e (
          honest,
          (λ j x. x),
          stage_of-HasStage (receive_chunk sha a h) p.parts h (λ content q. (
            received_lem l sha a h content faithful q,
            receive_chunk-matches sha a h content (sized l h s) q,
          )),
        )
      ]

  finish_chunk-IsHonest :
      (stage : Stage) (a : Arrival) (h : Header) (p : Place)
      → IsFaithful l a h
      → IsHonest l p
      → HasStage p.parts h stage
      → IsHonest l (finish_chunk sha stage a h p)
        × Keeps l p.parts (finish_chunk sha stage a h p).parts
  finish_chunk-IsHonest arrived a h p faithful honest s = (honest, (λ j x. x))
  finish_chunk-IsHonest closed a h p faithful honest s = (honest, (λ j x. x))
  finish_chunk-IsHonest present a h p faithful honest s =
      acknowledge-IsHonest l h h.part_size true p.parts (update_manifest_file a h h.part_size p)
        (updated l a h h.part_size p faithful honest s)
  finish_chunk-IsHonest (received content) a h p faithful honest (same, fits) =
      acknowledge-IsHonest l h (pos (length content)) (not a.ack_fails) p.parts
        (publish_chunk sha a h content p)
        (publish_chunk-IsHonest l sha a h content p faithful same fits honest)

  module _ (mac : List ℕ → Text → List ℕ) (secret : List ℕ) where
    begin_by-IsAdvanced :
        (o : Option HeaderError) (a : Arrival) (h : Header) (p : Place)
        → IsFaithful l a h
        → IsHonest l p
        → IsAdvanced p h (begin_by sha mac secret o a h p)
    begin_by-IsAdvanced (some e) a h p faithful honest = (honest, (λ j x. x), tt)
    begin_by-IsAdvanced none a h p faithful honest =
        elim (Bool-cases (verify_header mac h secret)) [
          | inr v ↦ rw v (honest, (λ j x. x), tt)
          | inl v ↦ elim (Bool-cases a.accepts_paths) [
            | inr c ↦ simp (v, c) (honest, (λ j x. x), tt)
            | inl c ↦ simp (v, c) (begin_chunk-IsAdvanced a h p faithful honest)
          ]
        ]

    step_by-IsAdvanced :
        (stage : Stage) (a : Arrival) (h : Header) (p : Place)
        → IsFaithful l a h
        → IsHonest l p
        → HasStage p.parts h stage
        → IsAdvanced p h (step_by sha mac secret stage a h p)
    step_by-IsAdvanced arrived a h p faithful honest s =
        begin_by-IsAdvanced (validate_header h) a h p faithful honest
    step_by-IsAdvanced closed a h p faithful honest s = (honest, (λ j x. x), tt)
    step_by-IsAdvanced present a h p faithful honest s =
        let (q, k) = finish_chunk-IsHonest present a h p faithful honest s in (q, k, tt)
    step_by-IsAdvanced (received content) a h p faithful honest s =
        let (q, k) = finish_chunk-IsHonest (received content) a h p faithful honest s in (q, k, tt)

    abbrev AreAdvanced : Place → Place × List Connection → Type 0
    AreAdvanced p (p', cs) = IsHonest l p' × Keeps l p.parts p'.parts × All (IsSafe p'.parts) cs

    step_at-AreAdvanced :
        (i : ℕ) (cs : List Connection) (p : Place)
        → IsHonest l p
        → All (IsSafe p.parts) cs
        → AreAdvanced p (step_at sha mac secret i cs p)
    unfolding step_at
    step_at-AreAdvanced i [] p honest safe = (honest, (λ j x. x), tt)
    step_at-AreAdvanced zero (c ∷ cs) p honest ((f, s), safe) =
        let (q, k, s') = step_by-IsAdvanced c.stage c.arrival c.header p f honest s in
        let p' = (step_by sha mac secret c.stage c.arrival c.header p).0 in
        (q, k, ((f, s'), All-IsSafe p.parts p'.parts cs k safe))
    step_at-AreAdvanced (suc i) (c ∷ cs) p honest ((f, s), safe) =
        let (q, k, safe') = step_at-AreAdvanced i cs p honest safe in
        let p' = (step_at sha mac secret i cs p).0 in
        (q, k, ((f, HasStage-Keeps p.parts p'.parts c.header c.stage k s), safe'))

    accept_steps-IsHonest :
        (schedule : List ℕ) (cs : List Connection) (p : Place)
        → IsHonest l p
        → All (IsSafe p.parts) cs
        → IsHonest l (accept_all sha mac secret schedule cs p)
    unfolding accept_all
    accept_steps-IsHonest [] cs p honest safe = honest
    accept_steps-IsHonest (i ∷ is) cs p honest safe =
        let (q, k, safe') = step_at-AreAdvanced i cs p honest safe in
        let (p', cs') = step_at sha mac secret i cs p in accept_steps-IsHonest is cs' p' q safe'

    arrived-IsSafe :
        (ps : List Part) (cs : List (Arrival × Header))
        → All (λ c. IsFaithful l c.0 c.1) cs
        → All (IsSafe ps) (map arrive cs)
    arrived-IsSafe ps [] h = tt
    arrived-IsSafe ps (c ∷ cs) (f, h) = ((f, tt), arrived-IsSafe ps cs h)

    pub accept_all-IsHonest :
        (schedule : List ℕ) (cs : List (Arrival × Header)) (p : Place)
        → All (λ c. IsFaithful l c.0 c.1) cs
        → IsHonest l p
        → IsHonest l (accept_all sha mac secret schedule (map arrive cs) p)
    accept_all-IsHonest schedule cs p f honest =
        accept_steps-IsHonest schedule (map arrive cs) p honest (arrived-IsSafe p.parts cs f)
