-- ===== src/Receiver/Connections.antt =====
-- runReceiver, which handles each connection in a goroutine of its own. A connection makes two steps: up
-- to its look at the chunk's file and the receipt of its payload, and what it does under manifestMu and
-- after it. The steps of the connections are interleaved in any order. (An acknowledgement and the
-- timer that it sets belong to the second step.)
use multi_send.Base.{
  ℕ, zero, suc, ◌≡◌, refl, true, not, List, [], ◌∷◌, Option, none, some, length, if◌then◌else◌,
  Result, ok, err, Bool-cases, inl, inr,
}
use multi_send.Base.Int.{pos}
use multi_send.Base.Text.{Text}
use multi_send.Proto.{Header, HeaderError, validate_header}
use multi_send.Proto.Auth.{verify_header}
use multi_send.Receiver.{find_part, Place}
use multi_send.Receiver.Chunks.{
  Arrival, ReceiveError, payload_lost, hash_mismatch, update_manifest_file, ensure_session,
  acknowledge, chunk_matches, receive_chunk, publish_chunk, store_chunk, handle_chunk, handle_by,
  handle_conn,
}

-- Where a connection stands: at its start; with a chunk whose file is there; with a payload in the
-- temporary file; or at its end.
pub data Stage : Type 0 where
  arrived closed present : Stage
  received : (content : List ℕ) → Stage

pub record Connection : Type 0 where
  pub arrival : Arrival
  pub header : Header
  pub stage : Stage

abbrev pub arrive : Arrival × Header → Connection
arrive (a, h) = record { arrival = a; header = h; stage = arrived }

abbrev pub stage_of : Result ReceiveError (List ℕ) → Stage
stage_of (err e) = closed
stage_of (ok content) = received content

module _ (sha : List ℕ → Text) where
  -- From ensureReceiverSession to receiveChunkToTemp.
  unfoldable pub begin_chunk : Arrival → Header → Place → Place × Stage
  unfolding find_part receive_chunk
  begin_chunk a h p =
      let p = ensure_session a h p in
      (
        p,
        if chunk_matches sha (find_part a.name h.chunk_index p.parts) h
            then present
            else stage_of (receive_chunk sha a h),
      )

  -- updateReceiverManifest or publishReceiverChunk, and what follows.
  abbrev pub finish_chunk : Stage → Arrival → Header → Place → Place
  finish_chunk arrived a h p = p
  finish_chunk closed a h p = p
  finish_chunk present a h p =
      (acknowledge h h.part_size true (update_manifest_file a h h.part_size p)).0
  finish_chunk (received content) a h p =
      (acknowledge h (pos (length content)) (not a.ack_fails) (publish_chunk sha a h content p)).0

  module _ (mac : List ℕ → Text → List ℕ) (secret : List ℕ) where
    abbrev pub begin_by : Option HeaderError → Arrival → Header → Place → Place × Stage
    begin_by (some e) a h p = (p, closed)
    begin_by none a h p =
        if not (verify_header mac h secret)
        then (p, closed)
        else if not a.accepts_paths
        then (p, closed)
        else begin_chunk a h p

    abbrev pub step_by : Stage → Arrival → Header → Place → Place × Stage
    step_by arrived a h p = begin_by (validate_header h) a h p
    step_by stage a h p = (finish_chunk stage a h p, closed)

    abbrev pub step : Connection → Place → Place × Connection
    step c p =
        let (p', stage) = step_by c.stage c.arrival c.header p in (p', record c { stage = stage })

    -- The i-th connection makes a step.
    unfoldable pub step_at : ℕ → List Connection → Place → Place × List Connection
    unfolding begin_chunk update_manifest_file publish_chunk validate_header verify_header
    step_at i [] p = (p, [])
    step_at zero (c ∷ cs) p = let (p', c') = step c p in (p', c' ∷ cs)
    step_at (suc i) (c ∷ cs) p = let (p', cs') = step_at i cs p in (p', c ∷ cs')

    unfoldable pub accept_all : (schedule : List ℕ) → List Connection → Place → Place
    unfolding step_at
    accept_all [] cs p = p
    accept_all (i ∷ is) cs p = let (p', cs') = step_at i cs p in accept_all is cs' p'

    module _ (describe : HeaderError → Text) where
      finish_stored :
          (r : Result ReceiveError (List ℕ)) (a : Arrival) (h : Header) (p : Place)
          → (step_by (stage_of r) a h p).0 ≡ (store_chunk sha r a h p).0
      finish_stored (err hash_mismatch) a h p = refl
      finish_stored (err payload_lost) a h p = refl
      finish_stored (ok content) a h p = refl

      begun_lem :
          (a : Arrival) (h : Header) (p : Place)
          → let (p', stage) = begin_chunk a h p in
            (step_by stage a h p').0 ≡ (handle_chunk sha a h p).0
      unfolding begin_chunk handle_chunk
      begun_lem a h p =
          elim (Bool-cases (chunk_matches sha (find_part a.name h.chunk_index p.parts) h)) [
            | inl e ↦ rw e refl
            | inr e ↦ rw e (finish_stored (receive_chunk sha a h) a h (ensure_session a h p))
          ]

      -- A connection that makes its steps at once does to the directory what handleConn does.
      pub steps-handle_conn :
          (a : Arrival) (h : Header) (p : Place)
          → let (p', c) = step (arrive (a, h)) p in
            (step c p').0 ≡ (handle_conn sha mac describe secret a h p).0
      unfolding handle_conn
      steps-handle_conn a h p = by_valid (validate_header h)
        where
          by_valid :
              (o : Option HeaderError)
              → let (p', stage) = begin_by o a h p in
                (step_by stage a h p').0 ≡ (handle_by sha mac describe o secret a h p).0
          by_valid (some e) = refl
          by_valid none = elim (Bool-cases (verify_header mac h secret)) [
            | inr v ↦ rw v refl
            | inl v ↦ elim (Bool-cases a.accepts_paths) [
              | inr c ↦ simp (v, c) refl
              | inl c ↦ simp (v, c) (begun_lem a h p)
            ]
          ]
