-- ===== src/Transfer/Attempt.antt =====
-- sendChunkCtx: one attempt to send a chunk. The connection is an input: which of its calls fail, the
-- reads while io.Copy runs (`traffic`, with what other attempts add to the counters meanwhile), and
-- the acknowledgement as proto.ReadChunkAck gives it.
use multi_send.Base.{
  ◌∙◌, ◌&&◌, ◌≡◌, refl, Bool, not, ◌||◌, List, Option, none, some, String, if◌then◌else◌, Result,
  ok, err, Bool-cases, inl, inr, ◌⊎◌,
}
use multi_send.Base.Int.{ℤ, pos, eq_ℤ, eq_ℤ_iff}
use multi_send.Base.Text.{Text, txt, trim_space, is_empty, same_text, same_text_iff}
use multi_send.Proto.{Header, ChunkAck}
use multi_send.Transfer.Progress.Rollback.{AreInRange, rollback-flow, flow-written}
use multi_send.Transfer.Progress.{
  counter, add_to, Counters, Reader, Traffic, flow, written, others, rollback,
}

pub data AttemptError : Type 0 where
  invalid_local_ip size_mismatch ack_failed : AttemptError
  dial_failed header_failed copy_failed no_ack was_canceled : (e : Text) → AttemptError

pub record Connection : Type 0 where
  pub ip_parses : Bool
  pub dial_error : Option Text
  -- The result of proto.WriteHeader, and of io.Copy.
  pub header_error : Option Text
  pub copy_error : Option Text
  pub traffic : List Traffic
  pub ack : Result Text ChunkAck
  -- ctx.Err()
  pub context_error : Option Text

abbrev pub check_context : Option Text → Option AttemptError
check_context none = none
check_context (some e) = some (was_canceled e)

-- What follows the copy.
abbrev pub check_ack : Result Text ChunkAck → Header → Option Text → Option AttemptError
check_ack (err e) h ctx = some (no_ack e)
check_ack (ok ack) h ctx =
    if not (same_text ack.status (txt "done")) || not (eq_ℤ ack.chunk_index h.chunk_index)
    then some ack_failed
    else check_context ctx

abbrev pub check_copy : Option Text → Connection → Header → Option AttemptError
check_copy (some e) conn h = some (copy_failed e)
check_copy none conn h =
    if eq_ℤ (written conn.traffic) h.part_size
    then check_ack conn.ack h conn.context_error
    else some size_mismatch

-- The deferred function.
abbrev pub settle : Option AttemptError → Reader × Counters → Counters × Option AttemptError
settle none (p, c) = (c, none)
settle (some e) s = ((rollback s).1, some e)

abbrev pub on_connection :
    Option Text → Connection → Header → Reader × Counters → Counters × Option AttemptError
on_connection (some e) conn h s = settle (some (header_failed e)) s
on_connection none conn h s = settle (check_copy conn.copy_error conn h) (flow conn.traffic s)

abbrev pub dialed :
    Option Text → Connection → Header → Reader × Counters → Counters × Option AttemptError
dialed (some e) conn h (p, c) = (c, some (dial_failed e))
dialed none conn h s = on_connection conn.header_error conn h s

unfoldable pub send_chunk_ctx :
    Connection → (local_ip : Text) → Header → String → Counters → Counters × Option AttemptError
unfolding flow rollback written
send_chunk_ctx conn local_ip h channel c =
    if not (is_empty (trim_space local_ip)) && not conn.ip_parses
    then (c, some invalid_local_ip)
    else dialed conn.dial_error conn h (record { channel = channel; counted = pos 0 }, c)

-- What the receiver has confirmed, and the bytes that were sent.
abbrev pub WasAccepted : ℤ → Result Text ChunkAck → Header → Type 0
WasAccepted sent answer h =
    (sent ≡ h.part_size)
    × ((ack : ChunkAck) × (answer ≡ ok ack)
        × (ack.status ≡ txt "done")
        × (ack.chunk_index ≡ h.chunk_index))

-- How an attempt ends, with the counters that it leaves.
abbrev pub IsSettled :
    Connection → Header → String → Counters → Counters × Option AttemptError → Type 0
IsSettled conn h channel c (c', e) =
    ((e ≡ none)
      × WasAccepted (written conn.traffic) conn.ack h
      × (c' ≡ add_to (counter channel) h.part_size (others conn.traffic c)))
    ⊎ ((reason : AttemptError) × (e ≡ some reason) × ((c' ≡ c) ⊎ (c' ≡ others conn.traffic c)))

check_ack_lem :
    (a : Result Text ChunkAck) (x : Option Text) (sent : ℤ) (h : Header)
    → sent ≡ h.part_size
    → ((check_ack a h x ≡ none) × WasAccepted sent a h)
      ⊎ ((reason : AttemptError) × (check_ack a h x ≡ some reason))
check_ack_lem (err e) x sent h s = inr (no_ack e, refl)
check_ack_lem (ok ack) none sent h s = elim (Bool-cases (same_text ack.status (txt "done"))) [
  | inr d ↦ inr (ack_failed, rw d refl)
  | inl d ↦ elim (Bool-cases (eq_ℤ ack.chunk_index h.chunk_index)) [
    | inr i ↦ inr (ack_failed, rw (d, i) refl)
    | inl i ↦ inl (
      rw (d, i) refl,
      (
        s,
        (
          ack,
          refl,
          (same_text_iff ack.status (txt "done")).0 d,
          (eq_ℤ_iff ack.chunk_index h.chunk_index).0 i,
        ),
      ),
    )
  ]
]
check_ack_lem (ok ack) (some e) sent h s = elim (Bool-cases (same_text ack.status (txt "done"))) [
  | inr d ↦ inr (ack_failed, rw d refl)
  | inl d ↦ elim (Bool-cases (eq_ℤ ack.chunk_index h.chunk_index)) [
    | inr i ↦ inr (ack_failed, rw (d, i) refl)
    | inl i ↦ inr (was_canceled e, rw (d, i) refl)
  ]
]

check_copy_lem :
    (o : Option Text) (conn : Connection) (h : Header)
    → ((check_copy o conn h ≡ none) × WasAccepted (written conn.traffic) conn.ack h)
      ⊎ ((reason : AttemptError) × (check_copy o conn h ≡ some reason))
check_copy_lem (some e) conn h = inr (copy_failed e, refl)
check_copy_lem none conn h = elim (Bool-cases (eq_ℤ (written conn.traffic) h.part_size)) [
  | inl e ↦ rw e (
      check_ack_lem conn.ack conn.context_error (written conn.traffic) h
        ((eq_ℤ_iff (written conn.traffic) h.part_size).0 e))
  | inr e ↦ inr (size_mismatch, rw e refl)
]

on_connection_lem :
    (o : Option Text) (conn : Connection) (h : Header) (channel : String) (c : Counters)
    → AreInRange c
    → IsSettled conn h channel c
        (on_connection o conn h (record { channel = channel; counted = pos 0 }, c))
unfolding rollback
on_connection_lem (some e) conn h channel c r = inr (header_failed e, refl, inl refl)
on_connection_lem none conn h channel c r = elim (check_copy_lem conn.copy_error conn h) [
  | inl (e, a) ↦ rw e (
      inl (
        refl,
        a,
        flow-written conn.traffic (record { channel = channel; counted = pos 0 }) c r ∙ rw a.0 refl,
      ))
  | inr (reason, e) ↦ rw e (inr (reason, refl, inr (rollback-flow conn.traffic channel c r)))
]

-- sendChunkCtx returns nil only if all bytes of the part were sent and an acknowledgement of this
-- chunk came back with status "done"; then exactly the part's size is counted on the counter of its
-- channel. Otherwise it returns an error, and the counters are as they were, or as the other attempts
-- made them in the meantime. The counters are int64, and wrap around.
pub send_chunk_ctx_lem :
    (conn : Connection) (local_ip : Text) (h : Header) (channel : String) (c : Counters)
    → AreInRange c
    → IsSettled conn h channel c (send_chunk_ctx conn local_ip h channel c)
unfolding send_chunk_ctx
send_chunk_ctx_lem conn local_ip h channel c r =
    elim (Bool-cases (not (is_empty (trim_space local_ip)) && not conn.ip_parses)) [
      | inl e ↦ rw e (inr (invalid_local_ip, refl, inl refl))
      | inr e ↦ rw e (by_dial conn.dial_error)
    ]
  where
    by_dial :
        (o : Option Text)
        → IsSettled conn h channel c
            (dialed o conn h (record { channel = channel; counted = pos 0 }, c))
    by_dial (some e) = inr (dial_failed e, refl, inl refl)
    by_dial none = on_connection_lem conn.header_error conn h channel c r
