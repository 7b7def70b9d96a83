-- ===== src/Receiver/Acked.antt =====
-- What an acknowledgement of handleConn says.
use multi_send.Base.{
  ℕ, ◌≡◌, ◌≢◌, refl, ap, ◌∙◌, Bool, true, false, ◌&&◌, not, List, [], Option, none, some, length,
  Result, ok, err, arith, Bool-cases, inl, inr, ◌⊎◌,
}
use multi_send.Base.Int.{ℤ, pos, pos_part, eq_ℤ}
use multi_send.Base.Text.{Text, txt, is_empty, equal_fold}
use multi_send.Proto.Validation.{guards_iff}
use multi_send.Proto.{Header, HeaderError, bad_bounds, ChunkAck, validate_header}
use multi_send.Proto.Auth.{verify_header}
use multi_send.Receiver.{
  Part, find_part, put_part, Place, MergeStatus, merge_running, merge_done, Session,
}
use multi_send.Receiver.Chunks.{
  Arrival, ReceiveError, payload_lost, hash_mismatch, copy_n, update_manifest_file, ensure_session,
  schedule_by, schedule_in, ack, chunk_matches, check_hash, receive_chunk, publish_chunk,
  acknowledge, store_chunk, handle_chunk, handle_by, handle_conn,
}
use multi_send.Receiver.Recorded.{
  HasRecord, update_manifest_file-IsRecorded, find_part-put_part, length-copy_n, one_passes,
}

module _ (sha : List ℕ → Text) where
  -- The chunk's file is there, of the header's size and, if it has one, its hash.
  abbrev pub HasPart : Arrival → Header → Place → Type 0
  HasPart a h p =
      (content : List ℕ) × (find_part a.name h.chunk_index p.parts ≡ some content)
      × (chunk_matches sha (some content) h ≡ true)

  abbrev IsPublished : Arrival → Header → Place × Bool → Type 0
  IsPublished a h (p, done) = (done ≡ false) ⊎ ((done ≡ true) × HasPart a h p × HasRecord h p)

  update-IsPublished :
      (a : Arrival) (h : Header) (written : ℤ) (p : Place)
      → HasPart a h p
      → IsPublished a h (update_manifest_file a h written p)
  update-IsPublished a h written p (content, found, matches) =
      elim (update_manifest_file-IsRecorded a h written p) [
        | inl e ↦ inl e
        | inr (e, has, same) ↦
            inr (e, (content, ap (find_part a.name h.chunk_index) same ∙ found, matches), has)
      ]

  part_there :
      (o : Option (List ℕ)) (a : Arrival) (h : Header) (p : Place)
      → find_part a.name h.chunk_index p.parts ≡ o
      → chunk_matches sha o h ≡ true
      → HasPart a h p
  part_there none a h p e q = absurd (cc)
  part_there (some content) a h p e q = (content, e, q)

  publish_chunk-IsPublished :
      (a : Arrival) (h : Header) (content : List ℕ) (p : Place)
      → chunk_matches sha (some content) h ≡ true
      → IsPublished a h (publish_chunk sha a h content p)
  unfolding publish_chunk
  publish_chunk-IsPublished a h content p q =
      elim (Bool-cases (chunk_matches sha (find_part a.name h.chunk_index p.parts) h)) [
        | inl e ↦ rw e (
            update-IsPublished a h (pos (length content)) p
              (part_there (find_part a.name h.chunk_index p.parts) a h p refl e))
        | inr e ↦ elim (Bool-cases a.remove_fails) [
          | inl f ↦ simp (e, f) (inl refl)
          | inr f ↦ elim (Bool-cases a.rename_fails) [
            | inl r ↦ simp (e, f, r) (inl refl)
            | inr r ↦
                let part : Part = record {
                  name = a.name;
                  index = h.chunk_index;
                  content = content;
                } in
                let p' = record p { parts = put_part part p.parts } in
                simp (e, f, r)
                  (update-IsPublished a h (pos (length content)) p'
                    (content, find_part-put_part part p.parts, q))
          ]
        ]
      ]

  pub receive_chunk-matches :
      (a : Arrival) (h : Header) (content : List ℕ)
      → eq_ℤ (pos (pos_part h.part_size)) h.part_size ≡ true
      → receive_chunk sha a h ≡ ok content
      → chunk_matches sha (some content) h ≡ true
  unfolding receive_chunk
  receive_chunk-matches a h content size e =
      by_copy (copy_n (pos_part h.part_size) a.payload) refl e
    where
      by_copy :
          (o : Option (List ℕ))
          → copy_n (pos_part h.part_size) a.payload ≡ o
          → check_hash sha o a h ≡ ok content
          → chunk_matches sha (some content) h ≡ true
      by_copy none q r = absurd (cc)
      by_copy (some bytes) q r =
          let bad : Bool =
            not (is_empty h.chunk_sha256) && not (equal_fold (sha bytes) h.chunk_sha256) in
          elim (Bool-cases bad) [
            | inl x ↦ absurd (let r' = rw x at r in cc)
            | inr x ↦
                let r' = rw x at r in
                elim (Bool-cases a.temp_fails) [
                  | inl f ↦ absurd (let r'' = rw f at r' in cc)
                  | inr f ↦
                      let r'' = rw f at r' in
                      let same : content ≡ bytes = cc in
                      rw (same, length-copy_n (pos_part h.part_size) a.payload bytes q, size)
                        (one_passes (is_empty h.chunk_sha256)
                          (equal_fold (sha bytes) h.chunk_sha256) x)
                ]
          ]

  -- An acknowledgement that says anything but "done"; nothing was stored.
  abbrev pub IsRefused : Place → Place × Option ChunkAck → Type 0
  IsRefused p (p', o) =
      (k : ChunkAck) × (o ≡ some k)
      × (k.status ≢ txt "done")
      × (p'.parts ≡ p.parts)
      × (p'.manifest ≡ p.manifest)

  -- The acknowledgement "done" of the header's chunk; it is stored.
  abbrev pub IsAcked : Arrival → Header → Place × Option ChunkAck → Type 0
  IsAcked a h (p', o) =
      (k : ChunkAck) × (o ≡ some k)
      × (k.status ≡ txt "done")
      × (k.chunk_index ≡ h.chunk_index)
      × HasPart a h p'
      × HasRecord h p'

  scheduled_lem :
      (a : Arrival) (h : Header) (m : MergeStatus) (s : Session) (p : Place)
      → HasPart a h p
      → HasRecord h p
      → HasPart a h (schedule_by m s p) × HasRecord h (schedule_by m s p)
  scheduled_lem a h merge_running s p x y = (x, y)
  scheduled_lem a h merge_done s p x y = (x, y)
  scheduled_lem a h _ s p x y = (x, y)

  schedule_in_lem :
      (a : Arrival) (h : Header) (o : Option Session) (p : Place)
      → HasPart a h p
      → HasRecord h p
      → HasPart a h (schedule_in o p) × HasRecord h (schedule_in o p)
  schedule_in_lem a h none p x y = (x, y)
  schedule_in_lem a h (some s) p x y = scheduled_lem a h s.merge_status s p x y

  acknowledge-IsAcked :
      (a : Arrival) (h : Header) (written : ℤ) (schedules : Bool) (r : Place × Bool)
      → IsPublished a h r
      → ((acknowledge h written schedules r).1 ≡ none)
        ⊎ IsAcked a h (acknowledge h written schedules r)
  acknowledge-IsAcked a h written schedules (p, false) q = inl refl
  acknowledge-IsAcked a h written schedules (p, true) (inl e) = absurd (cc)
  acknowledge-IsAcked a h written false (p, true) (inr (e, x, y)) =
      inr (ack (txt "done") h written [], refl, refl, refl, x, y)
  acknowledge-IsAcked a h written true (p, true) (inr (e, x, y)) =
      let (x', y') = schedule_in_lem a h p.session p x y in
      inr (ack (txt "done") h written [], refl, refl, refl, x', y')

  store_chunk_lem :
      (r : Result ReceiveError (List ℕ)) (a : Arrival) (h : Header) (p : Place)
      → ((content : List ℕ) → r ≡ ok content → chunk_matches sha (some content) h ≡ true)
      → ((store_chunk sha r a h p).1 ≡ none)
        ⊎ (IsRefused p (store_chunk sha r a h p) ⊎ IsAcked a h (store_chunk sha r a h p))
  store_chunk_lem (err hash_mismatch) a h p q = inr (
      inl (
        ack (txt "hash_mismatch") h (pos 0) (txt "chunk integrity check failed"),
        refl,
        (λ e. cc),
        refl,
        refl,
      ))
  store_chunk_lem (err payload_lost) a h p q = inl refl
  store_chunk_lem (ok content) a h p q =
      elim (acknowledge-IsAcked a h (pos (length content)) (not a.ack_fails)
        (publish_chunk sha a h content p)
        (publish_chunk-IsPublished a h content p (q content refl))) [
          | inl e ↦ inl e
          | inr e ↦ inr (inr e)
        ]

  handle_chunk_lem :
      (a : Arrival) (h : Header) (p : Place)
      → eq_ℤ (pos (pos_part h.part_size)) h.part_size ≡ true
      → ((handle_chunk sha a h p).1 ≡ none)
        ⊎ (IsRefused p (handle_chunk sha a h p) ⊎ IsAcked a h (handle_chunk sha a h p))
  unfolding handle_chunk
  handle_chunk_lem a h p size =
      let p' = ensure_session a h p in
      elim (Bool-cases (chunk_matches sha (find_part a.name h.chunk_index p.parts) h)) [
        | inl e ↦
            rw e
              (elim (acknowledge-IsAcked a h h.part_size true
                (update_manifest_file a h h.part_size p')
                (update-IsPublished a h h.part_size p'
                  (part_there (find_part a.name h.chunk_index p.parts) a h p' refl e))) [
                    | inl q ↦ inl q
                    | inr q ↦ inr (inr q)
                  ])
        | inr e ↦ rw e (
            store_chunk_lem (receive_chunk sha a h) a h p'
              (λ content q. receive_chunk-matches a h content size q))
      ]

  sized_lem :
      (h : Header) → bad_bounds h ≡ false → eq_ℤ (pos (pos_part h.part_size)) h.part_size ≡ true
  unfolding bad_bounds
  sized_lem h q = ground arith

  -- The header is valid, signed under the secret, and its chunk is stored.
  abbrev pub IsDone :
      (List ℕ → Text → List ℕ) → List ℕ → Arrival → Header → Place × Option ChunkAck → Type 0
  IsDone mac secret a h r =
      (validate_header h ≡ none) × (verify_header mac h secret ≡ true) × IsAcked a h r

  -- handleConn acknowledges with "done" only a valid header that verifies under the secret, and then
  -- the chunk's file is there, with the header's size and, if it gives one, its hash, and the manifest
  -- has the chunk, with the header's offset and size, as done. Any other acknowledgement leaves files
  -- and manifest alone; or there is none.
  pub handle_conn_lem :
      (mac : List ℕ → Text → List ℕ) (describe : HeaderError → Text) (secret : List ℕ) (a : Arrival)
      (h : Header) (p : Place)
      → let r = handle_conn sha mac describe secret a h p in
        (r.1 ≡ none) ⊎ (IsRefused p r ⊎ IsDone mac secret a h r)
  unfolding handle_conn
  handle_conn_lem mac describe secret a h p = by_valid (validate_header h) refl
    where
      by_valid :
          (o : Option HeaderError)
          → validate_header h ≡ o
          → ((handle_by sha mac describe o secret a h p).1 ≡ none)
            ⊎ (IsRefused p (handle_by sha mac describe o secret a h p)
                ⊎ IsDone mac secret a h (handle_by sha mac describe o secret a h p))
      by_valid (some e) q =
          inr (inl (ack (txt "failed") h (pos 0) (describe e), refl, (λ s. cc), refl, refl))
      by_valid none q = elim (Bool-cases (verify_header mac h secret)) [
        | inr v ↦ rw v (
            inr (
              inl (
                ack (txt "unauthorized") h (pos 0) (txt "authentication required"),
                refl,
                (λ s. cc),
                refl,
                refl,
              )))
        | inl v ↦ elim (Bool-cases a.accepts_paths) [
          | inr c ↦ simp (v, c) (inl refl)
          | inl c ↦
              let (message, id, name, position, bounds, hash) = (guards_iff h).0 q in
              elim (handle_chunk_lem a h p (sized_lem h bounds)) [
                | inl e ↦ simp (v, c) (inl e)
                | inr (inl e) ↦ simp (v, c) (inr (inl e))
                | inr (inr e) ↦ simp (v, c) (inr (inr (q, refl, e)))
              ]
        ]
      ]
