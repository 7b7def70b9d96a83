-- ===== src/Receiver/Delivery.antt =====
-- A chunk that is published: the parts hold the bytes of the file, and those that were there stay.
use multi_send.Base.{
  ℕ, ◌≡◌, refl, sym, ap, subst, ◌∙◌, Bool, true, false, not, ◌&&◌, List, Option, none, some, length,
  if◌then◌else◌, Result, ok, err, Bool-cases, inl, inr,
}
use multi_send.Base.Int.{ℤ, pos, pos_part}
use multi_send.Base.Text.{Text, is_empty, equal_fold}
use multi_send.Proto.{Header}
use multi_send.Receiver.{Part, is_part, find_part, put_part, remove_part, Place}
use multi_send.Receiver.Kept.{
  remove_absent, Keeps, put_part-HoldSlices, put_part-Keeps, put_part-AreHeld, updated,
}
use multi_send.Receiver.Honest.{
  Layout, slice, HoldSlices, IsHonest, IsFaithful, find_part-put_part_other, is_part_iff,
}
use multi_send.Receiver.Chunks.{
  Arrival, ReceiveError, payload_lost, hash_mismatch, copy_n, chunk_matches, check_hash,
  receive_chunk, publish_chunk,
}

module _ (l : Layout) where
  module _ (sha : List ℕ → Text) where
    pub find_part-slice :
        (o : Option (List ℕ)) (h : Header) (ps : List Part)
        → HoldSlices l ps
        → find_part l.name h.chunk_index ps ≡ o
        → chunk_matches sha o h ≡ true
        → find_part l.name h.chunk_index ps ≡ some (slice l h.chunk_index)
    find_part-slice none h ps holds e q = absurd (cc)
    find_part-slice (some content) h ps holds e q = e ∙ ap some (holds h.chunk_index content e)

    -- A part of the layout is put.
    put_part-IsHonest :
        (new : Part) (i : ℤ) (p : Place)
        → new ≡ record { name = l.name; index = i; content = slice l i }
        → IsHonest l p
        → IsHonest l (record p { parts = put_part new p.parts })
          × Keeps l p.parts (put_part new p.parts)
          × (find_part l.name i (put_part new p.parts) ≡ some (slice l i))
    put_part-IsHonest new i p e (parts, held) =
        let own : Part = record { name = l.name; index = i; content = slice l i } in
        let there : is_part l.name i own ≡ true = (is_part_iff l.name i own).1 (refl, refl) in
        subst
          (λ x.
            IsHonest l (record p { parts = put_part x p.parts })
            × Keeps l p.parts (put_part x p.parts)
            × (find_part l.name i (put_part x p.parts) ≡ some (slice l i)))
          (sym e)
          (
            (put_part-HoldSlices l i p.parts parts, put_part-AreHeld l i p.parts p.manifest held),
            put_part-Keeps l i p.parts,
            find_part-put_part_other own l.name i p.parts ∙ rw there refl,
          )

    -- A part that does not match is not there.
    unmatched :
        (o : Option (List ℕ)) (h : Header) (ps : List Part) (content : List ℕ)
        → HoldSlices l ps
        → find_part l.name h.chunk_index ps ≡ o
        → content ≡ slice l h.chunk_index
        → chunk_matches sha (some content) h ≡ true
        → chunk_matches sha o h ≡ false
        → o ≡ none
    unmatched none h ps content holds e q fits q' = refl
    unmatched (some old) h ps content holds e q fits q' =
        let same : content ≡ old = q ∙ sym (holds h.chunk_index old e) in
        absurd
          (let t = ap (λ x. chunk_matches sha (some x) h) same in let k = sym fits ∙ t ∙ q' in cc)

    pub publish_chunk-IsHonest :
        (a : Arrival) (h : Header) (content : List ℕ) (p : Place)
        → IsFaithful l a h
        → content ≡ slice l h.chunk_index
        → chunk_matches sha (some content) h ≡ true
        → IsHonest l p
        → IsHonest l (publish_chunk sha a h content p).0
          × Keeps l p.parts (publish_chunk sha a h content p).0.parts
    unfolding publish_chunk
    publish_chunk-IsHonest a h content p faithful q fits honest =
        let (n, o, s, y) = faithful in
        let i = h.chunk_index in
        elim (Bool-cases (chunk_matches sha (find_part a.name i p.parts) h)) [
          | inl e ↦ rw e (
              updated l a h (pos (length content)) p faithful honest (
                find_part-slice (find_part l.name i p.parts) h p.parts honest.0 refl
                  (ap (λ x. chunk_matches sha (find_part x i p.parts) h) (sym n) ∙ e)))
          | inr e ↦ elim (Bool-cases a.remove_fails) [
            | inl f ↦ simp (e, f) (honest, (λ j x. x))
            | inr f ↦ elim (Bool-cases a.rename_fails) [
              | inl r ↦
                  let absent : find_part l.name i p.parts ≡ none =
                    unmatched (find_part l.name i p.parts) h p.parts content honest.0 refl q fits
                      (ap (λ x. chunk_matches sha (find_part x i p.parts) h) (sym n) ∙ e) in
                  let kept : remove_part a.name i p.parts ≡ p.parts =
                    ap (λ x. remove_part x i p.parts) n ∙ remove_absent l.name i p.parts absent in
                  simp (e, f, r)
                    (subst (λ ps. IsHonest l (record p { parts = ps }) × Keeps l p.parts ps)
                      (sym kept) (honest, (λ j x. x)))
              | inr r ↦
                  let new : Part = record { name = a.name; index = i; content = content } in
                  let same : new ≡ record { name = l.name; index = i; content = slice l i } =
                    ap (λ x. record { name = x; index = i; content = content }) n
                    ∙ ap (λ x. record { name = l.name; index = i; content = x }) q in
                  let (honest', keeps, found) = put_part-IsHonest new i p same honest in
                  let (honest'', keeps') =
                    updated l a h (pos (length content)) (record p { parts = put_part new p.parts })
                      faithful honest' found in
                  simp (e, f, r) (honest'', (λ j x. keeps' j (keeps j x)))
            ]
          ]
        ]

    pub received_lem :
        (a : Arrival) (h : Header) (content : List ℕ)
        → IsFaithful l a h
        → receive_chunk sha a h ≡ ok content
        → content ≡ slice l h.chunk_index
    unfolding receive_chunk
    received_lem a h content (n, o, s, y) e =
        by_copy (copy_n (pos_part h.part_size) a.payload)
          (ap (λ z. copy_n (pos_part z) a.payload) s ∙ y) e
      where
        by_copy :
            (c : Option (List ℕ))
            → c ≡ some (slice l h.chunk_index)
            → check_hash sha c a h ≡ ok content
            → content ≡ slice l h.chunk_index
        by_copy none q r = absurd (cc)
        by_copy (some bytes) q r =
            by_hash (not (is_empty h.chunk_sha256) && not (equal_fold (sha bytes) h.chunk_sha256))
              a.temp_fails r
          where
            by_hash :
                (x y : Bool)
                → ◌≡◌ {A = Result ReceiveError (List ℕ)}
                    (if x then err hash_mismatch else if y then err payload_lost else ok bytes)
                    (ok content)
                → content ≡ slice l h.chunk_index
            by_hash true y r = absurd (cc)
            by_hash false true r = absurd (cc)
            by_hash false false r =
                let same : content ≡ bytes = cc in
                let k : bytes ≡ slice l h.chunk_index = cc in same ∙ k
