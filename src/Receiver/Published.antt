-- ===== src/Receiver/Published.antt =====
-- How finalizeReceiverSession ends.
use multi_send.Base.{ℕ, ◌≡◌, refl, ◌&&◌, not, List, Option, none, some, length, if◌then◌else◌, ◌⊎◌}
use multi_send.Base.Int.{pos}
use multi_send.Base.Text.{txt}
use multi_send.Manifest.{Manifest}
use multi_send.Receiver.{
  with_counts, update_session, Session, Place, MergeStatus, merge_done, merge_failed, MergeError,
  MergeMessage, already_finalized, merged_and_cleaned, problem,
}
use multi_send.Receiver.Finalize.{
  Merging, extracts, is_swept, validate_complete, merge_chunks, fail_finalize, mark_merged,
}

abbrev pub HasStatus : MergeStatus → MergeMessage → Option Session → Type 0
HasStatus status message o =
    (s : Session) × (o ≡ some s) × (s.merge_status ≡ status) × (s.merge_message ≡ message)

-- How a session ends.
abbrev pub IsFinalized : Merging → Manifest → Place → Place → Type 0
IsFinalized g m p p' =
    ((e : MergeError) × HasStatus merge_failed (problem e) p'.session)
    ⊎ ((HasStatus merge_done already_finalized p'.session
          × (p'.final ≡ p.final)
          × ((old : List ℕ) × (p.final ≡ some old) × (pos (length old) ≡ m.total_bytes)))
        ⊎ ((content : List ℕ) × HasStatus merge_done merged_and_cleaned p'.session
            × (validate_complete m ≡ none)
            × (merge_chunks g m p.parts ≡ some content)
            × (pos (length content) ≡ m.total_bytes)
            × (p'.final ≡ (
                if is_swept g m
                then none
                else if extracts m && not g.zip_remains
                then none
                else some content))))

pub failed_lem :
    (e : MergeError) (p : Place) → HasStatus merge_failed (problem e) (fail_finalize e p).session
failed_lem e p = by_session p.session
  where
    by_session :
        (o : Option Session)
        → HasStatus merge_failed (problem e) (
            update_session
              (λ s. record s { merge_status = merge_failed; merge_message = problem e })
              o)
    by_session none = (_, refl, refl, refl)
    by_session (some s) = (_, refl, refl, refl)

pub merged_lem :
    (m : Manifest) (message : MergeMessage) (p : Place)
    → HasStatus merge_done message (mark_merged m message p).session
merged_lem m message p = by_session p.session
  where
    by_session :
        (o : Option Session)
        → HasStatus merge_done message (
            update_session
              (λ s. with_counts m (record s {
                merge_status = merge_done;
                merge_message = message;
                status = txt "done";
              }))
              o)
    by_session none = (_, refl, refl, refl)
    by_session (some s) = (_, refl, refl, refl)
