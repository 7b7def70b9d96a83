-- ===== src/Receiver/Finalize.antt =====
-- finalizeReceiverSession: the parts are merged to the final file. Whether its path is allowed
-- (validateReceiverPath), and the name and place of a pulled file, are an input, with the errors of the
-- file system; unpacking a zip file is one too.
use multi_send.Base.{
  ℕ, ◌++◌, Bool, false, ◌&&◌, ◌||◌, not, List, [], ◌∷◌, Option, none, some, length, ◌==◌,
  if◌then◌else◌, true, select,
}
use multi_send.Base.Int.{ℤ, pos, le_ℤ, eq_ℤ}
use multi_send.Base.Text.{Text, txt, same_text, trim_space, is_empty, contains, has_suffix}
use multi_send.Base.Sort.{sort_by}
use multi_send.Manifest.{Manifest, ChunkState, by_index, is_done, is_failed, load}
use multi_send.Receiver.{
  Part, find_part, Session, Place, MergeStatus, merge_running, merge_done, merge_failed, MergeError,
  no_manifest, invalid_total, chunks_not_done, chunks_failed, outside_root, stale_final,
  merge_broken, publish_broken, final_size, extract_broken, cleanup_broken, MergeMessage,
  no_message, already_finalized, merged_and_cleaned, problem, update_session, count_chunks,
  with_counts,
}

pub record Merging : Type 0 where
  pub load_fails : Bool
  pub path_allowed : Bool
  -- Removing a final file of another size; creating, copying or closing the merged one; renaming it;
  -- os.Stat of it.
  pub remove_fails : Bool
  pub merge_fails : Bool
  pub rename_fails : Bool
  pub stat_fails : Bool
  -- extractZipSafe fails; the Remove of the zip file, whose error is dropped, fails.
  pub extract_fails : Bool
  pub zip_remains : Bool
  -- The base name of the target's path, and whether it lies in the session's directory.
  pub target_name : Text
  pub target_in_session : Bool
  -- filepath.Glob, which reads the session's path as a pattern, finds the files of that directory, or
  -- else none.
  pub finds_directory : Bool
  -- cleanupReceiverChunks fails at some file, and what is left then.
  pub cleanup_fails : Bool
  pub keeps_part : Part → Bool
  pub keeps_final : Bool

-- validateReceiverManifestComplete, of a manifest that is not nil.
unfoldable pub validate_complete : Manifest → Option MergeError
unfolding count_chunks
validate_complete m =
    if le_ℤ m.total_bytes (pos 0)
    then some invalid_total
    else if not (count_chunks is_done m.chunks == length m.chunks)
    then some chunks_not_done
    else if not (count_chunks is_failed m.chunks == 0)
    then some chunks_failed
    else none

abbrev pub sized_content : ℤ → Option (List ℕ) → Option (List ℕ)
sized_content size none = none
sized_content size (some content) = if eq_ℤ (pos (length content)) size then some content else none

abbrev pub join_contents : Option (List ℕ) → Option (List ℕ) → Option (List ℕ)
join_contents (some content) (some rest) = some (content ++ rest)
join_contents _ _ = none

-- The loop of mergeReceiverChunks; `none` is its error.
unfoldable pub merge_parts : Text → List Part → List ChunkState → Option (List ℕ)
unfolding find_part
merge_parts name parts [] = some []
merge_parts name parts (c ∷ cs) =
    join_contents (sized_content c.size (find_part name c.index parts)) (merge_parts name parts cs)

-- mergeReceiverChunks
unfoldable pub merge_chunks : Merging → Manifest → List Part → Option (List ℕ)
unfolding merge_parts sort_by
merge_chunks g m parts =
    if g.merge_fails then none else merge_parts m.file_name parts (sort_by by_index m.chunks)

-- failReceiverFinalize
abbrev pub fail_finalize : MergeError → Place → Place
fail_finalize e p = record p {
  session =
      update_session (λ s. record s { merge_status = merge_failed; merge_message = problem e })
        p.session;
}

-- markReceiverDone
abbrev pub mark_merged : Manifest → MergeMessage → Place → Place
mark_merged m message p = record p {
  session =
      update_session
        (λ s.
          with_counts m
            (record s { merge_status = merge_done; merge_message = message; status = txt "done" }))
        p.session;
}

abbrev pub extracts : Manifest → Bool
extracts m = same_text m.target.address (txt "extract")

-- receiverFinalPath takes the target's path; otherwise it is the file's name in the session's directory.
abbrev pub has_target : Manifest → Bool
has_target m = same_text m.target.type (txt "file") && not (is_empty (trim_space m.target.path))

abbrev pub final_name : Merging → Manifest → Text
final_name g m = if has_target m then g.target_name else m.file_name

abbrev pub is_in_session : Merging → Manifest → Bool
is_in_session g m = if has_target m then g.target_in_session else true

-- What cleanupReceiverChunks removes of the session's directory: `*.chunk*`, but for `.tmp` files.
-- Every part has such a name.
abbrev pub is_swept_name : Text → Bool
is_swept_name name = contains name (txt ".chunk") && not (has_suffix name (txt ".tmp"))

unfoldable pub is_swept : Merging → Manifest → Bool
unfolding trim_space contains has_suffix
is_swept g m = g.finds_directory && (is_in_session g m && is_swept_name (final_name g m))

-- cleanupReceiverChunks, where it comes to an end.
abbrev pub cleaned : Merging → Manifest → Place → Place
cleaned g m p = record p {
  parts = if g.finds_directory then [] else p.parts;
  final = if is_swept g m then none else p.final;
}

-- cleanupReceiverChunks, where it fails on the way.
abbrev pub cleaned_partly : Merging → Manifest → Place → Place
cleaned_partly g m p = record p {
  parts = if g.finds_directory then select g.keeps_part p.parts else p.parts;
  final = if is_swept g m && not g.keeps_final then none else p.final;
}

abbrev pub unpacked : Merging → Manifest → Place → Place
unpacked g m p = record p { final = if extracts m && not g.zip_remains then none else p.final }

-- What follows the renaming: the check of the size, and the rest.
abbrev pub end_merge : Merging → Manifest → List ℕ → Place → Place
end_merge g m content p =
    if g.stat_fails || not (eq_ℤ (pos (length content)) m.total_bytes)
    then fail_finalize final_size p
    else if extracts m && g.extract_fails
    then fail_finalize extract_broken p
    else if g.cleanup_fails
    then fail_finalize cleanup_broken (cleaned_partly g m (unpacked g m p))
    else mark_merged m merged_and_cleaned (cleaned g m (unpacked g m p))

abbrev pub publish_merged : Option (List ℕ) → Merging → Manifest → Place → Place
publish_merged none g m p = fail_finalize merge_broken p
publish_merged (some content) g m p =
    if g.rename_fails
    then fail_finalize publish_broken p
    else end_merge g m content (record p { final = some content })

-- From os.Stat of the final file on.
abbrev pub replace_final : Option (List ℕ) → Merging → Manifest → Place → Place
replace_final none g m p = publish_merged (merge_chunks g m p.parts) g m p
replace_final (some old) g m p =
    if eq_ℤ (pos (length old)) m.total_bytes
    then mark_merged m already_finalized p
    else if g.remove_fails
    then fail_finalize stale_final p
    else publish_merged (merge_chunks g m p.parts) g m (record p { final = none })

abbrev pub merge_valid : Option MergeError → Merging → Manifest → Place → Place
merge_valid (some e) g m p = fail_finalize e p
merge_valid none g m p =
    if not g.path_allowed then fail_finalize outside_root p else replace_final p.final g m p

abbrev pub merge_loaded : Option Manifest → Merging → Place → Place
merge_loaded none g p = fail_finalize no_manifest p
merge_loaded (some m) g p =
    if g.load_fails then fail_finalize no_manifest p else merge_valid (validate_complete m) g m p

abbrev pub finalize_by : MergeStatus → Merging → Place → Place
finalize_by merge_running g p = p
finalize_by merge_done g p = p
finalize_by _ g p = merge_loaded (load p.manifest) g (record p {
  session =
      update_session (λ s. record s { merge_status = merge_running; merge_message = no_message })
        p.session;
})

abbrev pub finalize_in : Option Session → Merging → Place → Place
finalize_in none g p = p
finalize_in (some s) g p = finalize_by s.merge_status g p

-- finalizeReceiverSession, which the timer calls.
unfoldable pub finalize : Merging → Place → Place
unfolding validate_complete merge_chunks is_swept load
finalize g p = finalize_in p.session g (record p { is_scheduled = false })
