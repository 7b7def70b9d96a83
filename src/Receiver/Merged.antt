-- ===== src/Receiver/Merged.antt =====
-- finalizeReceiverSession where no file operation fails.
use multi_send.Base.{
  ℕ, ◌≡◌, ◌≢◌, refl, sym, subst, true, false, List, [], Option, none, some, length, if◌then◌else◌,
  inl, inr, ◌⊎◌,
}
use multi_send.Base.Int.{pos, eq_ℤ, eq_ℤ_refl}
use multi_send.Base.Sort.{sort_by}
use multi_send.Manifest.{Manifest, by_index, load}
use multi_send.Receiver.{
  Session, Place, MergeStatus, merge_running, merge_done, merge_failed, merge_pending, merge_unset,
  merged_and_cleaned,
}
use multi_send.Receiver.Finalize.{
  Merging, extracts, is_swept, validate_complete, merge_chunks, mark_merged, end_merge,
  replace_final, merge_loaded, finalize_by, finalize_in, finalize,
}
use multi_send.Receiver.Whole.{drop, HoldSource, merge_parts-HoldSource}
use multi_send.Receiver.Published.{HasStatus, merged_lem}

-- A session that can be finalized, with a complete manifest as Load gives it.
abbrev pub IsReady : Session → Manifest → Place → Type 0
IsReady s m p =
    (p.session ≡ some s)
    × (s.merge_status ≢ merge_running)
    × (s.merge_status ≢ merge_done)
    × (load p.manifest ≡ some m)
    × (validate_complete m ≡ none)

-- No file operation fails, nothing is unpacked, and the final file has no name that the cleanup removes.
abbrev pub IsSmooth : Merging → Manifest → Type 0
IsSmooth g m =
    (g.load_fails ≡ false)
    × (g.path_allowed ≡ true)
    × (g.remove_fails ≡ false)
    × (g.merge_fails ≡ false)
    × (g.rename_fails ≡ false)
    × (g.stat_fails ≡ false)
    × (extracts m ≡ false)
    × (g.cleanup_fails ≡ false)
    × (is_swept g m ≡ false)

-- The final file is not there, or has another size.
abbrev pub IsStale : Manifest → Option (List ℕ) → Type 0
IsStale m o =
    (o ≡ none) ⊎ ((old : List ℕ) × (o ≡ some old) × (eq_ℤ (pos (length old)) m.total_bytes ≡ false))

replace_stale :
    (o : Option (List ℕ)) (g : Merging) (m : Manifest) (content : List ℕ) (q : Place)
    → IsSmooth g m
    → IsStale m o
    → merge_chunks g m q.parts ≡ some content
    → (q' : Place) × (replace_final o g m q ≡ end_merge g m content q') × (q'.final ≡ some content)
replace_stale none g m content q (load, path, remove, merge, rename, stat, extract, cleanup, swept)
      h e =
    (record q { final = some content }, simp (e, rename) refl, refl)
replace_stale (some old) g m content q smooth (inl e') e = absurd (cc)
replace_stale (some old) g m content q
      (load, path, remove, merge, rename, stat, extract, cleanup, swept) (inr (old', e', differs))
      e =
    let same : old' ≡ old = cc in
    let differs' = subst (λ x. eq_ℤ (pos (length x)) m.total_bytes ≡ false) same differs in
    (record q { final = some content }, simp (differs', remove, e, rename) refl, refl)

-- What a step comes to that merges the content.
abbrev Merges : Merging → Manifest → List ℕ → Place → Type 0
Merges g m content r = (q : Place) × (r ≡ end_merge g m content q) × (q.final ≡ some content)

loaded_stale :
    (g : Merging) (m : Manifest) (content : List ℕ) (o : Option Manifest) (q : Place)
    → o ≡ some m
    → validate_complete m ≡ none
    → IsSmooth g m
    → IsStale m q.final
    → merge_chunks g m q.parts ≡ some content
    → Merges g m content (merge_loaded o g q)
loaded_stale g m content o q e v smooth stale k =
    let (load, path, remove, merge, rename, stat, extract, cleanup, swept) = smooth in
    let (q', same, f) = replace_stale q.final g m content q smooth stale k in
    subst (λ x. Merges g m content (merge_loaded x g q)) (sym e) (q', simp (load, v, path) same, f)

finalize_by_stale :
    (status : MergeStatus) (g : Merging) (m : Manifest) (content : List ℕ) (q : Place)
    → status ≢ merge_running
    → status ≢ merge_done
    → load q.manifest ≡ some m
    → validate_complete m ≡ none
    → IsSmooth g m
    → IsStale m q.final
    → merge_chunks g m q.parts ≡ some content
    → Merges g m content (finalize_by status g q)
finalize_by_stale merge_running g m content q nr nd e v smooth stale k = absurd (nr refl)
finalize_by_stale merge_done g m content q nr nd e v smooth stale k = absurd (nd refl)
finalize_by_stale merge_unset g m content q nr nd e v smooth stale k =
    loaded_stale g m content (load q.manifest) _ e v smooth stale k
finalize_by_stale merge_pending g m content q nr nd e v smooth stale k =
    loaded_stale g m content (load q.manifest) _ e v smooth stale k
finalize_by_stale merge_failed g m content q nr nd e v smooth stale k =
    loaded_stale g m content (load q.manifest) _ e v smooth stale k

finalize-Merges :
    (g : Merging) (s : Session) (m : Manifest) (content : List ℕ) (p : Place)
    → IsReady s m p
    → IsSmooth g m
    → IsStale m p.final
    → merge_chunks g m p.parts ≡ some content
    → Merges g m content (finalize g p)
unfolding finalize
finalize-Merges g s m content p (session, nr, nd, e, v) smooth stale k =
    let q : Place = record p { is_scheduled = false } in
    subst (λ o. Merges g m content (finalize_in o g q)) (sym session)
      (finalize_by_stale s.merge_status g m content q nr nd e v smooth stale k)

-- Where the parts of a complete manifest hold a source, chunk after chunk in the order of the indices,
-- the manifest's total is its length and no file operation fails, finalizeReceiverSession publishes
-- the source, byte for byte, and says that it is done.
pub finalize-HoldSource :
    (g : Merging) (s : Session) (m : Manifest) (source : List ℕ) (p : Place)
    → IsReady s m p
    → IsSmooth g m
    → IsStale m p.final
    → HoldSource m.file_name p.parts source 0 (sort_by by_index m.chunks)
    → m.total_bytes ≡ pos (length source)
    → ((finalize g p).final ≡ some source)
      × HasStatus merge_done merged_and_cleaned (finalize g p).session
unfolding merge_chunks
finalize-HoldSource g s m source p ready smooth stale holds total =
    let (load, path, remove, merge, rename, stat, extract, cleanup, swept) = smooth in
    let k : merge_chunks g m p.parts ≡ some source = simp merge (
      unfold drop in
      merge_parts-HoldSource m.file_name p.parts source 0 (sort_by by_index m.chunks) holds) in
    let (q, same, f) = finalize-Merges g s m source p ready smooth stale k in
    let whole : eq_ℤ (pos (length source)) m.total_bytes ≡ true =
      rw total (eq_ℤ_refl (pos (length source))) in
    let done : end_merge g m source q
        ≡ mark_merged m merged_and_cleaned
            (record q { final = q.final; parts = if g.finds_directory then [] else q.parts }) =
      simp (stat, whole, extract, cleanup, swept) refl in
    rw (same, done)
      (
        f,
        merged_lem m merged_and_cleaned
            (record q { parts = if g.finds_directory then [] else q.parts }),
      )
