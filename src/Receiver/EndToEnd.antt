-- ===== src/Receiver/EndToEnd.antt =====
-- From the connections to the published file.
use multi_send.Base.{
  ℕ, ◌+◌, ◌≡◌, sym, ap, subst, ◌∙◌, List, [], ◌∷◌, Option, none, some, length, All, map,
}
use multi_send.Base.Int.{pos}
use multi_send.Base.Sort.{sort_by, All-sort_by}
use multi_send.Base.Text.{Text}
use multi_send.Proto.{Header}
use multi_send.Manifest.{Manifest, ChunkState, by_index, load}
use multi_send.Receiver.Finalize.{Merging, finalize}
use multi_send.Receiver.Published.{HasStatus}
use multi_send.Receiver.Merged.{IsReady, IsSmooth, IsStale, finalize-HoldSource}
use multi_send.Receiver.{merged_and_cleaned, Part, find_part, Place, Session, merge_done}
use multi_send.Receiver.Whole.{HoldSource, take, drop}
use multi_send.Receiver.Honest.{
  Layout, HoldSlices, IsHeld, AreHeld, IsHonest, IsFaithful, load-AreHeld,
}
use multi_send.Receiver.Chunks.{Arrival}
use multi_send.Receiver.Connections.{arrive, accept_all}
use multi_send.Receiver.Interleaved.{accept_all-IsHonest}

module _ (l : Layout) where
  -- The chunks follow each other from an offset to the end of the file.
  abbrev pub Cover : ℕ → List ChunkState → Type 0
  Cover offset [] = offset ≡ length l.source
  Cover offset (c ∷ cs) = (l.offset_of c.index ≡ offset) × Cover (offset + l.size_of c.index) cs

  Cover-HoldSource :
      (ps : List Part) (offset : ℕ) (cs : List ChunkState)
      → All (IsHeld l ps) cs
      → Cover offset cs
      → HoldSource l.name ps l.source offset cs
  Cover-HoldSource ps offset [] h e = e
  Cover-HoldSource ps offset (c ∷ cs) ((o, s, f), h) (e, k) = (
    l.size_of c.index,
    o ∙ ap pos e,
    s,
    f ∙ ap (λ n. some (take (l.size_of c.index) (drop n l.source))) e,
    Cover-HoldSource ps (offset + l.size_of c.index) cs h k,
  )

  AreHeld-IsHeld :
      (ps : List Part) (o : Option Manifest) (m : Manifest)
      → o ≡ some m
      → AreHeld l ps o
      → All (IsHeld l ps) m.chunks
  AreHeld-IsHeld ps o m e h = subst (AreHeld l ps) e h

no_parts : (l : Layout) → HoldSlices l []
unfolding find_part
no_parts l = λ i content e. absurd (cc)

empty-IsHonest : (l : Layout) (p : Place) → p.parts ≡ [] → p.manifest ≡ none → IsHonest l p
empty-IsHonest l p empty fresh =
    (subst (HoldSlices l) (sym empty) (no_parts l), subst (AreHeld l p.parts) (sym fresh) tt)

-- From an empty directory, whatever connections came, how often and with whatever failures of the file
-- system, each header being of the file's layout and its payload beginning with its chunk's bytes, and
-- in whatever order their goroutines made their steps: finalizeReceiverSession then publishes the file,
-- byte for byte, and says that it is done. The conditions are these. The manifest, as Load gives it, is
-- complete, has the file's name and its size as the total, and its chunks, in the order of their
-- indices, cover the file. The session is not merging and not done, and no final file of the total's
-- size is there. Nothing is to be unpacked, and the final file lies outside the session's directory, or
-- its name has no ".chunk" in it or ends in ".tmp". No file operation of finalizeReceiverSession fails.
pub finalize-accept_all :
    (l : Layout) (sha : List ℕ → Text) (mac : List ℕ → Text → List ℕ) (secret : List ℕ)
    (schedule : List ℕ) (cs : List (Arrival × Header)) (p : Place) (g : Merging) (s : Session)
    (m : Manifest)
    → p.parts ≡ []
    → p.manifest ≡ none
    → All (λ c. IsFaithful l c.0 c.1) cs
    → let p' = accept_all sha mac secret schedule (map arrive cs) p in
      IsReady s m p'
      → IsSmooth g m
      → IsStale m p'.final
      → m.file_name ≡ l.name
      → m.total_bytes ≡ pos (length l.source)
      → Cover l 0 (sort_by by_index m.chunks)
      → ((finalize g p').final ≡ some l.source)
        × HasStatus merge_done merged_and_cleaned (finalize g p').session
finalize-accept_all l sha mac secret schedule cs p g s m empty fresh faithful ready smooth stale
      named total cover =
    let p' = accept_all sha mac secret schedule (map arrive cs) p in
    let honest =
      accept_all-IsHonest l sha mac secret schedule cs p faithful
        (empty-IsHonest l p empty fresh) in
    let (session, not_running, not_done, manifest, complete) = ready in
    let held =
      AreHeld-IsHeld l p'.parts (load p'.manifest) m manifest
        (load-AreHeld l p'.parts p'.manifest honest.1) in
    finalize-HoldSource g s m l.source p' ready smooth stale
      (subst (λ n. HoldSource n p'.parts l.source 0 (sort_by by_index m.chunks)) (sym named)
        (Cover-HoldSource l p'.parts 0 (sort_by by_index m.chunks)
          (All-sort_by by_index (IsHeld l p'.parts) m.chunks held) cover))
      total
