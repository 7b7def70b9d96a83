-- ===== src/Receiver/Kept.antt =====
-- Parts that are written to the directory: those of the layout that are there stay.
use multi_send.Base.{
  ℕ, ◌≡◌, refl, sym, ap, subst, ◌∙◌, Bool, true, false, List, [], ◌∷◌, Option, none, some, All,
  Bool-cases, inl, inr,
}
use multi_send.Base.Int.{ℤ, pos, pos_part, eq_ℤ, eq_ℤ_refl}
use multi_send.Base.Text.{Text}
use multi_send.Proto.{Header}
use multi_send.Manifest.{Manifest, ChunkState, load}
use multi_send.Receiver.{
  Part, is_part, find_part, put_part, remove_part, Place, Session, MergeStatus, merge_running,
  merge_done,
}
use multi_send.Receiver.Honest.{
  Layout, slice, HoldSlices, IsHeld, AreHeld, IsHonest, IsFaithful, find_part-put_part_other,
  is_part_iff, update_manifest_file-IsHonest,
}
use multi_send.Receiver.Chunks.{
  Arrival, update_manifest_file, acknowledge, schedule_by, schedule_in, recorded, manifest_for,
  saved,
}

pub remove_absent :
    (name : Text) (i : ℤ) (ps : List Part) → find_part name i ps ≡ none → remove_part name i ps ≡ ps
unfolding find_part remove_part
remove_absent name i [] e = refl
remove_absent name i (p ∷ ps) e = elim (Bool-cases (is_part name i p)) [
  | inl x ↦ absurd (let e' = rw x at e in cc)
  | inr x ↦ let e' = rw x at e in rw x (ap (λ qs. p ∷ qs) (remove_absent name i ps e'))
]

pub sized :
    (l : Layout) (h : Header)
    → h.part_size ≡ pos (l.size_of h.chunk_index)
    → eq_ℤ (pos (pos_part h.part_size)) h.part_size ≡ true
sized l h s = rw s (eq_ℤ_refl (pos (l.size_of h.chunk_index)))

update_manifest_file-parts :
    (a : Arrival) (h : Header) (written : ℤ) (p : Place)
    → (update_manifest_file a h written p).0.parts ≡ p.parts
unfolding update_manifest_file
update_manifest_file-parts a h written p = elim (Bool-cases a.load_fails) [
  | inl e ↦ simp e refl
  | inr e ↦ simp e (by_saved (recorded (manifest_for a h (load p.manifest)) a h written))
]
  where
    by_saved : (o : Option Manifest) → (saved o a h p).0.parts ≡ p.parts
    by_saved none = refl
    by_saved (some m) = elim (Bool-cases a.save_fails) [ inl e ↦ simp e refl | inr e ↦ simp e refl ]

module _ (l : Layout) where
  pub put_part-HoldSlices :
      (i : ℤ) (ps : List Part)
      → HoldSlices l ps
      → HoldSlices l (put_part (record { name = l.name; index = i; content = slice l i }) ps)
  put_part-HoldSlices i ps holds j content e =
      let new : Part = record { name = l.name; index = i; content = slice l i } in
      elim (Bool-cases (is_part l.name j new)) [
        | inl x ↦
            let (n, k) = (is_part_iff l.name j new).0 x in
            let e' : ◌≡◌ {A = Option (List ℕ)} (some (slice l i)) (some content) =
              sym (find_part-put_part_other new l.name j ps ∙ rw x refl) ∙ e in
            let same : slice l i ≡ content = cc in sym same ∙ ap (slice l) k
        | inr x ↦ holds j content (sym (find_part-put_part_other new l.name j ps ∙ rw x refl) ∙ e)
      ]

  -- A part of the layout that is there stays.
  abbrev pub Keeps : List Part → List Part → Type 0
  Keeps ps ps' =
      (i : ℤ) → find_part l.name i ps ≡ some (slice l i) → find_part l.name i ps' ≡ some (slice l i)

  pub put_part-Keeps :
      (i : ℤ) (ps : List Part)
      → Keeps ps (put_part (record { name = l.name; index = i; content = slice l i }) ps)
  put_part-Keeps i ps k f =
      let new : Part = record { name = l.name; index = i; content = slice l i } in
      elim (Bool-cases (is_part l.name k new)) [
        | inl x ↦
            let (n, same) = (is_part_iff l.name k new).0 x in
            find_part-put_part_other new l.name k ps ∙ rw x (ap (λ j. some (slice l j)) same)
        | inr x ↦ find_part-put_part_other new l.name k ps ∙ rw x f
      ]

  put_part-IsHeld :
      (i : ℤ) (ps : List Part) (c : ChunkState)
      → IsHeld l ps c
      → IsHeld l (put_part (record { name = l.name; index = i; content = slice l i }) ps) c
  put_part-IsHeld i ps c (o, s, f) = (o, s, put_part-Keeps i ps c.index f)

  pub put_part-AreHeld :
      (i : ℤ) (ps : List Part) (o : Option Manifest)
      → AreHeld l ps o
      → AreHeld l (put_part (record { name = l.name; index = i; content = slice l i }) ps) o
  put_part-AreHeld i ps none h = tt
  put_part-AreHeld i ps (some m) h = each m.chunks h
    where
      each :
          (cs : List ChunkState)
          → All (IsHeld l ps) cs
          → All
              (IsHeld l (put_part (record { name = l.name; index = i; content = slice l i }) ps))
              cs
      each [] h = tt
      each (c ∷ cs) (p, h) = (put_part-IsHeld i ps c p, each cs h)

  pub updated :
      (a : Arrival) (h : Header) (written : ℤ) (p : Place)
      → IsFaithful l a h
      → IsHonest l p
      → find_part l.name h.chunk_index p.parts ≡ some (slice l h.chunk_index)
      → IsHonest l (update_manifest_file a h written p).0
        × Keeps p.parts (update_manifest_file a h written p).0.parts
  updated a h written p faithful honest f = (
    update_manifest_file-IsHonest l a h written p faithful honest f,
    subst (Keeps p.parts) (sym (update_manifest_file-parts a h written p)) (λ j x. x),
  )

  schedule_in-IsHonest :
      (o : Option Session) (p : Place)
      → IsHonest l p
      → IsHonest l (schedule_in o p) × ((schedule_in o p).parts ≡ p.parts)
  schedule_in-IsHonest none p h = (h, refl)
  schedule_in-IsHonest (some s) p h = by_status s.merge_status
    where
      by_status :
          (m : MergeStatus) → IsHonest l (schedule_by m s p) × ((schedule_by m s p).parts ≡ p.parts)
      by_status merge_running = (h, refl)
      by_status merge_done = (h, refl)
      by_status _ = (h, refl)

  pub acknowledge-IsHonest :
      (h : Header) (written : ℤ) (schedules : Bool) (ps : List Part) (r : Place × Bool)
      → IsHonest l r.0 × Keeps ps r.0.parts
      → IsHonest l (acknowledge h written schedules r).0
        × Keeps ps (acknowledge h written schedules r).0.parts
  acknowledge-IsHonest h written schedules ps (p, false) q = q
  acknowledge-IsHonest h written false ps (p, true) q = q
  acknowledge-IsHonest h written true ps (p, true) (q, k) =
      let (q', same) = schedule_in-IsHonest p.session p q in (q', subst (Keeps ps) (sym same) k)
