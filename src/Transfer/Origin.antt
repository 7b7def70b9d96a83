-- ===== src/Transfer/Origin.antt =====
-- What a transfer starts from.
use multi_send.Base.{
  ◌≡◌, refl, Bool, true, false, List, [], ◌∷◌, Option, none, some, arith, Bool-cases, inl, inr, ◌⊎◌,
  ok, err, map, ℕ, All, ◌↔◌, &&_iff, ◌≢◌, ap,
}
use multi_send.Base.Int.{ℤ, eq_ℤ_iff}
use multi_send.Base.Text.{Text, same_text_iff}
use multi_send.Chunk.{Chunk, ChunkPlan}
use multi_send.Manifest.{
  ChunkState, Manifest, Status, canceled, is_canceled, has_canceled, has_canceled_chunks,
  activate_resume, activate_chunk,
}
use multi_send.Transfer.{
  Source, OriginError, manifest_incompatible, manifest_not_found, is_compatible, new_manifest,
  new_chunk, manifest_complete, load_or_create, max_attempts_per_chunk,
}

-- The manifest is of the source: the same file, size, chunk size, target and content.
abbrev pub IsOfSource : Source → Manifest → Type 0
IsOfSource src m =
    (m.file_name ≡ src.file_name)
    × (m.total_bytes ≡ src.size)
    × (m.chunk_size ≡ src.chunk_size)
    × (m.target.address ≡ src.target_address)
    × (m.source.identity ≡ src.identity)

is_compatible_iff : (src : Source) (m : Manifest) → (is_compatible src m ≡ true) ↔ IsOfSource src m
unfolding is_compatible
is_compatible_iff src m = (
  λ h.
      let (name, h) = (&&_iff _ _).0 h in
      let (size, h) = (&&_iff _ _).0 h in
      let (chunk, h) = (&&_iff _ _).0 h in
      let (address, identity) = (&&_iff _ _).0 h in
      (
        (same_text_iff m.file_name src.file_name).0 name,
        (eq_ℤ_iff m.total_bytes src.size).0 size,
        (eq_ℤ_iff m.chunk_size src.chunk_size).0 chunk,
        (same_text_iff m.target.address src.target_address).0 address,
        (same_text_iff m.source.identity src.identity).0 identity,
      ),
  λ (name, size, chunk, address, identity). (&&_iff _ _).1 (
    (same_text_iff m.file_name src.file_name).1 name,
    (&&_iff _ _).1 (
      (eq_ℤ_iff m.total_bytes src.size).1 size,
      (&&_iff _ _).1 (
        (eq_ℤ_iff m.chunk_size src.chunk_size).1 chunk,
        (&&_iff _ _).1 (
          (same_text_iff m.target.address src.target_address).1 address,
          (same_text_iff m.source.identity src.identity).1 identity,
        ),
      ),
    ),
  ),
)

-- No chunk is canceled.
abbrev pub NoneCanceled : List ChunkState → Type 0
NoneCanceled = All (λ c. c.status ≢ canceled)

is_canceled_no : (s : Status) → is_canceled s ≡ false → s ≢ canceled
is_canceled_no s h e = let q : is_canceled s ≡ true = ap is_canceled e in cc

has_canceled-NoneCanceled : (cs : List ChunkState) → has_canceled cs ≡ false → NoneCanceled cs
unfolding has_canceled
has_canceled-NoneCanceled [] h = tt
has_canceled-NoneCanceled (c ∷ cs) h =
    (is_canceled_no c.status (ground arith), has_canceled-NoneCanceled cs (ground arith))

-- A manifest that a transfer of the source may go on with.
abbrev pub IsUsable : Source → Manifest → Type 0
IsUsable src m = IsOfSource src m × NoneCanceled m.chunks

new_chunks_lem : (cs : List Chunk) → has_canceled (map new_chunk cs) ≡ false
unfolding has_canceled
new_chunks_lem [] = refl
new_chunks_lem (c ∷ cs) = new_chunks_lem cs

new_manifest-IsUsable :
    (now : ℕ) (id : Text) (src : Source) (plan : ChunkPlan)
    → IsUsable src (new_manifest now id src plan)
unfolding new_manifest
new_manifest-IsUsable now id src plan =
    ((refl, refl, refl, refl, refl), has_canceled-NoneCanceled _ (new_chunks_lem plan.chunks))

activated_lem : (k : ℤ) (cs : List ChunkState) → has_canceled (map (activate_chunk k) cs) ≡ false
unfolding has_canceled
activated_lem k [] = refl
activated_lem k (c ∷ cs) = ground (arith, activated_lem k cs)

activate_resume-IsUsable :
    (k : ℤ) (src : Source) (m : Manifest)
    → is_compatible src m ≡ true
    → IsUsable src (activate_resume k m)
unfolding activate_resume
activate_resume-IsUsable k src m e =
    ((is_compatible_iff src m).0 e, has_canceled-NoneCanceled _ (activated_lem k m.chunks))

-- What stands in the way of an explicit resume.
abbrev pub CannotResume : Source → Option Manifest → Type 0
CannotResume src existing =
    (existing ≡ none) ⊎ ((m : Manifest) × (existing ≡ some m) × ¬ IsOfSource src m)

-- A transfer starts from a manifest with the source's file name, size, chunk size, target address and
-- content identity, and with no canceled chunk; or it is refused, and then only where a resume was
-- asked for and no manifest, or one that differs in one of these five, was found.
pub load_or_create_lem :
    (now : ℕ) (id : Text) (existing : Option Manifest) (src : Source) (plan : ChunkPlan)
    (explicit_resume : Bool)
    → let r = load_or_create now id existing src plan explicit_resume in
      ((m : Manifest) × (r ≡ ok m) × IsUsable src m)
      ⊎ ((e : OriginError) × (r ≡ err e) × (explicit_resume ≡ true) × CannotResume src existing)
unfolding load_or_create
load_or_create_lem now id none src plan true = inr (manifest_not_found, refl, refl, inl refl)
load_or_create_lem now id none src plan false =
    inl (new_manifest now id src plan, refl, new_manifest-IsUsable now id src plan)
load_or_create_lem now id (some m) src plan true = elim (Bool-cases (is_compatible src m)) [
  | inl e ↦ inl (
    activate_resume max_attempts_per_chunk m,
    rw e refl,
    activate_resume-IsUsable max_attempts_per_chunk src m e,
  )
  | inr e ↦ inr (
    manifest_incompatible,
    rw e refl,
    refl,
    inr (m, refl, (λ same. let q = (is_compatible_iff src m).1 same in cc)),
  )
]
load_or_create_lem now id (some m) src plan false = elim (Bool-cases (is_compatible src m)) [
  | inl e ↦ elim (Bool-cases (has_canceled_chunks m)) [
    | inl q ↦
        inl (new_manifest now id src plan, rw (e, q) refl, new_manifest-IsUsable now id src plan)
    | inr q ↦ elim (Bool-cases (manifest_complete m)) [
      | inl d ↦
          inl
            (new_manifest now id src plan, rw (e, q, d) refl, new_manifest-IsUsable now id src plan)
      | inr d ↦ inl (
        m,
        rw (e, q, d) refl,
        (
          (is_compatible_iff src m).0 e,
          has_canceled-NoneCanceled m.chunks (unfold has_canceled_chunks in q),
        ),
      )
    ]
  ]
  | inr e ↦ inl (new_manifest now id src plan, rw e refl, new_manifest-IsUsable now id src plan)
]
