-- ===== src/Transfer/Send/Headers.antt =====
-- The headers that a sender makes, and what a receiver accepts.
use multi_send.Base.{
  ℕ, ◌+◌, ◌-◌, ◌≤◌, ◌<◌, ◌≡◌, ◌≢◌, ◌⊎◌, inr, refl, sym, ap, subst, ◌∙◌, min, true, List, [], ◌∷◌,
  none, some, length, map, All, arith,
}
use multi_send.Base.Int.{pos, add64_pos}
use multi_send.Base.Text.{Text, trim_space, every, hex_decode}
use multi_send.Chunk.{Chunk, ChunkPlan}
use multi_send.Chunk.Tiling.{Tiles}
use multi_send.Chunk.Plan.{IsPlan}
use multi_send.Manifest.{ChunkState, Manifest}
use multi_send.Proto.{
  Header, is_id_char, validate_header, bad_message_type, bad_transfer_id, bad_position, bad_bounds,
  bad_sha256,
}
use multi_send.Proto.Validation.{IsValidHeader, validate_header_iff}
use multi_send.Proto.Auth.{sign_header, verify_header}
use multi_send.Proto.Auth.Signing.{verify_header-sign_header}
use multi_send.Base.Spaces.{AreBytes}
use multi_send.Transfer.{Source, new_chunk, new_manifest}
use multi_send.Transfer.Send.{Options, header_of}

-- A chunk among `count` of a file: its place, and its bytes inside the file.
abbrev pub IsInFile : ℕ → ℕ → Chunk → Type 0
IsInFile total count c =
    (k : ℕ) × (o : ℕ) × (n : ℕ) × (c.index ≡ pos k)
    × (c.offset ≡ pos o)
    × (c.size ≡ pos n)
    × (k < count)
    × (o + n ≤ total)

Tiles-IsInFile :
    (total size i off count : ℕ) (cs : List Chunk)
    → Tiles total size i off cs
    → i + length cs ≤ count
    → All (IsInFile total count) cs
Tiles-IsInFile total size i off count [] t h = tt
Tiles-IsInFile total size i off count (c ∷ cs) (more, e, t) h = (
  (
    i,
    off,
    min size (total - off),
    ap (λ x. x.index) e,
    ap (λ x. x.offset) e,
    ap (λ x. x.size) e,
    omega arith,
    omega arith,
  ),
  Tiles-IsInFile total size (i + 1) (off + min size (total - off)) count cs t (omega arith),
)

-- What the sender needs for its headers: a transfer id, a named file, and a hash or none.
abbrev pub IsSendable : Options → Text → Text → Type 0
IsSendable opts id hash =
    (0 < length id)
    × (length id ≤ 128)
    × (every is_id_char id ≡ true)
    × (trim_space opts.file_name ≢ [])
    × ((hash ≡ []) ⊎ ((length hash ≡ 64) × ((bytes : List ℕ) × (hex_decode hash ≡ some bytes))))

header_of-IsValidHeader :
    (opts : Options) (m : Manifest) (hash : Text) (total : ℕ) (c : Chunk)
    → opts.size ≡ pos total
    → total < 9223372036854775808
    → length m.chunks ≤ 1000000
    → IsSendable opts m.transfer_id hash
    → IsInFile total (length m.chunks) c
    → IsValidHeader (header_of opts m (new_chunk c) hash)
unfolding header_of
header_of-IsValidHeader opts m hash total c size fits few (nonempty, short, chars, named, sound)
      (k, o, n, i, off, s, below, inside) =
    record {
      typed = inr refl;
      id_nonempty = nonempty;
      id_short = short;
      id_chars = chars;
      named = named;
      parts_pos = omega arith;
      parts_few = omega arith;
      index_nonneg = rw i (omega arith);
      index_below = rw i (omega arith);
      part_is_next = rw (i, add64_pos k 1 (omega arith)) refl;
      offset_nonneg = rw off (omega arith);
      size_nonneg = rw s (omega arith);
      total_nonneg = rw size (omega arith);
      inside = rw (off, s, size) inside;
      hash_sound = sound;
    }

validate_header-sign_header :
    (mac : List ℕ → Text → List ℕ) (secret : List ℕ) (h : Header)
    → validate_header (sign_header mac h secret) ≡ validate_header h
unfolding sign_header validate_header bad_message_type bad_transfer_id bad_position bad_bounds
    bad_sha256
validate_header-sign_header mac [] h = refl
validate_header-sign_header mac (k ∷ secret) h = refl

-- handleConn's first two tests of a header pass.
abbrev pub IsAccepted : (List ℕ → Text → List ℕ) → List ℕ → Header → Type 0
IsAccepted mac secret h = (validate_header h ≡ none) × (verify_header mac h secret ≡ true)

length-new_chunks : (cs : List Chunk) → length (map new_chunk cs) ≡ length cs
length-new_chunks [] = refl
length-new_chunks (c ∷ cs) = omega (arith, length-new_chunks cs)

All-new_chunk :
    (P : ChunkState → Type 0) (Q : Chunk → Type 0)
    → ((c : Chunk) → Q c → P (new_chunk c))
    → (cs : List Chunk) → All Q cs
    → All P (map new_chunk cs)
All-new_chunk P Q f [] h = tt
All-new_chunk P Q f (c ∷ cs) (p, h) = (f c p, All-new_chunk P Q f cs h)

-- ValidateHeader accepts the header that the sender makes and signs for a chunk of a new manifest, and
-- so does VerifyHeader under the sender's secret: for every chunk of BuildPlan's plan of the file, if
-- the plan has at most a million chunks, the file's size fits int64 and its name is not blank, the
-- transfer id is short and of the allowed characters, the hash is 64 hex digits or absent, and the MAC
-- gives bytes, and at least one. (Without a secret the header is not signed, and VerifyHeader without
-- one accepts it.)
pub validate_header-header_of :
    (mac : List ℕ → Text → List ℕ) (opts : Options) (now : ℕ) (id hash : Text) (src : Source)
    (plan : ChunkPlan) (total size : ℕ)
    → IsPlan total size plan
    → length plan.chunks ≤ 1000000
    → opts.size ≡ pos total
    → total < 9223372036854775808
    → IsSendable opts id hash
    → ((key : List ℕ) (message : Text) → AreBytes (mac key message))
    → ((key : List ℕ) (message : Text) → mac key message ≢ [])
    → let m = new_manifest now id src plan in
      All
        (λ c.
          IsAccepted mac opts.auth_secret
            (sign_header mac (header_of opts m c hash) opts.auth_secret))
        m.chunks
unfolding new_manifest
validate_header-header_of mac opts now id hash src plan total size ok few same fits sendable bytes
      some_bytes =
    let m = new_manifest now id src plan in
    All-new_chunk
      (λ c.
        IsAccepted mac opts.auth_secret
          (sign_header mac (header_of opts m c hash) opts.auth_secret))
      (IsInFile total (length plan.chunks))
      (λ c inside. (
        validate_header-sign_header mac opts.auth_secret (header_of opts m (new_chunk c) hash)
            ∙ (validate_header_iff (header_of opts m (new_chunk c) hash)
                  (unfold header_of in rw same fits)).1
                (header_of-IsValidHeader opts m hash total c same fits
                  (rw (length-new_chunks plan.chunks) few) sendable
                  (subst (λ k. IsInFile total k c) (sym (length-new_chunks plan.chunks)) inside)),
        verify_header-sign_header mac (header_of opts m (new_chunk c) hash) opts.auth_secret bytes
            some_bytes,
      ))
      plan.chunks
      (Tiles-IsInFile total size 0 0 (length plan.chunks) plan.chunks ok.tiles (omega arith))
