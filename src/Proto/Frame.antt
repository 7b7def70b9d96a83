-- ===== src/Proto/Frame.antt =====
-- Frames on the wire: four bytes of length, big-endian, and that many bytes of JSON. Reader and
-- writer are byte lists; a read returns what is left. JSON is the parameter `Codec`.
pub mod RoundTrip
use multi_send.Base.{
  ℕ, zero, suc, ◌+◌, ◌*◌, ◌/◌, ◌%◌, Bool, ◌||◌, List, [], ◌∷◌, ◌++◌, Option, none, some, Result, ok,
  err, length, ltb, ◌==◌, if◌then◌else◌, ◌>>=◌, String,
}
use multi_send.Base.Text.{Text, txt, is_empty}
use multi_send.Proto.{Header, ChunkAck, chunk_start}

-- json.Marshal and json.Unmarshal of one type; `none` is an error.
pub record Codec (A : Type 0) : Type 0 where
  pub marshal : A → Option Text
  pub unmarshal : Text → Option A

pub data FrameError : Type 0 where
  marshal_failed frame_too_large unexpected_eof invalid_frame_length unmarshal_failed : FrameError

abbrev pub big_endian : ℕ → Text
big_endian n = n / 16777216 % 256 ∷ n / 65536 % 256 ∷ n / 256 % 256 ∷ n % 256 ∷ []

-- io.ReadFull of n bytes.
unfoldable pub read_full : ℕ → Text → Result FrameError (Text × Text)
read_full zero input = ok ([], input)
read_full (suc n) [] = err unexpected_eof
read_full (suc n) (b ∷ input) = elim (read_full n input) [
  | err e ↦ err e
  | ok (bytes, rest) ↦ ok (b ∷ bytes, rest)
]

-- binary.Read of a big-endian uint32.
unfoldable pub read_length : Text → Result FrameError (ℕ × Text)
read_length (a ∷ b ∷ c ∷ d ∷ rest) = ok (a * 16777216 + b * 65536 + c * 256 + d, rest)
read_length _ = err unexpected_eof

module _ {A : Type 0} (codec : Codec A) where
  -- What writeFrame puts on the wire.
  unfoldable pub write_frame : A → Result FrameError Text
  write_frame v = elim (codec.marshal v) [
    | none ↦ err marshal_failed
    | some b ↦
        if ltb 65536 (length b)
        then err frame_too_large
        else ok (big_endian (length b % 4294967296) ++ b)
  ]

  abbrev pub decode_body : Text × Text → Result FrameError (A × Text)
  decode_body (body, rest) = elim (codec.unmarshal body) [
    | none ↦ err unmarshal_failed
    | some v ↦ ok (v, rest)
  ]

  abbrev pub read_body : ℕ × Text → Result FrameError (A × Text)
  read_body (n, input) =
      if n == 0 || ltb 65536 n
      then err invalid_frame_length
      else (read_full n input >>= decode_body)

  unfoldable pub read_frame : Text → Result FrameError (A × Text)
  read_frame input = read_length input >>= read_body

abbrev pub with_type : Header → Header
with_type h = record h {
  message_type = if is_empty h.message_type then chunk_start else h.message_type;
}

abbrev pub with_ack_type : ChunkAck → ChunkAck
with_ack_type a = record a { type = if is_empty a.type then txt "chunk_ack" else a.type }

unfoldable pub write_header : Codec Header → Header → Result FrameError Text
unfolding write_frame
write_header codec h = write_frame codec (with_type h)

unfoldable pub read_header : Codec Header → Text → Result FrameError (Header × Text)
unfolding read_frame
read_header codec input = elim (read_frame codec input) [
  | err e ↦ err e
  | ok (h, rest) ↦ ok (with_type h, rest)
]

unfoldable pub write_chunk_ack : Codec ChunkAck → ChunkAck → Result FrameError Text
unfolding write_frame
write_chunk_ack codec a = write_frame codec (with_ack_type a)

unfoldable pub read_chunk_ack : Codec ChunkAck → Text → Result FrameError (ChunkAck × Text)
unfolding read_frame
read_chunk_ack codec input = elim (read_frame codec input) [
  | err e ↦ err e
  | ok (a, rest) ↦ ok (with_ack_type a, rest)
]
