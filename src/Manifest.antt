-- ===== src/Manifest.antt =====
-- internal/manifest/manifest.go: the record of a transfer and the state of each of its chunks.
-- A pointer into m.Chunks is an index with an update; `time.Now().UTC()` is the argument `now`.
pub mod Lookup
pub mod Resume
pub mod Progress
pub mod Pending
pub mod Trace
pub mod Distinct
pub mod Retry
use multi_send.Base.{
  ℕ, ◌||◌, Bool, true, false, List, [], ◌∷◌, Option, none, some, String, select, map, if◌then◌else◌,
}
use multi_send.Base.Int.{ℤ, pos, lt_ℤ, le_ℤ, eq_ℤ, add64}
use multi_send.Base.Text.{Text}
use multi_send.Base.Sort.{sort_by}

-- The Status… constants. A file may hold any other text.
pub data Status : Type 0 where
  pending sending done failed canceled : Status
  other : Text → Status

abbrev pub is_pending : Status → Bool
is_pending pending = true
is_pending _ = false

abbrev pub is_sending : Status → Bool
is_sending sending = true
is_sending _ = false

abbrev pub is_done : Status → Bool
is_done done = true
is_done _ = false

abbrev pub is_failed : Status → Bool
is_failed failed = true
is_failed _ = false

abbrev pub is_canceled : Status → Bool
is_canceled canceled = true
is_canceled _ = false

pub record SourceInfo : Type 0 where
  pub type : Text
  pub address : Text
  pub url : Text
  pub identity : Text
  pub abs_path : Text
  pub mod_time : ℤ

pub record TargetInfo : Type 0 where
  pub type : Text
  pub address : Text
  pub path : Text

pub record ChunkState : Type 0 where
  pub index : ℤ
  pub offset : ℤ
  pub size : ℤ
  pub status : Status
  pub attempts : ℤ
  pub last_error : Text
  pub channel : String
  pub bytes_done : ℤ
  pub started_at : Option ℕ
  pub completed_at : Option ℕ
  pub hash_sha256 : Text

pub record Manifest : Type 0 where
  pub schema_version : ℤ
  pub transfer_id : Text
  pub type : Text
  pub file_name : Text
  pub total_bytes : ℤ
  pub chunk_size : ℤ
  pub created_at : ℕ
  pub updated_at : ℕ
  pub source : SourceInfo
  pub target : TargetInfo
  pub chunks : List ChunkState

-- The first chunk with the index: `GetChunk` and `chunk`.
unfoldable pub find_chunk : ℤ → List ChunkState → Option ChunkState
find_chunk index [] = none
find_chunk index (c ∷ cs) =
    let rest = find_chunk index cs in if eq_ℤ c.index index then some c else rest

unfoldable pub get_chunk : Manifest → ℤ → Option ChunkState
unfolding find_chunk
get_chunk m index = find_chunk index m.chunks

-- A write through the pointer to the first chunk with the index.
unfoldable pub update_chunk : ℤ → (ChunkState → ChunkState) → List ChunkState → List ChunkState
update_chunk index f [] = []
update_chunk index f (c ∷ cs) =
    let rest = c ∷ update_chunk index f cs in if eq_ℤ c.index index then f c ∷ cs else rest

abbrev pub as_sending : ℕ → String → ChunkState → ChunkState
as_sending now channel c = record c {
  status = sending;
  channel = channel;
  started_at = some now;
  completed_at = none;
  last_error = [];
}

unfoldable pub mark_and_get_sending : ℕ → Manifest → ℤ → String → Manifest × Option ChunkState
unfolding find_chunk update_chunk
mark_and_get_sending now m index channel =
    let m' = record m { chunks = update_chunk index (as_sending now channel) m.chunks } in
    (m', find_chunk index m'.chunks)

unfoldable pub mark_sending : ℕ → Manifest → ℤ → String → Manifest
unfolding mark_and_get_sending
mark_sending now m index channel = (mark_and_get_sending now m index channel).0

abbrev pub or_now : Option ℕ → ℕ → Option ℕ
or_now none now = some now
or_now (some t) now = some t

abbrev pub as_done : ℕ → ℤ → Text → ChunkState → ChunkState
as_done now bytes hash c = record c {
  status = done;
  bytes_done = bytes;
  hash_sha256 = hash;
  completed_at = some now;
  started_at = or_now c.started_at now;
}

unfoldable pub mark_done : ℕ → Manifest → ℤ → ℤ → Text → Manifest
unfolding update_chunk
mark_done now m index bytes hash = record m {
  chunks = update_chunk index (as_done now bytes hash) m.chunks;
}

abbrev pub as_failed : Text → ChunkState → ChunkState
as_failed e c = record c { status = failed; attempts = add64 c.attempts (pos 1); last_error = e }

unfoldable pub mark_failed : Manifest → ℤ → Text → Manifest
unfolding update_chunk
mark_failed m index e = record m { chunks = update_chunk index (as_failed e) m.chunks }

abbrev pub by_index : ChunkState → ℤ
by_index c = c.index

unfoldable pub pending_chunks : Manifest → List ChunkState
unfolding select sort_by
pending_chunks m =
    sort_by by_index (select (λ c. is_pending c.status || is_failed c.status) m.chunks)

-- The loop of DoneBytes, with the sum so far.
unfoldable pub done_bytes_from : ℤ → List ChunkState → ℤ
done_bytes_from sum [] = sum
done_bytes_from sum (c ∷ cs) =
    done_bytes_from (if is_done c.status then add64 sum c.bytes_done else sum) cs

unfoldable pub done_bytes : Manifest → ℤ
unfolding done_bytes_from
done_bytes m = done_bytes_from (pos 0) m.chunks

abbrev pub normalize_status : ℤ → ℤ → Status → Status
normalize_status max_attempts attempts sending = pending
normalize_status max_attempts attempts failed =
    if lt_ℤ attempts max_attempts then pending else failed
normalize_status max_attempts attempts s = s

abbrev pub normalize_chunk : ℤ → ChunkState → ChunkState
normalize_chunk max_attempts c = record c {
  status = normalize_status max_attempts c.attempts c.status;
}

unfoldable pub normalize_for_resume : ℤ → Manifest → Manifest
normalize_for_resume max_attempts m = record m {
  chunks = map (normalize_chunk max_attempts) m.chunks;
}

-- Load, on what reading and decoding the file gave.
unfoldable pub load : Option Manifest → Option Manifest
load none = none
load (some m) = some (normalize_for_resume (pos 3) m)

unfoldable pub has_canceled : List ChunkState → Bool
has_canceled [] = false
has_canceled (c ∷ cs) = is_canceled c.status || has_canceled cs

unfoldable pub has_canceled_chunks : Manifest → Bool
unfolding has_canceled
has_canceled_chunks m = has_canceled m.chunks

-- The `switch` of ActivateResume.
abbrev pub activate_by : Status → ℤ → ChunkState → ChunkState
activate_by canceled max_attempts c = record c { status = pending }
activate_by sending max_attempts c = record c { status = pending }
activate_by pending max_attempts c = record c { status = pending }
activate_by failed max_attempts c = record c {
  status = pending;
  attempts = if le_ℤ max_attempts c.attempts then pos 0 else c.attempts;
}
activate_by _ max_attempts c = c

abbrev pub activate_chunk : ℤ → ChunkState → ChunkState
activate_chunk max_attempts c = activate_by c.status max_attempts c

unfoldable pub activate_resume : ℤ → Manifest → Manifest
activate_resume max_attempts m = record m { chunks = map (activate_chunk max_attempts) m.chunks }

abbrev pub cancel_chunk : ChunkState → ChunkState
cancel_chunk c =
    if is_pending c.status || is_sending c.status then record c { status = canceled } else c

unfoldable pub mark_canceled_pending : Manifest → Manifest
mark_canceled_pending m = record m { chunks = map cancel_chunk m.chunks }
