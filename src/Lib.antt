-- ===== src/Lib.antt =====
-- Verification library of MultiSend, which cuts a file into chunks and sends or downloads them over
-- several network interfaces at once.
--
-- The parts. A sender (internal/transfer) cuts a file by a plan of chunks (internal/chunk) and keeps
-- their states in a manifest (internal/manifest) that survives a restart. Its workers ask the scheduler
-- (internal/scheduler) for a chunk and a channel, and send each chunk in a connection of its own, led by
-- a signed header (internal/proto). The download manager (internal/download) fetches chunks from a web
-- server in the same way. The receiver (cmd/multisend-agent) checks each header, stores the chunk as a
-- file of its own, acknowledges it, and merges the files when no more chunks come. The ports come from
-- internal/ports, the settings from internal/config.
--
-- The files, and the code that they model:
--   Base and below      helpers: int64 with its wrap-around, Go strings as bytes, Go maps, sorting,
--                       Atoi and Split; float64 as a record of operations (Base/Float)
--   Chunk, Split        internal/chunk/chunk.go (BuildPlan), internal/split/split.go (ComputeParts)
--   Manifest            internal/manifest/manifest.go: one function per method on a Manifest
--   Scheduler           internal/scheduler/scheduler.go: NextChunk, ReportSuccess, ReportFailure
--   Proto               internal/proto/proto.go: ValidateHeader, SignHeader, VerifyHeader, the frames
--   Workers             several goroutines that take chunks from one manifest: what the sender's and the
--                       downloader's have in common, and an interleaving of their steps
--   Transfer            internal/transfer/sender.go: loadOrCreateManifest and the channels; Send and
--                       Send/Steps have the workers of SendFileSplitWithResultCtx, Attempt has
--                       sendChunkCtx, and Progress the counters of progressReader
--   Download            internal/download/manager.go: State has a job and its statistics, Run and
--                       Run/Steps the workers of run, Jobs has Resume, Cancel and the end of a run
--   Ports, Config       internal/ports/ports.go, internal/config/config.go (Legacy: migrateLegacyConfig)
--   Interfaces          internal/ifmonitor/ifmonitor.go: DetectUsableInterfaces
--   Receiver            cmd/multisend-agent/receiver.go: Chunks has handleConn from the checked header
--                       on, Connections its steps, interleaved with those of other connections, and
--                       Finalize finalizeReceiverSession
--   Tests               the theorems at concrete inputs
--
-- How state and concurrency are written. A method on a pointer is a function to the new record. What a
-- goroutine does under its mutex at once is one step of a worker (`advance`); the place in its loop where
-- it stands between two steps is a constructor of Worker. An interleaving is a list of pairs of a
-- worker's number and the input of its step, with no bound on its length. The input of
-- a step holds what the outside world answers: the clock, whether the context is canceled, the results
-- of the network and of the file system. Of the receiver's connections it is a list of their numbers, and
-- an Arrival holds the answers to both steps of one.
--
-- Bounds. int and int64 are integers with the wrap-around at 64 bits (add64, sub64, mul64). BuildPlan's
-- loop, and the loops over ports, run on rounds; how many are enough is said below.
-- Times are nanoseconds since an instant, as natural numbers, and 0 is the zero time.
--
-- Not modelled. float64, JSON and HMAC-SHA256 are parameters. Files, sockets, processes and the clock are
-- inputs. TrimSpace, ToLower and EqualFold know ASCII only. sort.Slice is a stable sort here. Percent
-- of a manifest and the rates of the sender's progress reports are float64 only. SaveAtomic's
-- writing and renaming is one input: whether it failed.
-- The agent's HTTP interface, its jobs, its history and its self tests, the discovery of peers, the
-- inspection of network interfaces and the command line tools are not modelled: they call the parts
-- above, and the operating system. Of the receiver, the checks of paths are one input (accepts_paths,
-- path_allowed), unpacking a zip file is one too, and finalizeReceiverSession is one step, made
-- when no connection is open. Of the download manager, the preparation, the cleanup and the names of its files are not modelled.
pub mod Base
pub mod Split
pub mod Chunk
pub mod Manifest
pub mod Scheduler
pub mod Proto
pub mod Ports
pub mod Config
pub mod Receiver
pub mod Interfaces
pub mod Workers
pub mod Transfer
pub mod Download
mod Tests
