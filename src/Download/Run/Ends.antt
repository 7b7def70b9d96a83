-- ===== src/Download/Run/Ends.antt =====
-- How a run that is not canceled ends: no chunk is lost between its workers.
use multi_send.Base.{inr, ◌⊎◌, inl, ℕ, ◌≡◌, true, false, List, All, map}
use multi_send.Base.Float.{FloatOps}
use multi_send.Manifest.{ChunkState}
use multi_send.Manifest.Distinct.{Distinct}
use multi_send.Manifest.Trace.{place}
use multi_send.Workers.{all_stopped, interleave}
use multi_send.Workers.Ends.{IsResting, IsOver}
use multi_send.Workers.Ends
use multi_send.Workers.Layout
use multi_send.Download.{max_chunk_attempts}
use multi_send.Download.Run.{Input, Worker, Run}
use multi_send.Download.Run.Steps.{advance}
use multi_send.Download.Run.Refine.{crew, advance-Move}

abbrev Calm : Input → Type 0
Calm inp = inp.canceled ≡ false

-- No step of a download fails for all.
abbrev Never : {A : Type 0} → A → Type 0
Never a = true ≡ false

sure : {A : Type 0} → A ⊎ (true ≡ false) → A
sure (inl a) = a
sure (inr e) = absurd (cc)

module _ (fl : FloatOps) where
  abbrev chunks_of : Run fl → List ChunkState
  chunks_of r = r.st.mf.chunks

  never : (inp : Input) (r : Run fl) (w : Worker) → Never r → Never (advance fl inp r w).0
  never inp r w e = e

  -- A run that is not canceled loses no chunk, and moves none in the file. Its workers start with no
  -- chunk in hand, on chunks with distinct indices that are pending, failed or done, and not all of
  -- them have stopped. In whatever order they make their steps, the chunks keep their indices, offsets
  -- and sizes, and when all have stopped every chunk is done or has failed 8 times.
  pub interleave-IsOver :
      (steps : List (ℕ × Input)) (r : Run fl) (ws : List Worker)
      → All (λ s. s.1.canceled ≡ false) steps
      → Distinct r.st.mf.chunks
      → All IsResting r.st.mf.chunks
      → all_stopped crew ws ≡ false
      → all_stopped crew (interleave (advance fl) steps (r, ws)).1 ≡ true
      → (map place (interleave (advance fl) steps (r, ws)).0.st.mf.chunks
          ≡ map place r.st.mf.chunks)
        × All (IsOver max_chunk_attempts) (interleave (advance fl) steps (r, ws)).0.st.mf.chunks
  interleave-IsOver steps r ws calm d h go stop = (
    sure (
        Layout.interleave-place crew chunks_of (advance fl) Calm Never never
          (λ inp r w c. inl (advance-Move fl inp r w c)) steps r ws calm),
    sure (
        Ends.interleave-IsOver crew chunks_of (advance fl) Calm Never never
          (λ inp r w c. inl (advance-Move fl inp r w c)) steps r ws calm d h go stop),
  )
