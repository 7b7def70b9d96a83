-- ===== src/Workers.antt =====
-- What the downloader and the sender share: workers that take chunks of one manifest, one step at a
-- time, in any order. `Crew` is what this library asks of a worker; `Move` is what a step may do.
pub mod Held
pub mod Safe
pub mod Ends
pub mod Layout
use multi_send.Base.{
  ℕ, zero, suc, ◌≡◌, Bool, true, false, ◌&&◌, ◌||◌, List, [], ◌∷◌, String, map, select, ◌⊎◌,
}
use multi_send.Base.Int.{ℤ, lt_ℤ}
use multi_send.Manifest.{
  ChunkState, Status, is_done, is_failed, is_pending, update_chunk, as_sending,
}
use multi_send.Manifest.Trace.{place}

pub record Crew (W : Type 0) : Type 0 where
  -- The worker works on the chunk with the index.
  pub held_by : W → ℤ → Bool
  pub is_stopped : W → Bool
  -- After so many failures a chunk is given up.
  pub max_attempts : ℤ
  pub stopped_free : (w : W) (i : ℤ) → is_stopped w ≡ true → held_by w i ≡ false

abbrev pub is_open : ℤ → ChunkState → Bool
is_open max_attempts c = is_pending c.status || (is_failed c.status && lt_ℤ c.attempts max_attempts)

-- What a chunk becomes after its transfer: done, or failed, and then perhaps pending again.
pub record IsLanding (c c' : ChunkState) : Type 0 where
  pub same_place : place c' ≡ place c
  pub outcome :
      (is_done c'.status ≡ true) ⊎ ((is_failed c'.status ≡ true) ⊎ (is_pending c'.status ≡ true))

-- A chunk is left alone, or is pending again.
pub record IsLoosened (c c' : ChunkState) : Type 0 where
  pub same_place : place c' ≡ place c
  pub outcome : (c'.status ≡ c.status) ⊎ (is_pending c'.status ≡ true)

module _ {W : Type 0} (crew : Crew W) where
  open crew use {held_by, is_stopped, max_attempts}

  -- A worker between chunks, that has not stopped.
  abbrev pub IsFree : W → Type 0
  IsFree w = ((i : ℤ) → held_by w i ≡ false) × (is_stopped w ≡ false)

  -- The moves of a worker w, to w', and of the chunks, from cs to cs'.
  pub data Move (cs : List ChunkState) (w : W) (cs' : List ChunkState) (w' : W) : Type 0 where
    -- Nothing happens to the chunks, and the worker does not stop.
    idle : IsFree w → IsFree w' → cs' ≡ cs → Move cs w cs' w'
    -- The worker stops, since no chunk is open.
    quit :
        ((i : ℤ) → held_by w i ≡ false)
        → ((i : ℤ) → held_by w' i ≡ false)
        → select (is_open max_attempts) cs' ≡ []
        → cs' ≡ cs
        → Move cs w cs' w'
    -- The worker goes on with what it holds, or rests.
    rest :
        ((i : ℤ) → held_by w' i ≡ held_by w i)
        → is_stopped w' ≡ is_stopped w
        → cs' ≡ cs
        → Move cs w cs' w'
    -- Chunks in flight may become pending again.
    loosen :
        (f : ChunkState → ChunkState)
        → IsFree w
        → IsFree w'
        → ((c : ChunkState) → IsLoosened c (f c))
        → cs' ≡ map f cs
        → Move cs w cs' w'
    -- The worker marks a chunk and holds it.
    take :
        (now : ℕ) (channel : String) (i : ℤ)
        → IsFree w
        → cs' ≡ update_chunk i (as_sending now channel) cs
        → held_by w' i ≡ true
        → is_stopped w' ≡ false
        → Move cs w cs' w'
    -- The transfer of the chunk that the worker holds has ended.
    land :
        (i : ℤ) (f : ChunkState → ChunkState)
        → ((j : ℤ) → held_by w j ≡ true → i ≡ j)
        → IsFree w'
        → ((c : ChunkState) → IsLanding c (f c))
        → cs' ≡ update_chunk i f cs
        → Move cs w cs' w'

  unfoldable pub held : List W → ℤ → Bool
  held [] i = false
  held (w ∷ ws) i = held_by w i || held ws i

  unfoldable pub all_stopped : List W → Bool
  all_stopped [] = true
  all_stopped (w ∷ ws) = is_stopped w && all_stopped ws

-- Workers that share a state R: the i-th makes its next step.
module _ {Input R W : Type 0} (advance : Input → R → W → R × W) where
  unfoldable pub step : ℕ → Input → R × List W → R × List W
  step i inp (r, []) = (r, [])
  step zero inp (r, w ∷ ws) = let (r', w') = advance inp r w in (r', w' ∷ ws)
  step (suc i) inp (r, w ∷ ws) = let (r', ws') = step i inp (r, ws) in (r', w ∷ ws')

  unfoldable pub interleave : List (ℕ × Input) → R × List W → R × List W
  unfolding step
  interleave [] s = s
  interleave ((i, inp) ∷ steps) s = interleave steps (step i inp s)
