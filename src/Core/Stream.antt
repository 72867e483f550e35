-- ===== src/Core/Stream.antt =====
-- core/src/stream.rs: the streamed cipher, with its state passed on from call to call. The block
-- counter is a `u64` that wraps, as in a release build. A call that fails returns no state.
pub mod Positions
pub mod Steps
pub mod Updates
pub mod Splits
pub mod Sessions
use why.Common.{
  ℕ, zero, suc, ◌+◌, ◌-◌, ◌*◌, ◌/◌, ◌%◌, ◌^◌, Bool, true, false, ◌==◌, ltb, if◌then◌else◌, some,
  List, [], ◌∷◌, ◌++◌, min, length, take, drop, wrapping_add,
}
use why.Core.Outcome.{Outcome, ok, panic, ◌>>=◌}
use why.Core.Grid.{Grid, from_flat}
use why.Core.Crypto.{Primitives, generate_round_keys, derive_round_shifts, apply_ctr_with_shifts}
use why.Core.Encrypter.{shape_grids}
use why.Core.Decrypter.{flatten}

pub record RexStream : Type 0 where
  pub round_keys : List Grid
  pub round_shifts : List (List ℕ)
  pub nonce : Grid
  pub block_counter : ℕ
  pub buffer : List ℕ

module _ (avx2 : Bool) (w h : ℕ) where
  -- `apply_ctr_with_shifts` with the stream's own schedule, at its block counter.
  pub mask : RexStream → List Grid → Outcome (List Grid)
  mask s grids =
      apply_ctr_with_shifts avx2 w h grids s.nonce s.round_keys s.round_shifts
        (some s.block_counter)

  -- The buffer is encrypted, and what is used of its grid is returned.
  pub flush : RexStream → Outcome (RexStream × List ℕ)
  flush s = do
    grid ← from_flat w h s.buffer
    grids ← mask s (grid ∷ [])
    ok (
      record {
        round_keys = s.round_keys;
        round_shifts = s.round_shifts;
        nonce = s.nonce;
        block_counter = wrapping_add s.block_counter 1;
        buffer = [];
      },
      flatten grids,
    )

  abbrev buffering : RexStream → List ℕ → RexStream
  buffering s buffer = record {
    round_keys = s.round_keys;
    round_shifts = s.round_shifts;
    nonce = s.nonce;
    block_counter = s.block_counter;
    buffer = buffer;
  }

  -- The first part of `update`: the leftovers of the call before. It returns the data left.
  pub fill_buffer : RexStream → List ℕ → Outcome (RexStream × List ℕ × List ℕ)
  fill_buffer s input =
      let grid_area : ℕ = w * h in
      let needed : ℕ = grid_area - length s.buffer in
      let taken : ℕ = min needed (length input) in
      let filled = buffering s (s.buffer ++ take taken input) in
      if length s.buffer == 0
      then ok (s, [], input)
      else if length filled.buffer == grid_area
      then (flush filled >>= λ done. ok (done.0, done.1, drop taken input))
      else ok (filled, [], drop taken input)

  -- The second part: the full grids of this call.
  pub full_grids : RexStream → List ℕ → Outcome (RexStream × List ℕ × List ℕ)
  full_grids s input =
      let grid_area : ℕ = w * h in
      let count : ℕ = length input / grid_area in
      let chunk_size : ℕ = count * grid_area in
      let next : RexStream = record {
        round_keys = s.round_keys;
        round_shifts = s.round_shifts;
        nonce = s.nonce;
        block_counter = wrapping_add s.block_counter count;
        buffer = s.buffer;
      } in
      if grid_area == 0
      then panic
      else if ltb 0 count
      then (shape_grids w h (take chunk_size input) >>= λ grids.
          mask s grids >>= λ grids. ok (next, flatten grids, drop chunk_size input))
      else ok (s, [], input)

  pub update : RexStream → List ℕ → Outcome (RexStream × List ℕ)
  update s input = do
    first ← fill_buffer s input
    second ← full_grids first.0 first.2
    ok (buffering second.0 (second.0.buffer ++ second.2), first.1 ++ second.1)

  pub finalize : RexStream → Outcome (RexStream × List ℕ)
  finalize s =
      if length s.buffer == 0
      then ok (s, [])
      else (flush s >>= λ done. ok (done.0, take (length s.buffer) done.1))

pub start : Primitives → ℕ → ℕ → Grid → Grid → Outcome RexStream
start prims w h key_grid nonce = do
  keys ← generate_round_keys prims w h key_grid
  shifts ← derive_round_shifts w keys
  ok (record {
    round_keys = keys;
    round_shifts = shifts;
    nonce = nonce;
    block_counter = 0;
    buffer = [];
  })
