-- ===== src/Core/Stream/Sessions.antt =====
-- core/src/stream.rs: streams from `new` on, and a stream beside the one-shot counter mode.
use why.Common.{
  ℕ, ◌+◌, ◌*◌, ◌^◌, ◌<◌, ◌≡◌, refl, sym, ap, ◌∙◌, arith, Bool, true, none, List, [], ◌∷◌, ◌++◌,
  length, take, replicate, concat, All, IsWord, All-append, take-append,
}
use why.Core.Outcome.{ok, ok-injective}
use why.Core.Grid.{Grid, IsGrid, valid_dimensions}
use why.Core.Crypto.{Primitives, apply_ctr_with_shifts}
use why.Core.Crypto.Keystream.{IsSchedule}
use why.Core.Crypto.Ctr.{apply_ctr_with_shifts_lem, derive_round_shifts_lem, mask_from}
use why.Core.Crypto.Schedule.{generate_round_keys_lem}
use why.Core.Encrypter.{shape_grids}
use why.Core.Encrypter.Shaping.{shape_grids_lem}
use why.Core.Decrypter.{flatten}
use why.Core.Stream.{RexStream, start}
use why.Core.Stream.Positions.{
  mask_cells, mask_at, mask_cells-append, mask_cells_twice, length-mask_cells, mask_cells-words,
  key_at, key_at-IsWord, flatten-mask_from,
}
use why.Core.Stream.Steps.{state_at}
use why.Core.Stream.Splits.{process, process_lem}

concat-All : (parts : List (List ℕ)) → All (All IsWord) parts → All IsWord (concat parts)
concat-All [] v = tt
concat-All (part ∷ parts) v = All-append IsWord part (concat parts) v.0 (concat-All parts v.1)

module _ (avx2 : Bool) (w h : ℕ) (valid : valid_dimensions w h ≡ true) where
  pub start_lem :
      (prims : Primitives) (master nonce : Grid)
      → h * w < 2 ^ 64
      → (vn : IsGrid w h nonce)
      → (keys : List Grid) × (shifts : List (List ℕ)) × (s : IsSchedule w h keys shifts) × (start
            prims w h master nonce
          ≡ ok (state_at avx2 w h valid nonce keys shifts s vn 0 []))
  unfolding start state_at
  start_lem prims master nonce fits vn =
      let (keys, expanded, count, vk) = generate_round_keys_lem prims w h master valid fits in
      let (shifts, derived, size, s) =
        derive_round_shifts_lem avx2 w h valid keys (omega arith) vk in
      (keys, shifts, s, rw (expanded, derived) refl)

  -- For valid dimensions with fewer than 2 ^ 64 cells and a nonce of these dimensions, a new
  -- stream takes any parts of 64-bit cells: nothing fails or panics, and as many 64-bit cells come
  -- out as went in.
  pub process-start :
      (prims : Primitives) (master nonce : Grid) (parts : List (List ℕ))
      → h * w < 2 ^ 64
      → IsGrid w h nonce
      → All (All IsWord) parts
      → (st last : RexStream) × (out : List ℕ) × (start prims w h master nonce ≡ ok st)
        × (process avx2 w h parts st ≡ ok (last, out))
        × (length out ≡ length (concat parts))
        × All IsWord out
  process-start prims master nonce parts fits vn vp =
      let (keys, shifts, s, started) = start_lem prims master nonce fits vn in
      let key = key_at avx2 w h valid nonce keys shifts s vn in
      let (last, done) = process_lem avx2 w h valid nonce keys shifts s vn parts vp in
      (
        state_at avx2 w h valid nonce keys shifts s vn 0 [],
        state_at avx2 w h valid nonce keys shifts s vn last [],
        mask_cells key 0 (concat parts),
        started,
        done,
        length-mask_cells key 0 (concat parts),
        mask_cells-words key (key_at-IsWord avx2 w h valid nonce keys shifts s vn) 0 (concat parts)
            (concat-All parts vp),
      )

  -- For valid dimensions with fewer than 2 ^ 64 cells and a nonce of these dimensions: where a new
  -- stream gives an output for some parts of 64-bit cells, a second new stream with the same key
  -- and nonce gives the cells back from this output, however it is split into parts of 64-bit
  -- cells.
  pub process_twice :
      (prims : Primitives) (master nonce : Grid) (parts parts' : List (List ℕ))
      (st last : RexStream) (out : List ℕ)
      → h * w < 2 ^ 64
      → IsGrid w h nonce
      → All (All IsWord) parts
      → All (All IsWord) parts'
      → start prims w h master nonce ≡ ok st
      → process avx2 w h parts st ≡ ok (last, out)
      → concat parts' ≡ out
      → (last' : RexStream) × (process avx2 w h parts' st ≡ ok (last', concat parts))
  process_twice prims master nonce parts parts' st last out fits vn vp vp' begun first same =
      let (keys, shifts, s, started) = start_lem prims master nonce fits vn in
      let key = key_at avx2 w h valid nonce keys shifts s vn in
      let (end, done) = process_lem avx2 w h valid nonce keys shifts s vn parts vp in
      let (last', back) = process_lem avx2 w h valid nonce keys shifts s vn parts' vp' in
      let begins = ok-injective (sym begun ∙ started) in
      let result = ok-injective (sym first ∙ ap (process avx2 w h parts) begins ∙ done) in
      (
        state_at avx2 w h valid nonce keys shifts s vn last' [],
        ap (process avx2 w h parts') begins
            ∙ back
            ∙ ap (λ l. ok (state_at avx2 w h valid nonce keys shifts s vn last' [], l))
                (ap (mask_cells key 0) (same ∙ ap (λ p. p.1) result)
                  ∙ mask_cells_twice key 0 (concat parts)),
      )

  -- For valid dimensions, a nonce of these dimensions and a full schedule, a stream that starts at
  -- block 0 gives for 64-bit cells the cells that counter mode gives for all of them at once,
  -- without those that only fill the last grid.
  pub process-apply_ctr_with_shifts :
      (nonce : Grid) (keys : List Grid) (shifts : List (List ℕ)) (s : IsSchedule w h keys shifts)
      (vn : IsGrid w h nonce) (parts : List (List ℕ)) (input : List ℕ)
      → All (All IsWord) parts
      → All IsWord input
      → concat parts ≡ input
      → (grids out : List Grid) × (last : RexStream) × (shape_grids w h input ≡ ok grids)
        × (apply_ctr_with_shifts avx2 w h grids nonce keys shifts none ≡ ok out)
        × (process avx2 w h parts (record {
          round_keys = keys;
          round_shifts = shifts;
          nonce = nonce;
          block_counter = 0;
          buffer = [];
        })
            ≡ ok (last, take (length input) (flatten out)))
  unfolding state_at
  process-apply_ctr_with_shifts nonce keys shifts s vn parts input vp vi e =
      let key = key_at avx2 w h valid nonce keys shifts s vn in
      let (grids, pad, shaped, vg, small, whole, flat) = shape_grids_lem w h valid input vi in
      let (last, done) = process_lem avx2 w h valid nonce keys shifts s vn parts vp in
      let zeros : List ℕ = replicate pad 0 in
      let out = mask_from avx2 w h valid nonce keys shifts s vn 0 0 grids in
      let cells : flatten out ≡ mask_cells key 0 input ++ mask_cells key (0 + length input) zeros =
        flatten-mask_from avx2 w h valid nonce keys shifts s vn 0 0 grids vg
        ∙ mask_at key ((0 + 0) * (w * h)) 0 (flatten grids) (omega arith)
        ∙ ap (mask_cells key 0) flat
        ∙ mask_cells-append key 0 input zeros in
      (
        grids,
        out,
        state_at avx2 w h valid nonce keys shifts s vn last [],
        shaped,
        apply_ctr_with_shifts_lem avx2 w h valid nonce keys shifts s vn grids none,
        done
            ∙ ap (λ l. ok (state_at avx2 w h valid nonce keys shifts s vn last [], l))
                (ap (mask_cells key 0) e
                  ∙ sym (
                      ap (take (length input)) cells
                      ∙ take-append (length input) (mask_cells key 0 input)
                          (mask_cells key (0 + length input) zeros)
                          (length-mask_cells key 0 input))),
      )
