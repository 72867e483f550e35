-- ===== src/Core/Crypto/Ctr.antt =====
-- core/src/crypto.rs: `apply_ctr` over a sequence of grids.
use why.Common.{
  ℕ, suc, ◌-◌, ◌≤◌, ◌<◌, ◌≡◌, refl, ap, ◌∙◌, arith, Bool, true, Option, List, [], ◌∷◌, length, leb,
  map, drop, All, length-take, length-drop, length-map, All-take, All-drop, wrapping_add,
}
use mathlib.Core.Option.{get_or}
use why.Core.Outcome.{Outcome, ok, ◌>>=◌}
use why.Core.Grid.{Grid, IsGrid, valid_dimensions}
use why.Core.Grid.Build.{width_pos}
use why.Core.Grid.Xor.{xor_grids, xor_grids_lem, xor_grids_cancel}
use why.Core.Grid.Shift.{precalculate_shifts}
use why.Core.Grid.Shift.Rotation.{precalculate_shifts-lt}
use why.Core.Crypto.{
  inner_keys, derive_round_shifts, keystream, keystream_block, each_grid, apply_ctr_with_shifts,
  apply_ctr,
}
use why.Core.Crypto.Keystream.{IsShifts, IsSchedule}
use why.Core.Crypto.Counter.{keystream_lem}

map-precalculate_shifts :
    (w h : ℕ)
    → 0 < w
    → (keys : List Grid) → All (IsGrid w h) keys
    → All (IsShifts w h) (map (precalculate_shifts w) keys)
map-precalculate_shifts w h pos [] v = tt
map-precalculate_shifts w h pos (k ∷ ks) v =
    (precalculate_shifts-lt w h k pos v.0, map-precalculate_shifts w h pos ks v.1)

module _ (avx2 : Bool) (w h : ℕ) (valid : valid_dimensions w h ≡ true) where
  -- Two keys or more give a shift for every round between the whitening keys, each in range.
  pub derive_round_shifts_lem :
      (keys : List Grid)
      → 2 ≤ length keys
      → All (IsGrid w h) keys
      → (shifts : List (List ℕ)) × (derive_round_shifts w keys ≡ ok shifts)
        × (length shifts ≡ length keys - 2)
        × IsSchedule w h keys shifts
  unfolding derive_round_shifts inner_keys
  derive_round_shifts_lem keys two v =
      let shifts = map (precalculate_shifts w) (inner_keys keys) in
      let count : length shifts ≡ length keys - 2 = omega (
        arith,
        length-map (precalculate_shifts w) (inner_keys keys),
        length-take (length keys - 2) (drop 1 keys),
        length-drop 1 keys,
      ) in
      let inner =
        All-take (IsGrid w h) (length keys - 2) (drop 1 keys) (All-drop (IsGrid w h) 1 keys v) in
      let test : leb 2 (length keys) ≡ true = ground arith in
      (
        shifts,
        rw test refl,
        count,
        record {
          whitened = two;
          grids = v;
          enough = omega arith;
          in_range = map-precalculate_shifts w h (width_pos w h valid) (inner_keys keys) inner;
        },
      )

  module _ (nonce : Grid) (keys : List Grid) (shifts : List (List ℕ))
      (s : IsSchedule w h keys shifts) (vn : IsGrid w h nonce) where
    -- The keystream grid of a counter, which is there by `keystream_lem`.
    pub stream_grid : ℕ → Grid
    stream_grid counter = (keystream_lem avx2 w h valid nonce keys shifts counter s vn).0

    -- The specification of counter mode: grid `i` is masked with the keystream of `offset + i`.
    unfoldable pub mask_from : ℕ → ℕ → List Grid → List Grid
    mask_from offset i [] = []
    mask_from offset i (g ∷ gs) =
        xor_grids w h g (stream_grid (wrapping_add offset i)) ∷ mask_from offset (suc i) gs

    pub stream_grid-IsGrid : (counter : ℕ) → IsGrid w h (stream_grid counter)
    unfolding stream_grid
    stream_grid-IsGrid counter = (keystream_lem avx2 w h valid nonce keys shifts counter s vn).2

    stream_grid_lem :
        (counter : ℕ) → keystream avx2 w h nonce keys shifts counter ≡ ok (stream_grid counter)
    unfolding stream_grid
    stream_grid_lem counter = (keystream_lem avx2 w h valid nonce keys shifts counter s vn).1

    mask_from-IsGrid :
        (offset i : ℕ) (gs : List Grid)
        → All (IsGrid w h) gs
        → All (IsGrid w h) (mask_from offset i gs)
    unfolding mask_from
    mask_from-IsGrid offset i [] v = tt
    mask_from-IsGrid offset i (g ∷ gs) v = (
      (xor_grids_lem w h g (stream_grid (wrapping_add offset i)) v.0
          (stream_grid-IsGrid (wrapping_add offset i))).0,
      mask_from-IsGrid offset (suc i) gs v.1,
    )

    length-mask_from : (offset i : ℕ) (gs : List Grid) → length (mask_from offset i gs) ≡ length gs
    unfolding mask_from
    length-mask_from offset i [] = refl
    length-mask_from offset i (g ∷ gs) = ap suc (length-mask_from offset (suc i) gs)

    mask_from_twice :
        (offset i : ℕ) (gs : List Grid)
        → All (IsGrid w h) gs
        → mask_from offset i (mask_from offset i gs) ≡ gs
    unfolding mask_from
    mask_from_twice offset i [] v = refl
    mask_from_twice offset i (g ∷ gs) v =
        let counter = wrapping_add offset i in
        rw (xor_grids_cancel w h g (stream_grid counter) v.0 (stream_grid-IsGrid counter))
          (ap (λ l. g ∷ l) (mask_from_twice offset (suc i) gs v.1))

    each_grid_lem :
        (offset i : ℕ) (gs : List Grid)
        → each_grid avx2 w h nonce keys shifts offset i gs ≡ ok (mask_from offset i gs)
    unfolding each_grid mask_from keystream_block
    each_grid_lem offset i [] = refl
    each_grid_lem offset i (g ∷ gs) =
        rw (stream_grid_lem (wrapping_add offset i), each_grid_lem offset (suc i) gs) refl

    -- Counter mode over any number of grids does not panic, and masks grid `i` with the keystream
    -- block of the counter `offset + i`, wrapped to 64 bits; the offset is 0 when there is none.
    pub apply_ctr_with_shifts_lem :
        (gs : List Grid) (offset : Option ℕ)
        → apply_ctr_with_shifts avx2 w h gs nonce keys shifts offset
          ≡ ok (mask_from (get_or offset 0) 0 gs)
    unfolding apply_ctr_with_shifts
    apply_ctr_with_shifts_lem gs offset =
        let two : leb 2 (length keys) ≡ true = ground (arith, s.whitened) in
        let enough : leb (length keys - 2) (length shifts) ≡ true = ground (arith, s.enough) in
        rw (two, enough) (each_grid_lem (get_or offset 0) 0 gs)

  -- Counter mode undoes itself: for valid dimensions, at least two round keys, and a nonce, keys
  -- and grids of these dimensions, the call does not panic, it keeps the shape of every grid and
  -- their number, and a second call with the same nonce, keys and offset gives the first grids
  -- back.
  pub apply_ctr_twice :
      (nonce : Grid) (keys : List Grid) (gs : List Grid) (offset : Option ℕ)
      → 2 ≤ length keys
      → All (IsGrid w h) keys
      → IsGrid w h nonce
      → All (IsGrid w h) gs
      → (out : List Grid) × (apply_ctr avx2 w h gs nonce keys offset ≡ ok out)
        × All (IsGrid w h) out
        × (length out ≡ length gs)
        × (apply_ctr avx2 w h out nonce keys offset ≡ ok gs)
  unfolding apply_ctr
  apply_ctr_twice nonce keys gs offset two vk vn vg =
      let (shifts, derived, count, s) = derive_round_shifts_lem keys two vk in
      let start : ℕ = get_or offset 0 in
      let out = mask_from nonce keys shifts s vn start 0 gs in
      let call = λ (l : List Grid) (o : Outcome (List (List ℕ))).
        o >>= λ shifts. apply_ctr_with_shifts avx2 w h l nonce keys shifts offset in
      (
        out,
        ap (call gs) derived ∙ apply_ctr_with_shifts_lem nonce keys shifts s vn gs offset,
        mask_from-IsGrid nonce keys shifts s vn start 0 gs vg,
        length-mask_from nonce keys shifts s vn start 0 gs,
        ap (call out) derived
            ∙ apply_ctr_with_shifts_lem nonce keys shifts s vn out offset
            ∙ ap ok (mask_from_twice nonce keys shifts s vn start 0 gs vg),
      )
