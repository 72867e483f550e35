-- ===== src/Core/Stream/Positions.antt =====
-- core/src/stream.rs: the specification of the stream. Every cell that goes through has a position,
-- counted from the start of the stream, and is masked with the keystream cell of this position.
use why.Common.{
  ℕ, suc, ◌+◌, ◌*◌, ◌/◌, ◌%◌, ◌^◌, ◌<◌, ◌≡◌, refl, sym, ap, ap₂, ◌∙◌, arith, Bool, true, List, [],
  ◌∷◌, ◌++◌, length, get_or, zip_with, bit_xor, bit_xor_cancel, bit_xor-lt, All, IsWord,
  wrapping_add, div_mod_of_join,
}
use why.Core.Grid.{Grid, IsGrid, valid_dimensions, to_flat}
use why.Core.Grid.Cells.{length-to_flat, to_flat-words}
use why.Core.Grid.Build.{get_or-IsWord}
use why.Core.Grid.Xor.{xor_grids, xor_grids_lem}
use why.Core.Crypto.Keystream.{IsSchedule}
use why.Core.Crypto.Ctr.{stream_grid, stream_grid-IsGrid, mask_from}
use why.Core.Decrypter.{flatten}

-- Cells from position `pos` on, under a keystream given by position.
unfoldable pub mask_cells : (ℕ → ℕ) → ℕ → List ℕ → List ℕ
mask_cells key pos [] = []
mask_cells key pos (x ∷ xs) = bit_xor x (key pos) ∷ mask_cells key (suc pos) xs

pub mask_at :
    (key : ℕ → ℕ) (p q : ℕ) (xs : List ℕ) → p ≡ q → mask_cells key p xs ≡ mask_cells key q xs
mask_at key p q xs e = ap (λ k. mask_cells key k xs) e

pub mask_cells-append :
    (key : ℕ → ℕ) (pos : ℕ) (xs ys : List ℕ)
    → mask_cells key pos (xs ++ ys) ≡ mask_cells key pos xs ++ mask_cells key (pos + length xs) ys
unfolding mask_cells
mask_cells-append key pos [] ys = mask_at key pos (pos + 0) ys (omega arith)
mask_cells-append key pos (x ∷ xs) ys =
    ap (λ l. bit_xor x (key pos) ∷ l)
      (mask_cells-append key (suc pos) xs ys
        ∙ ap (λ l. mask_cells key (suc pos) xs ++ l)
            (mask_at key (suc pos + length xs) (pos + suc (length xs)) ys (omega arith)))

pub length-mask_cells :
    (key : ℕ → ℕ) (pos : ℕ) (xs : List ℕ) → length (mask_cells key pos xs) ≡ length xs
unfolding mask_cells
length-mask_cells key pos [] = refl
length-mask_cells key pos (x ∷ xs) = ap suc (length-mask_cells key (suc pos) xs)

pub mask_cells-words :
    (key : ℕ → ℕ)
    → ((pos : ℕ) → IsWord (key pos))
    → (pos : ℕ) (xs : List ℕ) → All IsWord xs
    → All IsWord (mask_cells key pos xs)
unfolding mask_cells
mask_cells-words key words pos [] v = tt
mask_cells-words key words pos (x ∷ xs) v =
    (bit_xor-lt 64 x (key pos) v.0 (words pos), mask_cells-words key words (suc pos) xs v.1)

pub mask_cells_twice :
    (key : ℕ → ℕ) (pos : ℕ) (xs : List ℕ) → mask_cells key pos (mask_cells key pos xs) ≡ xs
unfolding mask_cells
mask_cells_twice key pos [] = refl
mask_cells_twice key pos (x ∷ xs) =
    ap₂ ◌∷◌ (bit_xor_cancel x (key pos)) (mask_cells_twice key (suc pos) xs)

-- A zip against a list that holds the keystream of the positions.
zip-mask_cells :
    (key : ℕ → ℕ) (pos : ℕ) (xs zs : List ℕ)
    → length xs ≡ length zs
    → ((j : ℕ) → j < length zs → get_or zs j 0 ≡ key (pos + j))
    → zip_with bit_xor xs zs ≡ mask_cells key pos xs
unfolding mask_cells
zip-mask_cells key pos [] zs e at = refl
zip-mask_cells key pos (x ∷ xs) [] e at = absurd (omega arith)
zip-mask_cells key pos (x ∷ xs) (z ∷ zs) e at =
    ap₂ ◌∷◌ (ap (bit_xor x) (at 0 (omega arith) ∙ ap key (omega arith))) (
      zip-mask_cells key (suc pos) xs zs (omega arith) (λ j p.
        at (suc j) (omega arith) ∙ ap key {x = pos + suc j} {y = suc pos + j} (omega arith)))

module _ (avx2 : Bool) (w h : ℕ) (valid : valid_dimensions w h ≡ true) (nonce : Grid)
    (keys : List Grid) (shifts : List (List ℕ)) (s : IsSchedule w h keys shifts)
    (vn : IsGrid w h nonce) where
  abbrev block : ℕ → Grid
  block counter = stream_grid avx2 w h valid nonce keys shifts s vn counter

  -- The keystream cell of a position: its grid is the keystream of the block's number, which wraps at
  -- 2 ^ 64, and it stands in this grid as far as the position is into the block.
  pub key_at : ℕ → ℕ
  key_at pos = get_or (to_flat (block (pos / (w * h) % 2 ^ 64))) (pos % (w * h)) 0

  pub key_at-IsWord : (pos : ℕ) → IsWord (key_at pos)
  unfolding key_at
  key_at-IsWord pos =
      let number : ℕ = pos / (w * h) % 2 ^ 64 in
      let shaped = stream_grid-IsGrid avx2 w h valid nonce keys shifts s vn number in
      get_or-IsWord (to_flat (block number)) (to_flat-words w h (block number) shaped)
        (pos % (w * h))

  block_lem :
      (number : ℕ) (g : Grid)
      → IsGrid w h g
      → to_flat (xor_grids w h g (block (number % 2 ^ 64)))
        ≡ mask_cells key_at (number * (w * h)) (to_flat g)
  unfolding key_at
  block_lem number g vg =
      let k = block (number % 2 ^ 64) in
      let vk = stream_grid-IsGrid avx2 w h valid nonce keys shifts s vn (number % 2 ^ 64) in
      let lg : length (to_flat g) ≡ h * w = length-to_flat w h g vg in
      let lk : length (to_flat k) ≡ h * w = length-to_flat w h k vk in
      (xor_grids_lem w h g k vg vk).1
      ∙ zip-mask_cells key_at (number * (w * h)) (to_flat g) (to_flat k) (omega arith) (λ j p.
        let parts = div_mod_of_join (w * h) number j (omega arith) in
        ap₂ (λ (b r : ℕ). get_or (to_flat (block (b % 2 ^ 64))) r 0) (sym parts.0) (sym parts.1))

  -- Counter mode over grids, seen as masking by position.
  pub flatten-mask_from :
      (number i : ℕ) (gs : List Grid)
      → All (IsGrid w h) gs
      → flatten (mask_from avx2 w h valid nonce keys shifts s vn (number % 2 ^ 64) i gs)
        ≡ mask_cells key_at ((number + i) * (w * h)) (flatten gs)
  unfolding mask_from flatten mask_cells
  flatten-mask_from number i [] vg = refl
  flatten-mask_from number i (g ∷ gs) vg =
      let counter : wrapping_add (number % 2 ^ 64) i ≡ (number + i) % 2 ^ 64 = omega arith in
      let size : length (to_flat g) ≡ h * w = length-to_flat w h g vg.0 in
      ap₂ ◌++◌
        (ap (λ c. to_flat (xor_grids w h g (block c))) counter ∙ block_lem (number + i) g vg.0)
        (flatten-mask_from number (suc i) gs vg.1
          ∙ mask_at key_at ((number + suc i) * (w * h))
              ((number + i) * (w * h) + length (to_flat g)) (flatten gs) (grind arith))
      ∙ sym (mask_cells-append key_at ((number + i) * (w * h)) (to_flat g) (flatten gs))
