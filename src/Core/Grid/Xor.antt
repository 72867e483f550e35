-- ===== src/Core/Grid/Xor.antt =====
-- core/src/grid.rs: `xor_grids`, and `^=`, which calls it.
use why.Common.{
  ℕ, ◌≡◌, refl, ap, ◌∙◌, List, [], ◌∷◌, arith, length, All, IsWord, bit_xor, bit_xor-lt,
  zip_xor_cancel, zip_with, length-zip_with,
}
use why.Core.Grid.{Grid, IsGrid, to_flat, with_cells}
use why.Core.Grid.Cells.{length-to_flat, to_flat-words, with_cells_lem, to_flat-injective}
use why.Core.Grid.Lanes.{zip_lanes, zip_lanes-zip_with}

-- The exclusive or of two vectors of four cells.
xor_vector : List ℕ → List ℕ → List ℕ
xor_vector = zip_with bit_xor

pub xor_grids : ℕ → ℕ → Grid → Grid → Grid
xor_grids w h g key_grid =
    with_cells w h (λ cells. zip_lanes xor_vector bit_xor cells (to_flat key_grid)) g

All-xor : (xs ys : List ℕ) → All IsWord xs → All IsWord ys → All IsWord (zip_with bit_xor xs ys)
All-xor [] ys h k = tt
All-xor (x ∷ xs) [] h k = tt
All-xor (x ∷ xs) (y ∷ ys) h k = (bit_xor-lt 64 x y h.0 k.0, All-xor xs ys h.1 k.1)

-- On grids of one shape, the vector loop and its tail are one exclusive or, cell by cell, and keep
-- the shape.
pub xor_grids_lem :
    (w h : ℕ) (g k : Grid)
    → IsGrid w h g
    → IsGrid w h k
    → IsGrid w h (xor_grids w h g k)
      × (to_flat (xor_grids w h g k) ≡ zip_with bit_xor (to_flat g) (to_flat k))
unfolding xor_grids xor_vector
xor_grids_lem w h g k vg vk =
    let lg = length-to_flat w h g vg in
    let lk = length-to_flat w h k vk in
    let cells : zip_lanes xor_vector bit_xor (to_flat g) (to_flat k)
        ≡ zip_with bit_xor (to_flat g) (to_flat k) =
      zip_lanes-zip_with xor_vector bit_xor (to_flat g) (to_flat k) (λ l m. refl) in
    let both =
      with_cells_lem w h g vg (λ cells. zip_lanes xor_vector bit_xor cells (to_flat k))
        (ap length cells ∙ length-zip_with bit_xor (to_flat g) (to_flat k) (omega arith) ∙ lg)
        (rw cells
          (All-xor (to_flat g) (to_flat k) (to_flat-words w h g vg) (to_flat-words w h k vk))) in
    (both.0, both.1 ∙ cells)

-- A second exclusive or with the same grid undoes the first.
pub xor_grids_cancel :
    (w h : ℕ) (g k : Grid) → IsGrid w h g → IsGrid w h k → xor_grids w h (xor_grids w h g k) k ≡ g
xor_grids_cancel w h g k vg vk =
    let once = xor_grids_lem w h g k vg vk in
    let twice = xor_grids_lem w h (xor_grids w h g k) k once.0 vk in
    to_flat-injective w h (xor_grids w h (xor_grids w h g k) k) g twice.0 vg (
      twice.1
      ∙ ap (λ cells. zip_with bit_xor cells (to_flat k)) once.1
      ∙ zip_xor_cancel (to_flat g) (to_flat k)
          (omega (arith, length-to_flat w h g vg, length-to_flat w h k vk)))
