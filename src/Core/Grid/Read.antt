-- ===== src/Core/Grid/Read.antt =====
-- core/src/grid.rs: `from_bytes` gives back the grids whose bytes it reads.
use why.Common.{
  ℕ, zero, suc, ◌+◌, ◌-◌, ◌*◌, ◌/◌, ◌%◌, ◌≤◌, ◌<◌, ◌≡◌, ◌≢◌, refl, sym, ap, ap₂, ◌∙◌, true, false,
  List, [], ◌∷◌, ◌++◌, map, arith, length, get_or, take, drop, All, IsWord, append-nil, take_all,
  ◌==◌, ==_iff, from_be_bytes, from_be_bytes-to_be_bytes, div_mod_of_join,
}
use why.Core.Outcome.{ok, err, ◌>>=◌, collect, invalid_byte_length}
use why.Core.Grid.{
  Grid, IsGrid, valid_dimensions, set_cell, fill, chunks, read_row, read_rows, read_chunk,
  from_bytes, to_flat,
}
use why.Core.Grid.Fill.{tabulate}
use why.Core.Grid.Cells.{length-to_flat, to_flat-words, to_flat-injective}
use why.Core.Grid.Build.{
  width_pos, area_pos, new_lem, fill-new, tabulate-get_or, get_or-IsWord, zeros, zeros_eq,
}
use why.Core.Grid.Bytes.{
  grid_bytes, grids_bytes, grid_bytes-to_flat, length-grids_bytes, chunks-grids_bytes, word_at,
}

module _ (w : ℕ) (pos : 0 < w) (chunk : List ℕ) where
  abbrev cell_at : ℕ → ℕ
  cell_at i = from_be_bytes (take 8 (drop (i * 8) chunk))

  -- The nested loops write the cells in the order of one loop over the slice.
  read_row-fill :
      (n j i : ℕ) (rows : List (List ℕ))
      → i + n ≤ w
      → read_row w chunk n j i rows ≡ fill w n (j * w + i) cell_at rows
  unfolding read_row fill
  read_row-fill zero j i rows p = refl
  read_row-fill (suc n) j i rows p =
      let place = div_mod_of_join w j i (omega arith) in
      read_row-fill n j (suc i) (set_cell rows j i (cell_at (j * w + i))) (omega arith)
      ∙ ap₂ (λ k rs. fill w n k cell_at rs) {x = j * w + suc i} {y = suc (j * w + i)} (omega arith)
          (ap₂ (λ y x. set_cell rows y x (cell_at (j * w + i))) (sym place.0) (sym place.1))

  fill-add :
      (n m i : ℕ) (rows : List (List ℕ))
      → fill w (n + m) i cell_at rows ≡ fill w m (i + n) cell_at (fill w n i cell_at rows)
  unfolding fill
  fill-add zero m i rows =
      ap (λ k. fill w k i cell_at rows) {x = 0 + m} {y = m} (omega arith)
      ∙ ap (λ k. fill w m k cell_at rows) {x = i} {y = i + 0} (omega arith)
  fill-add (suc n) m i rows =
      ap (λ k. fill w k i cell_at rows) {x = suc n + m} {y = suc (n + m)} (omega arith)
      ∙ fill-add n m (suc i) (set_cell rows (i / w) (i % w) (cell_at i))
      ∙ ap
          (λ k.
            fill w m k cell_at
              (fill w n (suc i) cell_at (set_cell rows (i / w) (i % w) (cell_at i))))
          {x = suc i + n} {y = i + suc n} (omega arith)

  read_rows-fill :
      (n j : ℕ) (rows : List (List ℕ))
      → read_rows w chunk n j rows ≡ fill w (n * w) (j * w) cell_at rows
  unfolding read_rows fill
  read_rows-fill zero j rows =
      ap (λ k. fill w k (j * w) cell_at rows) {x = 0} {y = 0 * w} (omega arith)
  read_rows-fill (suc n) j rows =
      read_rows-fill n (suc j) (read_row w chunk w j 0 rows)
      ∙ ap₂ (λ k rs. fill w (n * w) k cell_at rs) {x = suc j * w} {y = j * w + w} (omega arith)
          (read_row-fill w j 0 rows (omega arith)
            ∙ ap (λ k. fill w w k cell_at rows) {x = j * w + 0} {y = j * w} (omega arith))
      ∙ sym (fill-add w (n * w) (j * w) rows)
      ∙ ap (λ k. fill w k (j * w) cell_at rows) {x = w + n * w} {y = suc n * w} (omega arith)

tabulate-congr :
    (n i : ℕ) (f g : ℕ → ℕ)
    → ((k : ℕ) → i ≤ k → k < i + n → f k ≡ g k)
    → tabulate n i f ≡ tabulate n i g
unfolding tabulate
tabulate-congr zero i f g h = refl
tabulate-congr (suc n) i f g h =
    ap₂ ◌∷◌ (h i (omega arith) (omega arith))
      (tabulate-congr n (suc i) f g (λ k p q. h k (omega arith) (omega arith)))

get_or-All : (P : ℕ → Type 0) (xs : List ℕ) (i : ℕ) → All P xs → i < length xs → P (get_or xs i 0)
get_or-All P [] i h p = absurd (omega arith)
get_or-All P (x ∷ xs) zero h p = h.0
get_or-All P (x ∷ xs) (suc i) h p = get_or-All P xs i h.1 (omega arith)

module _ (w h : ℕ) (valid : valid_dimensions w h ≡ true) where
  -- The cells that a chunk of a grid's bytes holds are the grid's.
  cell_at-to_flat :
      (g : Grid)
      → IsGrid w h g
      → (i : ℕ) → i < h * w
      → cell_at w (width_pos w h valid) (grid_bytes g) i ≡ get_or (to_flat g) i 0
  cell_at-to_flat g shaped i p =
      let inside : i < length (to_flat g) = omega (arith, length-to_flat w h g shaped) in
      ap (λ bs. from_be_bytes (take 8 (drop (i * 8) bs))) (grid_bytes-to_flat g)
      ∙ ap from_be_bytes (word_at (to_flat g) i inside)
      ∙ from_be_bytes-to_be_bytes (get_or (to_flat g) i 0)
          (get_or-All IsWord (to_flat g) i (to_flat-words w h g shaped) inside)

  read_chunk-grid_bytes : (g : Grid) → IsGrid w h g → read_chunk w h (grid_bytes g) ≡ ok g
  unfolding read_chunk
  read_chunk-grid_bytes g shaped =
      let pos = width_pos w h valid in
      let value = cell_at w pos (grid_bytes g) in
      let same = cell_at-to_flat g shaped in
      let words : (i : ℕ) → i < h * w → IsWord (value i) =
        λ i p. rw (same i p) (get_or-IsWord (to_flat g) (to_flat-words w h g shaped) i) in
      let built = fill-new w h valid (h * w) value words (omega arith) in
      let rows : read_rows w (grid_bytes g) h 0 (zeros w h) ≡ fill w (h * w) 0 value (zeros w h) =
        read_rows-fill w pos (grid_bytes g) h 0 (zeros w h)
        ∙ ap (λ k. fill w (h * w) k value (zeros w h)) {x = 0 * w} {y = 0} (omega arith) in
      let cells : to_flat (record { rows = fill w (h * w) 0 value (zeros w h) }) ≡ to_flat g =
        built.1
        ∙ ap₂ ◌++◌
            (tabulate-congr (h * w) 0 value (λ i. get_or (to_flat g) i 0)
                (λ k p q. same k (omega arith))
              ∙ tabulate-get_or (h * w) (to_flat g) (omega (arith, length-to_flat w h g shaped))
              ∙ take_all (h * w) (to_flat g) (omega (arith, length-to_flat w h g shaped)))
            (zeros_eq (h * w - h * w) 0 (omega arith))
        ∙ append-nil (to_flat g) in
      ap (λ o. o >>= λ grid. ok (record { rows = read_rows w (grid_bytes g) h 0 grid.rows }))
        (new_lem w h valid).0
      ∙ ap (λ rs. ok (record { rows = rs })) rows
      ∙ ap ok (
          to_flat-injective w h (record { rows = fill w (h * w) 0 value (zeros w h) }) g built.0
            shaped cells)

  collect-read_chunk :
      (gs : List Grid) → All (IsGrid w h) gs → collect (read_chunk w h) (map grid_bytes gs) ≡ ok gs
  unfolding collect
  collect-read_chunk [] s = refl
  collect-read_chunk (g ∷ gs) s = rw (read_chunk-grid_bytes g s.0) (rw (collect-read_chunk gs s.1))

  -- For valid dimensions, reading the bytes of whole grids gives those grids back, in their order.
  pub from_bytes-grids_bytes :
      (gs : List Grid) → All (IsGrid w h) gs → from_bytes w h (grids_bytes gs) ≡ ok gs
  unfolding from_bytes
  from_bytes-grids_bytes gs s =
      let m : ℕ = w * h * 8 in
      let pos : 0 < m = omega (arith, area_pos w h valid) in
      let len = length-grids_bytes w h gs s in
      let parts = div_mod_of_join m (length gs) 0 pos in
      let exact : length (grids_bytes gs) ≡ length gs * m + 0 = omega (arith, len) in
      let some_size : (m == 0) ≡ false = ground arith in
      let whole : (length (grids_bytes gs) % m == 0) ≡ true =
        (==_iff (length (grids_bytes gs) % m) 0).1 (ap (λ n. n % m) exact ∙ parts.1) in
      rw (some_size, whole)
        (ap (λ k. collect (read_chunk w h) (chunks k m (grids_bytes gs)))
            (ap (λ n. n / m) exact ∙ parts.0)
          ∙ ap (collect (read_chunk w h)) (chunks-grids_bytes w h gs s)
          ∙ collect-read_chunk gs s)

-- A length that is not a whole number of grids is refused.
pub from_bytes-length :
    (w h : ℕ) (bytes : List ℕ)
    → 0 < w * h
    → length bytes % (w * h * 8) ≢ 0
    → from_bytes w h bytes ≡ err (invalid_byte_length (w * h * 8) (length bytes))
unfolding from_bytes
from_bytes-length w h bytes pos ne = ground arith
