-- ===== src/Core/Grid/Bytes.antt =====
-- core/src/grid.rs: `from_bytes` reads back the big-endian bytes in which core/src/auth.rs and
-- core/src/crypto.rs write the cells of a grid.
use why.Common.{
  ℕ, zero, suc, ◌+◌, ◌*◌, ◌<◌, ◌≡◌, refl, sym, ap, ap₂, ◌∙◌, List, [], ◌∷◌, ◌++◌, map, arith,
  length, get_or, take, drop, concat, All, append_assoc, length-append, take-append, drop-append,
  drop_past, to_be_bytes, length-to_be_bytes,
}
use why.Core.Grid.{Grid, IsGrid, chunks, to_flat}
use why.Core.Grid.Cells.{length-to_flat}

-- `for val in row { bytes.extend_from_slice(&val.to_be_bytes()) }`
unfoldable pub words_bytes : List ℕ → List ℕ
words_bytes [] = []
words_bytes (v ∷ vs) = to_be_bytes v ++ words_bytes vs

-- `for row in grid.iter() { .. }`
rows_bytes : List (List ℕ) → List ℕ
rows_bytes [] = []
rows_bytes (r ∷ rs) = words_bytes r ++ rows_bytes rs

pub grid_bytes : Grid → List ℕ
grid_bytes g = rows_bytes g.rows

-- `for grid in output { .. }`
unfoldable pub grids_bytes : List Grid → List ℕ
grids_bytes [] = []
grids_bytes (g ∷ gs) = grid_bytes g ++ grids_bytes gs

pub words_bytes-append :
    (xs ys : List ℕ) → words_bytes (xs ++ ys) ≡ words_bytes xs ++ words_bytes ys
unfolding words_bytes
words_bytes-append [] ys = refl
words_bytes-append (x ∷ xs) ys =
    ap (λ l. to_be_bytes x ++ l) (words_bytes-append xs ys)
    ∙ sym (append_assoc (to_be_bytes x) (words_bytes xs) (words_bytes ys))

rows_bytes-concat : (rows : List (List ℕ)) → rows_bytes rows ≡ words_bytes (concat rows)
unfolding rows_bytes words_bytes
rows_bytes-concat [] = refl
rows_bytes-concat (r ∷ rs) =
    ap (λ l. words_bytes r ++ l) (rows_bytes-concat rs) ∙ sym (words_bytes-append r (concat rs))

pub grid_bytes-to_flat : (g : Grid) → grid_bytes g ≡ words_bytes (to_flat g)
unfolding grid_bytes to_flat
grid_bytes-to_flat g = rows_bytes-concat g.rows

pub length-words_bytes : (xs : List ℕ) → length (words_bytes xs) ≡ length xs * 8
unfolding words_bytes
length-words_bytes [] = omega arith
length-words_bytes (x ∷ xs) = omega (
  arith,
  length-append {0} (to_be_bytes x) (words_bytes xs),
  length-to_be_bytes x,
  length-words_bytes xs,
)

module _ (w h : ℕ) where
  pub length-grid_bytes : (g : Grid) → IsGrid w h g → length (grid_bytes g) ≡ w * h * 8
  length-grid_bytes g shaped = omega (
    arith,
    ap length (grid_bytes-to_flat g),
    length-words_bytes (to_flat g),
    length-to_flat w h g shaped,
  )

  pub length-grids_bytes :
      (gs : List Grid) → All (IsGrid w h) gs → length (grids_bytes gs) ≡ length gs * (w * h * 8)
  unfolding grids_bytes
  length-grids_bytes [] s = omega arith
  length-grids_bytes (g ∷ gs) s = omega (
    arith,
    length-append {0} (grid_bytes g) (grids_bytes gs),
    length-grid_bytes g s.0,
    length-grids_bytes gs s.1,
  )

  pub chunks-grids_bytes :
      (gs : List Grid)
      → All (IsGrid w h) gs
      → chunks (length gs) (w * h * 8) (grids_bytes gs) ≡ map grid_bytes gs
  unfolding chunks grids_bytes
  chunks-grids_bytes [] s = refl
  chunks-grids_bytes (g ∷ gs) s =
      let len = length-grid_bytes g s.0 in
      ap₂ ◌∷◌ (take-append (w * h * 8) (grid_bytes g) (grids_bytes gs) len) (
        ap (chunks (length gs) (w * h * 8))
          (drop-append (w * h * 8) (grid_bytes g) (grids_bytes gs) len)
        ∙ chunks-grids_bytes gs s.1)

-- The eight bytes at a cell's offset are the cell's.
pub word_at :
    (xs : List ℕ) (i : ℕ)
    → i < length xs
    → take 8 (drop (i * 8) (words_bytes xs)) ≡ to_be_bytes (get_or xs i 0)
unfolding words_bytes
word_at [] i p = absurd (omega arith)
word_at (x ∷ xs) zero p = take-append 8 (to_be_bytes x) (words_bytes xs) (length-to_be_bytes x)
word_at (x ∷ xs) (suc i) p =
    ap (take 8) (
      ap (λ n. drop n (to_be_bytes x ++ words_bytes xs)) {x = suc i * 8} {y = 8 + i * 8}
        (omega arith)
      ∙ drop_past 8 (i * 8) (to_be_bytes x) (words_bytes xs) (length-to_be_bytes x))
    ∙ word_at xs i (omega arith)
