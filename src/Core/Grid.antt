-- ===== src/Core/Grid.antt =====
-- core/src/grid.rs: the grid, its constructors and its flat form. The const parameters `W` and `H`
-- are the arguments `w` and `h`; a cell is the bit pattern of an `i64`.
pub mod Cells
pub mod Fill
pub mod Build
pub mod Keys
pub mod Bytes
pub mod Read
pub mod Lanes
pub mod Xor
pub mod Equality
pub mod Increment
pub mod Shift
pub mod Subcell
pub mod Mix
use why.Common.{
  ℕ, zero, suc, ◌+◌, ◌-◌, ◌*◌, ◌/◌, ◌%◌, ◌<◌, ◌≡◌, Bool, true, false, ◌&&◌, ◌||◌, not, List, [],
  ◌∷◌, ◌++◌, map, bit_xor, min, leb, ◌==◌, if◌then◌else◌, length, get_or, set, take, drop,
  replicate, concat, All, IsWord, wrapping_add, rotate_left_64, rotate_right_64, from_be_bytes,
}
use why.Core.Outcome.{
  Outcome, ok, err, panic, ◌>>=◌, collect, invalid_dimensions, invalid_byte_length,
  invalid_key_length,
}

pub record Grid : Type 0 where
  pub rows : List (List ℕ)

-- What the type `[[i64; W]; H]` says of a value.
abbrev pub IsRow : ℕ → List ℕ → Type 0
IsRow w row = (length row ≡ w) × All IsWord row

abbrev pub IsRows : ℕ → ℕ → List (List ℕ) → Type 0
IsRows w h rows = (length rows ≡ h) × All (IsRow w) rows

pub record IsGrid (w h : ℕ) (g : Grid) : Type 0 where
  pub shape : IsRows w h g.rows

-- The dimensions that `new` accepts.
abbrev pub valid_dimensions : ℕ → ℕ → Bool
valid_dimensions w h = leb 2 w && (h == 4 || (h == 8 || h == 16))

pub new : ℕ → ℕ → Outcome Grid
new w h =
    if valid_dimensions w h
    then ok (record { rows = replicate h (replicate w 0) })
    else err (invalid_dimensions w h)

-- `grid[y][x] = v`
abbrev pub set_cell : List (List ℕ) → ℕ → ℕ → ℕ → List (List ℕ)
set_cell rows y x v = set rows y (set (get_or rows y []) x v)

-- `for i in i..i + n { grid[i / W][i % W] = value(i) }`
pub fill : ℕ → ℕ → ℕ → (ℕ → ℕ) → List (List ℕ) → List (List ℕ)
fill w zero i value rows = rows
fill w (suc n) i value rows = fill w n (suc i) value (set_cell rows (i / w) (i % w) (value i))

-- The nonlinear mix of the two key words of a cell.
pub key_cell : ℕ → ℕ → ℕ → ℕ
key_cell p q i =
    let a = wrapping_add p q in
    let b = bit_xor p q in
    let rot_a = b % 64 in
    let rot_b = a % 64 in bit_xor (bit_xor (rotate_left_64 a rot_a) (rotate_right_64 b rot_b)) i

pub from_key : ℕ → ℕ → List ℕ → Outcome Grid
from_key w h vec =
    let grid_area = w * h in
    if not (length vec == grid_area * 2)
    then err (invalid_key_length (grid_area * 2) (length vec))
    else do
      key_grid ← new w h
      ok (record {
        rows =
            fill w grid_area 0 (λ i. key_cell (get_or vec i 0) (get_or vec (i + grid_area) 0) i)
              key_grid.rows;
      })

-- The chunks of `n` items: `count` of them, and the last may be shorter.
unfoldable pub chunks : {A : Type 0} → ℕ → ℕ → List A → List (List A)
chunks zero n xs = []
chunks (suc count) n xs = take n xs ∷ chunks count n (drop n xs)

-- The inner loop of `from_bytes`, over the `n` columns left of row `j`.
pub read_row : ℕ → List ℕ → ℕ → ℕ → ℕ → List (List ℕ) → List (List ℕ)
read_row w chunk zero j i rows = rows
read_row w chunk (suc n) j i rows =
    let start = (j * w + i) * 8 in
    read_row w chunk n j (suc i) (set_cell rows j i (from_be_bytes (take 8 (drop start chunk))))

-- Its outer loop, over the `n` rows left.
pub read_rows : ℕ → List ℕ → ℕ → ℕ → List (List ℕ) → List (List ℕ)
read_rows w chunk zero j rows = rows
read_rows w chunk (suc n) j rows = read_rows w chunk n (suc j) (read_row w chunk w j 0 rows)

pub read_chunk : ℕ → ℕ → List ℕ → Outcome Grid
read_chunk w h chunk = do grid ← new w h; ok (record { rows = read_rows w chunk h 0 grid.rows })

-- The chunks are read in parallel, each for itself, and collected in order. With `W * H = 0` the
-- remainder divides by zero.
pub from_bytes : ℕ → ℕ → List ℕ → Outcome (List Grid)
from_bytes w h bytes =
    let matrix_size = w * h * 8 in
    if matrix_size == 0
    then panic
    else if not (length bytes % matrix_size == 0)
    then err (invalid_byte_length matrix_size (length bytes))
    else collect (read_chunk w h) (chunks (length bytes / matrix_size) matrix_size bytes)

pub from_flat : ℕ → ℕ → List ℕ → Outcome Grid
from_flat w h vec = do
  grid ← new w h
  ok (record { rows = fill w (min (length vec) (w * h)) 0 (λ i. get_or vec i 0) grid.rows })

pub to_flat : Grid → List ℕ
to_flat g = concat g.rows

-- `slice::from_raw_parts_mut(.., W * H)`: an operation that works on the cells as one slice.
pub with_cells : ℕ → ℕ → (List ℕ → List ℕ) → Grid → Grid
with_cells w h f g = record { rows = chunks h w (f (concat g.rows)) }
