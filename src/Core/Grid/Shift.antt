-- ===== src/Core/Grid/Shift.antt =====
-- core/src/grid.rs: `precalculate_shifts`, and `shift_rows` in both builds.
pub mod Rotation
pub mod Barrel
use native.Mathlib.Nat.{pow-suc, one-le-pow}
use why.Common.{
  ℕ, zero, suc, ◌+◌, ◌-◌, ◌*◌, ◌/◌, ◌%◌, ◌^◌, ◌≤◌, ◌<◌, ◌≡◌, refl, sym, ap, ap₂, ◌∙◌, true, false,
  List, [], ◌∷◌, ◌++◌, map, arith, ltb, leb, ◌==◌, if◌then◌else◌, bit_xor, bit_and, bit_xor-lt,
  length, get_or, take, drop, All, IsWord, wrapping_sub,
}
use why.Core.Outcome.{Outcome, ok, panic, ◌>>=◌}
use why.Core.Grid.{Grid, IsRow, IsRows, IsGrid}
use why.Core.Grid.Fill.{tabulate}

-- `row.iter().fold(0i64, |acc, &x| acc ^ x)`
pub xor_fold : ℕ → List ℕ → ℕ
xor_fold acc [] = acc
xor_fold acc (x ∷ xs) = xor_fold (bit_xor acc x) xs

-- The high half of the widening product with `W`.
pub row_shift : ℕ → List ℕ → ℕ
row_shift w row = xor_fold 0 row * w / 2 ^ 64

pub precalculate_shifts : ℕ → Grid → List ℕ
precalculate_shifts w g = map (row_shift w) g.rows

-- `[T]::rotate_left`, which panics past the end.
pub rotate_left : List ℕ → ℕ → Outcome (List ℕ)
rotate_left row k = if leb k (length row) then ok (drop k row ++ take k row) else panic

-- One row in the default build: a shift of 0 is skipped.
pub shift_row : ℕ → List ℕ → Outcome (List ℕ)
shift_row shift row = if shift == 0 then ok row else rotate_left row shift

-- `shifts[i]` is in range where there are as many shifts as rows.
pub shift_rows : List ℕ → List (List ℕ) → Outcome (List (List ℕ))
shift_rows shifts [] = ok []
shift_rows [] (row ∷ rows) = panic
shift_rows (shift ∷ shifts) (row ∷ rows) = do
  row' ← shift_row shift row
  rows' ← shift_rows shifts rows
  ok (row' ∷ rows')

-- The `constant-time` build. `select` takes the other cell where the mask is all ones.
pub select : ℕ → ℕ → ℕ → ℕ
select mask here there = bit_xor here (bit_and (bit_xor here there) mask)

-- One stage of the barrel shifter: the two runs of the loop over `j`.
pub barrel_stage : ℕ → ℕ → ℕ → List ℕ → List ℕ
barrel_stage w stride mask tmp =
    let split = w - stride in
    tabulate split 0 (λ j. select mask (get_or tmp j 0) (get_or tmp (j + stride) 0))
    ++ tabulate (w - split) split (λ j. select mask (get_or tmp j 0) (get_or tmp (j - split) 0))

-- `while stride < W`, with `fuel` rounds at most.
pub barrel : ℕ → ℕ → ℕ → ℕ → ℕ → List ℕ → List ℕ
barrel zero w shift stride bit tmp = tmp
barrel (suc fuel) w shift stride bit tmp =
    let mask = wrapping_sub 0 (shift / 2 ^ bit % 2) in
    let rest = barrel fuel w shift (stride * 2) (bit + 1) (barrel_stage w stride mask tmp) in
    if ltb stride w then rest else tmp

-- `W` rounds are enough, since the stride doubles from 1.
pub shift_row_ct : ℕ → ℕ → List ℕ → List ℕ
shift_row_ct w shift row = barrel w w shift 1 0 row

pub shift_rows_ct : ℕ → List ℕ → List (List ℕ) → Outcome (List (List ℕ))
shift_rows_ct w shifts [] = ok []
shift_rows_ct w [] (row ∷ rows) = panic
shift_rows_ct w (shift ∷ shifts) (row ∷ rows) = do
  rows' ← shift_rows_ct w shifts rows
  ok (shift_row_ct w shift row ∷ rows')
