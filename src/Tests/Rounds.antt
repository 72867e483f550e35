-- ===== src/Tests/Rounds.antt =====
-- core/src/grid.rs: the theorems on the steps of a round, on small grids.
use why.Common.{ℕ, ◌≡◌, arith, true, List, [], ◌∷◌, map}
use why.Core.Outcome.{ok}
use why.Core.Grid.{Grid, IsGrid, to_flat}
use why.Core.Grid.Subcell.{subcell_cell, subcell_avx2, subcell_portable, subcell}
use why.Core.Grid.Subcell.Bodies.{subcell_lem, subcell_bodies}
use why.Core.Grid.Shift.{shift_rows, shift_rows_ct}
use why.Core.Grid.Shift.Barrel.{shift_rows_ct-shift_rows}
use why.Core.Grid.Mix.{mix_columns}
use why.Core.Grid.Mix.Height.{matrix_product}
use why.Core.Grid.Mix.Scatter.{column}
use why.Core.Grid.Mix.Involution.{mix_columns_twice, mix_columns-column}
use why.Tests.Fixtures.{striped, striped-IsGrid, small}

subcell_lem_example :
    IsGrid 2 4 (subcell true 2 4 striped 3)
    × (to_flat (subcell true 2 4 striped 3) ≡ map (λ cell. subcell_cell cell 3) (to_flat striped))
subcell_lem_example = subcell_lem true 2 4 striped 3 striped-IsGrid

subcell_bodies_example : subcell_avx2 2 4 striped 3 ≡ subcell_portable 2 4 striped 3
subcell_bodies_example = subcell_bodies 2 4 striped 3 striped-IsGrid

abbrev shifts : List ℕ
shifts = 0 ∷ 1 ∷ 1 ∷ 0 ∷ []

shift_rows_ct-shift_rows_example :
    shift_rows_ct 2 shifts striped.rows ≡ shift_rows shifts striped.rows
shift_rows_ct-shift_rows_example =
    shift_rows_ct-shift_rows 2 shifts striped.rows (omega arith) striped-IsGrid.shape.1

mix_columns_twice_example :
    (g' : Grid) × (mix_columns 2 4 striped ≡ ok g') × (mix_columns 2 4 g' ≡ ok striped)
mix_columns_twice_example = mix_columns_twice 2 4 small striped striped-IsGrid

mix_columns-column_example :
    (g' : Grid) × (mix_columns 2 4 striped ≡ ok g')
    × IsGrid 2 4 g'
    × (column 1 g'.rows ≡ matrix_product 4 (column 1 striped.rows))
mix_columns-column_example = mix_columns-column 2 4 small striped 1 striped-IsGrid (omega arith)
