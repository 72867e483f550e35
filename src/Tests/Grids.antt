-- ===== src/Tests/Grids.antt =====
-- core/src/grid.rs: the theorems on one grid, on small grids.
use why.Common.{◌+◌, ◌-◌, ◌*◌, ◌%◌, ◌≡◌, arith, [], ◌∷◌, ◌++◌, length, take, replicate}
use why.Core.Outcome.{ok, err, invalid_key_length}
use why.Core.Grid.{Grid, IsGrid, from_flat, to_flat, from_key, from_bytes}
use why.Core.Grid.Build.{from_flat_lem}
use why.Core.Grid.Keys.{from_key-length}
use why.Core.Grid.Bytes.{grids_bytes}
use why.Core.Grid.Read.{from_bytes-grids_bytes}
use why.Core.Grid.Xor.{xor_grids, xor_grids_cancel}
use why.Core.Grid.Increment.{value, capacity, increment, value-increment}
use why.Tests.Fixtures.{striped, striped-IsGrid, full, full-IsGrid, small, cells, cells-words}

from_flat_lem_example :
    (g : Grid) × (from_flat 2 4 cells ≡ ok g)
    × IsGrid 2 4 g
    × (to_flat g ≡ take (4 * 2) cells ++ replicate (4 * 2 - length cells) 0)
from_flat_lem_example = from_flat_lem 2 4 small cells cells-words

from_key-length_example : from_key 2 4 cells ≡ err (invalid_key_length (2 * 4 * 2) (length cells))
from_key-length_example = from_key-length 2 4 cells (omega arith)

from_bytes-grids_bytes_example :
    from_bytes 2 4 (grids_bytes (striped ∷ full ∷ [])) ≡ ok (striped ∷ full ∷ [])
from_bytes-grids_bytes_example =
    from_bytes-grids_bytes 2 4 small (striped ∷ full ∷ []) (striped-IsGrid, (full-IsGrid, tt))

xor_grids_cancel_example : xor_grids 2 4 (xor_grids 2 4 striped full) full ≡ striped
xor_grids_cancel_example = xor_grids_cancel 2 4 striped full striped-IsGrid full-IsGrid

-- The addition carries through every cell and wraps.
value-increment_example :
    value (to_flat (increment 2 4 full 5)) ≡ (value (to_flat full) + 5) % capacity (4 * 2)
value-increment_example = value-increment 2 4 full full-IsGrid 5 (omega arith)
