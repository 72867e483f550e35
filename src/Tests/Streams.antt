-- ===== src/Tests/Streams.antt =====
-- core/src/stream.rs: the theorems on streams, on small grids.
use why.Common.{
  ℕ, ◌≡◌, refl, arith, true, none, List, [], ◌∷◌, ◌++◌, length, take, concat, append-nil, All,
  IsWord,
}
use why.Core.Outcome.{ok}
use why.Core.Grid.{Grid}
use why.Core.Crypto.{apply_ctr_with_shifts}
use why.Core.Encrypter.{shape_grids}
use why.Core.Decrypter.{flatten}
use why.Core.Stream.{RexStream, start}
use why.Core.Stream.Positions.{mask_cells, key_at}
use why.Core.Stream.Steps.{state_at}
use why.Core.Stream.Splits.{process, process_lem}
use why.Core.Stream.Sessions.{process-start, process_twice, process-apply_ctr_with_shifts}
use why.Tests.Fixtures.{
  striped, full, full-IsGrid, small, schedule, row_shifts, schedule-IsSchedule, toy, cells,
  cells-words,
}

-- Three calls, of which the last fills a grid.
abbrev parts : List (List ℕ)
parts = cells ∷ [] ∷ (cells ++ cells) ∷ []

parts-words : All (All IsWord) parts
parts-words = (cells-words, (tt, (omega arith, tt)))

process_lem_example :
    (last : ℕ) × (process true 2 4 parts
        (state_at true 2 4 small full schedule row_shifts schedule-IsSchedule full-IsGrid 0 [])
      ≡ ok (
        state_at true 2 4 small full schedule row_shifts schedule-IsSchedule full-IsGrid last [],
        mask_cells
            (key_at true 2 4 small full schedule row_shifts schedule-IsSchedule full-IsGrid)
            0
            (concat parts),
      ))
process_lem_example =
    process_lem true 2 4 small full schedule row_shifts schedule-IsSchedule full-IsGrid parts
      parts-words

process-start_example :
    (st last : RexStream) × (out : List ℕ) × (start toy 2 4 striped full ≡ ok st)
    × (process true 2 4 parts st ≡ ok (last, out))
    × (length out ≡ length (concat parts))
    × All IsWord out
process-start_example =
    process-start true 2 4 small toy striped full parts (omega arith) full-IsGrid parts-words

-- A first stream, whose output is fed to a second.
session :
    (st last : RexStream) × (out : List ℕ) × (start toy 2 4 striped full ≡ ok st)
    × (process true 2 4 parts st ≡ ok (last, out))
    × (length out ≡ length (concat parts))
    × All IsWord out
session = process-start true 2 4 small toy striped full parts (omega arith) full-IsGrid parts-words

process_twice_example :
    (last' : RexStream) × (process true 2 4 (session.2 ∷ []) session.0 ≡ ok (last', concat parts))
process_twice_example =
    process_twice true 2 4 small toy striped full parts (session.2 ∷ []) session.0 session.1
      session.2 (omega arith) full-IsGrid parts-words (session.6, tt) session.3 session.4
      (append-nil session.2)

process-apply_ctr_with_shifts_example :
    (grids out : List Grid) × (last : RexStream) × (shape_grids 2 4 (concat parts) ≡ ok grids)
    × (apply_ctr_with_shifts true 2 4 grids full schedule row_shifts none ≡ ok out)
    × (process true 2 4 parts (record {
      round_keys = schedule;
      round_shifts = row_shifts;
      nonce = full;
      block_counter = 0;
      buffer = [];
    })
        ≡ ok (last, take (length (concat parts)) (flatten out)))
process-apply_ctr_with_shifts_example =
    process-apply_ctr_with_shifts true 2 4 small full schedule row_shifts schedule-IsSchedule
      full-IsGrid parts (concat parts) parts-words (omega arith) refl
