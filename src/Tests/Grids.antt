-- ===== src/Tests/Grids.antt =====
-- The theorems on the cells and the lines of the grid at concrete inputs.
use mycpu_4soc_game_port.Common.{ℕ, ◌<◌, ◌≡◌, ◌↔◌, arith, true, ◌||◌}
use mycpu_4soc_game_port.Common.Int.{pos}
use mycpu_4soc_game_port.Tetris.Types.{Grid}
use mycpu_4soc_game_port.Tetris.Grid.{grid_cell_occupied, grid_set_cell, grid_row_full}
use mycpu_4soc_game_port.Tetris.Grid.Cells.{same_cell, grid_cell_occupied-grid_set_cell}
use mycpu_4soc_game_port.Tetris.Grid.Erase.{grid_row_full_iff}
use mycpu_4soc_game_port.Tetris.Lines.{grid_clear_lines}
use mycpu_4soc_game_port.Tetris.Lines.Keep.{full_count}
use mycpu_4soc_game_port.Tetris.Lines.Cleared.{Clears, grid_clear_lines-Clears, IsGrid-counters}
use mycpu_4soc_game_port.Tetris.Lines.Level.{Counts, grid_clear_lines-Counts}
use mycpu_4soc_game_port.Tests.Data.{two_rows, two_rows-IsBoth}

grid_cell_occupied-grid_set_cell_example :
    grid_cell_occupied (grid_set_cell two_rows (pos 4) (pos 1) 6) (pos 4) (pos 1)
    ≡ (same_cell (pos 4) (pos 1) (pos 4) (pos 1) || grid_cell_occupied two_rows (pos 4) (pos 1))
grid_cell_occupied-grid_set_cell_example =
    grid_cell_occupied-grid_set_cell two_rows (pos 4) (pos 1) 6 (pos 4) (pos 1) two_rows-IsBoth.0

grid_row_full_iff_example :
    (grid_row_full two_rows (pos 2) ≡ true)
    ↔ ((x : ℕ) → x < 10 → grid_cell_occupied two_rows (pos x) (pos 2) ≡ true)
grid_row_full_iff_example = grid_row_full_iff two_rows 2 two_rows-IsBoth.0 (omega arith)

grid_clear_lines-Clears_example : Clears two_rows (grid_clear_lines two_rows)
grid_clear_lines-Clears_example =
    grid_clear_lines-Clears two_rows two_rows-IsBoth.0 two_rows-IsBoth.1

-- Two lines at level 3, with 19 lines before.
abbrev counted : Grid
counted = record two_rows { lines_cleared = 19; score = 1000; level = 3 }

grid_clear_lines-Counts_example :
    Counts (full_count counted.rows) counted (grid_clear_lines counted)
grid_clear_lines-Counts_example =
    grid_clear_lines-Counts counted (IsGrid-counters 19 1000 3 two_rows-IsBoth.0) (omega arith)
      (omega arith)
