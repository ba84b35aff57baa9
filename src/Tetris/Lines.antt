-- ===== src/Tetris/Lines.antt =====
-- Clearing full lines: `remove_row`, `recalc_relief` and `grid_clear_lines` of
-- 4-soc/csrc/tetris/tetris_grid.c.
pub mod Remove
pub mod Keep
pub mod Scan
pub mod Relief
pub mod Cleared
pub mod Level
use package.mycpu_4soc_game_port.Common.{
  ℕ, zero, suc, ◌-◌, ◌+◌, ◌*◌, ◌/◌, Bool, true, false, ltb, if◌then◌else◌, Option, none, some, List,
  [], ◌∷◌, get_or, u8, u16, u32,
}
use package.mycpu_4soc_game_port.Common.{for_range}
use package.mycpu_4soc_game_port.Common.Int.{ℤ, pos, negsuc}
use package.mycpu_4soc_game_port.Tetris.Types.{Grid, grid_width, grid_height, color_black}
use package.mycpu_4soc_game_port.Tetris.Grid.{
  row, color_at, set_row, set_color, set_relief, blacken_row, has_bit, grid_row_full,
}

-- `for (x = 0; x < GRID_WIDTH; x++) g->colors[y][x] = g->colors[y + 1][x];`
unfoldable pub copy_colors : ℕ → Grid → Grid
copy_colors y g = for_range grid_width 0 (λ x g. set_color y x (color_at g x (y + 1)) g) g

unfoldable pub remove_row : ℕ → Grid → Grid
remove_row r g =
    let moved =
      for_range (grid_height - 1 - r) r (λ y g. copy_colors y (set_row y (row g (y + 1)) g)) g in
    blacken_row (grid_height - 1) (set_row (grid_height - 1) 0 moved)

-- The scan of column `x` from row `n - 1` down to row 0; -1 if it finds nothing.
unfoldable pub column_top : Grid → ℕ → ℕ → ℤ
column_top g x zero = negsuc 0
column_top g x (suc y) = if has_bit (row g y) x then pos y else column_top g x y

unfoldable pub recalc_relief : Grid → Grid
recalc_relief g = for_range grid_width 0 (λ x g. set_relief x (column_top g x grid_height) g) g

-- `while (y < GRID_HEIGHT)`; gives the number of lines removed, or `none` if the fuel runs out.
unfoldable pub clear_loop : ℕ → ℕ → ℕ → Grid → Option (ℕ × Grid)
clear_loop zero y cleared g = none
clear_loop (suc fuel) y cleared g =
    let removed = clear_loop fuel y (cleared + 1) (remove_row y g) in
    let passed = clear_loop fuel (y + 1) cleared g in
    if ltb y grid_height
    then (if grid_row_full g (pos y) then removed else passed)
    else some (cleared, g)

abbrev pub score_table : List ℕ
score_table = 0 ∷ 40 ∷ 100 ∷ 300 ∷ 1200 ∷ []

-- The level is cut to a `uint8_t` before it is held to 20.
unfoldable pub level_of : ℕ → ℕ
level_of lines = let level = u8 (1 + lines / 10) in if ltb 20 level then 20 else level

-- The body of `if (cleared > 0)`, with what `cleared` is after it.
unfoldable pub reward : ℕ → Grid → ℕ × Grid
reward cleared g =
    let lines = u16 (g.lines_cleared + cleared) in
    let cleared' = if ltb 4 cleared then 4 else cleared in
    let score = u32 (g.score + get_or score_table cleared' 0 * g.level) in
    (
      cleared',
      recalc_relief (record g { lines_cleared = lines; score = score; level = level_of lines }),
    )

-- A row is passed at most 18 times and removed at most 18 times, and the last test fails.
abbrev pub clear_fuel : ℕ
clear_fuel = 37

unfoldable pub grid_clear_lines : Grid → Option (ℕ × Grid)
grid_clear_lines g = elim (clear_loop clear_fuel 0 0 g) [
  | none ↦ none
  | some (cleared, g') ↦ some (if ltb 0 cleared then reward cleared g' else (cleared, g'))
]
