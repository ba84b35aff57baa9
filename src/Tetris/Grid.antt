-- ===== src/Tetris/Grid.antt =====
-- The cells of the grid: the functions of 4-soc/csrc/tetris/tetris_grid.c from `grid_init` to
-- `grid_row_full`. A coordinate is an `int`; an index is its value once the guard has passed.
pub mod Inv
pub mod Cells
pub mod Erase
pub mod Reset
use package.mycpu_4soc_game_port.Common.{
  ℕ, ◌-◌, ◌+◌, ◌^◌, bit_and, bit_or, Bool, true, false, ◌||◌, not, ◌==◌, if◌then◌else◌, List, [],
  get_or, set, u16,
}
use package.mycpu_4soc_game_port.Common.{for_range}
use package.mycpu_4soc_game_port.Common.Int.{ℤ, pos, negsuc, pos_part, ltb_ℤ, leb_ℤ, wrap8}
use package.mycpu_4soc_game_port.Tetris.Types.{Grid, grid_width, grid_height, color_black}

-- `g->rows[y]`, `g->colors[y][x]` and `g->relief[x]`.
abbrev pub row : Grid → ℕ → ℕ
row g y = get_or g.rows y 0

abbrev pub color_at : Grid → ℕ → ℕ → ℕ
color_at g x y = get_or (get_or g.colors y []) x 0

abbrev pub relief_at : Grid → ℕ → ℤ
relief_at g x = get_or g.relief x (pos 0)

abbrev pub set_row : ℕ → ℕ → Grid → Grid
set_row y v g = record g { rows = set g.rows y v }

abbrev pub set_color : ℕ → ℕ → ℕ → Grid → Grid
set_color y x v g = record g { colors = set g.colors y (set (get_or g.colors y []) x v) }

abbrev pub set_relief : ℕ → ℤ → Grid → Grid
set_relief x v g = record g { relief = set g.relief x v }

-- `for (x = 0; x < GRID_WIDTH; x++) g->colors[y][x] = COLOR_BLACK;`
unfoldable pub blacken_row : ℕ → Grid → Grid
blacken_row y g = for_range grid_width 0 (λ x. set_color y x color_black) g

unfoldable pub grid_clear : Grid → Grid
grid_clear g =
    for_range grid_width 0 (λ x. set_relief x (negsuc 0))
      (for_range grid_height 0 (λ y g. blacken_row y (set_row y 0 g)) g)

unfoldable pub grid_init : Grid → Grid
grid_init g =
    grid_clear (record g {
      width = grid_width;
      height = grid_height;
      lines_cleared = 0;
      score = 0;
      level = 1;
    })

-- `x < 0 || x >= GRID_WIDTH || y < 0 || y >= GRID_HEIGHT`
abbrev pub off_grid : ℤ → ℤ → Bool
off_grid x y =
    ltb_ℤ x (pos 0) || leb_ℤ (pos grid_width) x || ltb_ℤ y (pos 0) || leb_ℤ (pos grid_height) y

-- `(g->rows[y] & (1u << x)) != 0`
unfoldable pub has_bit : ℕ → ℕ → Bool
has_bit r x = not (bit_and r (2 ^ x) == 0)

unfoldable pub grid_cell_occupied : Grid → ℤ → ℤ → Bool
grid_cell_occupied g x y = if off_grid x y then true else has_bit (row g (pos_part y)) (pos_part x)

unfoldable pub grid_set_cell : Grid → ℤ → ℤ → ℕ → Grid
grid_set_cell g x y color =
    if off_grid x y
    then g
    else (let i = pos_part x in
        let j = pos_part y in
        let marked = set_color j i color (set_row j (u16 (bit_or (row g j) (2 ^ i))) g) in
        if ltb_ℤ (relief_at marked i) y then set_relief i (wrap8 y) marked else marked)

unfoldable pub grid_clear_cell : Grid → ℤ → ℤ → Grid
grid_clear_cell g x y =
    if off_grid x y
    then g
    else (let i = pos_part x in
        let j = pos_part y in
        set_color j i color_black (set_row j (u16 (bit_and (row g j) (2 ^ 32 - 1 - 2 ^ i))) g))

abbrev pub full_mask : ℕ
full_mask = u16 (2 ^ grid_width - 1)

unfoldable pub grid_row_full : Grid → ℤ → Bool
grid_row_full g y =
    if ltb_ℤ y (pos 0) || leb_ℤ (pos grid_height) y
    then false
    else bit_and (row g (pos_part y)) full_mask == full_mask
