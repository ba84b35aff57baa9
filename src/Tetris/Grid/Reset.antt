-- ===== src/Tetris/Grid/Reset.antt =====
-- `grid_init`, and the memory it starts from.
use mycpu_4soc_game_port.Common.{
  ℕ, zero, suc, ◌+◌, ◌≤◌, ◌<◌, ◌≡◌, refl, ap, ◌∙◌, arith, List, [], length, get_or, set, replicate,
  length-set, get_or-set, get_or-replicate, get_or-replicate_lt, for_range, for_range_field, inl,
  false,
}
use mycpu_4soc_game_port.Common.Int.{ℤ, pos, negsuc}
use mycpu_4soc_game_port.Common.Bits.{bit-zero}
use mycpu_4soc_game_port.Common.Fill.{fill, fill-replicate, for_range_row}
use mycpu_4soc_game_port.Tetris.Types.{Grid}
use mycpu_4soc_game_port.Tetris.Grid.{
  row, color_at, relief_at, set_row, blacken_row, grid_clear, grid_init, grid_cell_occupied,
}
use mycpu_4soc_game_port.Tetris.Grid.Cells.{occupied_on}
use mycpu_4soc_game_port.Tetris.Grid.Inv.{cell, IsSized, IsGrid, IsTopped}

abbrev pub black_row : List ℕ
black_row = replicate 10 0

abbrev pub put_colors : List (List ℕ) → Grid → Grid
put_colors cs g = record g { colors = cs }

abbrev pub put_relief : List ℤ → Grid → Grid
put_relief zs g = record g { relief = zs }

-- The colors of one row are stored over and nothing else.
pub blacken_row_lem :
    (y : ℕ) (g : Grid)
    → y < length g.colors
    → length (get_or g.colors y []) ≡ 10
    → blacken_row y g ≡ record g { colors = set g.colors y black_row }
unfolding blacken_row
blacken_row_lem y g hy hx =
    for_range_field (λ r. r.colors) put_colors (λ t r. refl) (λ t u r. refl) (λ r. refl)
      (λ x cs. set cs y (set (get_or cs y []) x 0)) 10 0 g
    ∙ ap (λ cs. put_colors cs g)
        (for_range_row 10 0 y [] (λ x r. set r x 0) g.colors hy
          ∙ ap (set g.colors y) (fill-replicate 0 10 (get_or g.colors y []) hx))

black_row-length : length black_row ≡ 10
black_row-length = refl

-- The rows from `i` on lose their bits and their colors.
clear_rows :
    (n i : ℕ) (g : Grid)
    → i + n ≤ length g.rows
    → i + n ≤ length g.colors
    → ((y : ℕ) → y < length g.colors → length (get_or g.colors y []) ≡ 10)
    → for_range n i (λ y g. blacken_row y (set_row y 0 g)) g
      ≡ record g { rows = fill n i (λ _. 0) g.rows; colors = fill n i (λ _. black_row) g.colors }
unfolding for_range
clear_rows zero i g hr hc hx = refl
clear_rows (suc n) i g hr hc hx =
    rw (blacken_row_lem i (set_row i 0 g) (omega arith) (hx i (omega arith))) (
      clear_rows n (i + 1) (record g { rows = set g.rows i 0; colors = set g.colors i black_row })
        (omega (arith, length-set g.rows i 0)) (omega (arith, length-set g.colors i black_row))
        (λ y hy. ground (
          arith,
          length-set g.colors i black_row,
          get_or-set g.colors i y black_row [],
          hx y,
          black_row-length,
        )))

-- The grid that the game starts with.
pub empty_grid : Grid
empty_grid = record {
  rows = replicate 18 0;
  colors = replicate 18 black_row;
  relief = replicate 10 (negsuc 0);
  width = 10;
  height = 18;
  lines_cleared = 0;
  score = 0;
  level = 1;
}

grid_clear_lem :
    (g : Grid)
    → IsSized g
    → grid_clear g ≡ record g {
      rows = replicate 18 0;
      colors = replicate 18 black_row;
      relief = replicate 10 (negsuc 0);
    }
unfolding grid_clear
grid_clear_lem g h =
    for_range_field (λ r. r.relief) put_relief (λ t r. refl) (λ t u r. refl) (λ r. refl)
      (λ x zs. set zs x (negsuc 0)) 10 0 (for_range 18 0 (λ y g. blacken_row y (set_row y 0 g)) g)
    ∙ rw
        (clear_rows 18 0 g (omega (arith, h.rows_length)) (omega (arith, h.colors_length))
          (λ y p. h.color_row_length y (omega (arith, h.colors_length))))
        (rw
          (
            fill-replicate 0 18 g.rows h.rows_length,
            fill-replicate black_row 18 g.colors h.colors_length,
            fill-replicate (negsuc 0) 10 g.relief h.relief_length,
          )
          refl)

-- Whatever the memory of a grid holds, `grid_init` leaves one and the same grid in it.
pub grid_init_lem : (g : Grid) → IsSized g → grid_init g ≡ empty_grid
unfolding grid_init empty_grid
grid_init_lem g h =
    grid_clear_lem (record g { width = 10; height = 18; lines_cleared = 0; score = 0; level = 1 })
      (record {
        rows_length = h.rows_length;
        colors_length = h.colors_length;
        color_row_length = h.color_row_length;
        relief_length = h.relief_length;
      })

empty_row : (y : ℕ) → row empty_grid y ≡ 0
unfolding empty_grid
empty_row y = get_or-replicate 18 y 0

empty_colors : (y : ℕ) → y < 18 → get_or empty_grid.colors y [] ≡ black_row
unfolding empty_grid
empty_colors y h = get_or-replicate_lt 18 y black_row [] h

empty_color_at : (x y : ℕ) → y < 18 → color_at empty_grid x y ≡ 0
empty_color_at x y h = rw (empty_colors y h) (get_or-replicate 10 x 0)

empty_cell : (x y : ℕ) → cell empty_grid x y ≡ 0
empty_cell x y = rw (empty_row y) (bit-zero x)

empty_relief : (x : ℕ) → x < 10 → relief_at empty_grid x ≡ negsuc 0
unfolding empty_grid
empty_relief x h = get_or-replicate_lt 10 x (negsuc 0) (pos 0) h

pub empty_grid-IsGrid : IsGrid empty_grid
empty_grid-IsGrid = record {
  rows_length = unfold empty_grid in refl;
  colors_length = unfold empty_grid in refl;
  color_row_length = λ y h. rw (empty_colors y h);
  relief_length = unfold empty_grid in refl;
  narrow = λ y. rw (empty_row y) (omega arith);
  black = λ x y hx hy free. empty_color_at x y hy;
}

pub empty_grid-IsTopped : IsTopped empty_grid
empty_grid-IsTopped x h = record {
  above = λ y taken. absurd (omega (arith, empty_cell x y));
  attained = inl (empty_relief x h);
}

-- Whatever the memory of a grid holds, after `grid_init` the grid is well formed, its `relief` is
-- exact, none of its cells is taken, the score and the lines are 0 and the level is 1.
pub grid_init-IsGrid :
    (g : Grid)
    → IsSized g
    → IsGrid (grid_init g)
      × IsTopped (grid_init g)
      × ((x y : ℕ) → x < 10 → y < 18 → grid_cell_occupied (grid_init g) (pos x) (pos y) ≡ false)
      × ((grid_init g).score ≡ 0)
      × ((grid_init g).lines_cleared ≡ 0)
      × ((grid_init g).level ≡ 1)
grid_init-IsGrid g h = rw (grid_init_lem g h) (
  empty_grid-IsGrid,
  empty_grid-IsTopped,
  λ x y hx hy. ground (arith, occupied_on empty_grid x y hx hy, empty_cell x y),
  unfold empty_grid in refl,
  unfold empty_grid in refl,
  unfold empty_grid in refl,
)
