-- ===== src/Tetris/Types.antt =====
-- Constants and types of 4-soc/csrc/tetris/tetris.h. A field of an unsigned C type is a native number
-- and a store to it wraps; an `int8_t` field is an integer and a store to it wraps.
use mycpu_4soc_game_port.Common.{ℕ, List, [], ◌∷◌}
use mycpu_4soc_game_port.Common.Int.{ℤ}

abbrev pub grid_width : ℕ
grid_width = 10

abbrev pub grid_height : ℕ
grid_height = 18

abbrev pub num_shapes : ℕ
num_shapes = 7

abbrev pub color_black : ℕ
color_black = 0

-- COLOR_YELLOW, COLOR_PURPLE, COLOR_CYAN, COLOR_BLUE, COLOR_ORANGE, COLOR_GREEN, COLOR_RED.
abbrev pub shape_colors : List ℕ
shape_colors = 2 ∷ 3 ∷ 1 ∷ 6 ∷ 7 ∷ 4 ∷ 5 ∷ []

-- `direction_t`.
pub data Direction : Type 0 where
  down left up right : Direction

-- `game_state_t`.
pub data GameState : Type 0 where
  playing paused over : GameState

-- `input_t`.
pub data Input : Type 0 where
  none left right rotate soft_drop hard_drop pause quit : Input

-- `grid_t`. Row 0 is the lowest; bit `x` of a row is its column `x`.
pub record Grid : Type 0 where
  pub rows : List ℕ  -- uint16_t[GRID_HEIGHT]
  pub colors : List (List ℕ)  -- uint8_t[GRID_HEIGHT][GRID_WIDTH]
  pub relief : List ℤ  -- int8_t[GRID_WIDTH]
  pub width : ℕ
  pub height : ℕ
  pub lines_cleared : ℕ  -- uint16_t
  pub score : ℕ  -- uint32_t
  pub level : ℕ  -- uint8_t

-- `block_t`. The corner (x, y) is added to each cell of the shape's table.
pub record Block : Type 0 where
  pub x : ℤ  -- int8_t
  pub y : ℤ  -- int8_t
  pub shape : ℕ
  pub rot : ℕ
  pub color : ℕ
