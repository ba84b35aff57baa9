-- ===== src/Tetris/Block.antt =====
-- The moving block: the functions of 4-soc/csrc/tetris/tetris_grid.c from `check_cell_collision` on.
pub mod Fits
pub mod Steer
pub mod Drop
pub mod Place
pub mod Spawn
use package.mycpu_4soc_game_port.Common.{
  ℕ, zero, suc, ◌-◌, ◌+◌, ◌/◌, ◌%◌, ◌^◌, Bool, true, false, ◌||◌, ◌&&◌, not, if◌then◌else◌, Option,
  none, some, List, [], ◌∷◌, get_or, u8, u32,
}
use package.mycpu_4soc_game_port.Common.Int.{
  ℤ, pos, negsuc, pos_part, neg_part, ◌+ℤ◌, ltb_ℤ, leb_ℤ, wrap8,
}
use package.mycpu_4soc_game_port.Tetris.Types.{
  Grid, Block, Direction, grid_width, grid_height, shape_colors,
}
use package.mycpu_4soc_game_port.Tetris.Shape.{
  shape_get_cells, shape_get_width, shape_get_height, shape_num_rotations,
}
use package.mycpu_4soc_game_port.Tetris.Grid.{row, has_bit, grid_set_cell}

-- A cell above the grid is free; one beside or below it is not.
unfoldable pub check_cell_collision : Grid → ℤ × ℤ → Bool
check_cell_collision g (x, y) =
    if ltb_ℤ x (pos 0) || leb_ℤ (pos grid_width) x || ltb_ℤ y (pos 0)
    then true
    else if leb_ℤ (pos grid_height) y
    then false
    else has_bit (row g (pos_part y)) (pos_part x)

-- `gx0, gy0` to `gx3, gy3`.
unfoldable pub block_cell : Block → ℕ → ℤ × ℤ
block_cell b i =
    let c = get_or (shape_get_cells b.shape b.rot) i (0, 0) in (b.x +ℤ pos c.0, b.y +ℤ pos c.1)

unfoldable pub grid_block_collides : Grid → Block → Bool
grid_block_collides g b =
    check_cell_collision g (block_cell b 0)
    || check_cell_collision g (block_cell b 1)
    || check_cell_collision g (block_cell b 2)
    || check_cell_collision g (block_cell b 3)

-- `if (gx >= 0 && gx < GRID_WIDTH && gy >= 0 && gy < GRID_HEIGHT) grid_set_cell(g, gx, gy, color)`
unfoldable pub add_cell : ℕ → ℤ × ℤ → Grid → Grid
add_cell color (x, y) g =
    if leb_ℤ (pos 0) x && ltb_ℤ x (pos grid_width) && leb_ℤ (pos 0) y && ltb_ℤ y (pos grid_height)
    then grid_set_cell g x y color
    else g

unfoldable pub grid_block_add : Grid → Block → Grid
grid_block_add g b = add_cell b.color (block_cell b 3) (
    add_cell b.color (block_cell b 2)
      (add_cell b.color (block_cell b 1) (add_cell b.color (block_cell b 0) g)))

-- `b->x += dx; b->y += dy;` on the `int8_t` fields.
unfoldable pub shift : ℤ → ℤ → Block → Block
shift dx dy b = record b { x = wrap8 (b.x +ℤ dx); y = wrap8 (b.y +ℤ dy) }

-- `while (true)`; `none` if the fuel runs out.
unfoldable pub drop_loop : ℕ → Grid → ℕ → Block → Option (ℕ × Block)
drop_loop zero g amount b = none
drop_loop (suc fuel) g amount b =
    let lower = shift (pos 0) (negsuc 0) b in
    let rest = drop_loop fuel g (amount + 1) lower in
    if grid_block_collides g lower then some (amount, shift (pos 0) (pos 1) lower) else rest

-- A block below row 0 collides, and `y` starts at 127 at most.
abbrev pub drop_fuel : ℕ
drop_fuel = 129

unfoldable pub grid_block_drop : Grid → Block → Option (ℕ × Block)
grid_block_drop g b = drop_loop drop_fuel g 0 b

unfoldable pub step_of : Direction → ℤ × ℤ
step_of Direction.down = (pos 0, negsuc 0)
step_of Direction.left = (negsuc 0, pos 0)
step_of Direction.up = (pos 0, pos 1)
step_of Direction.right = (pos 1, pos 0)

unfoldable pub grid_block_move : Grid → Block → Direction → Bool × Block
grid_block_move g b dir =
    let moved = shift (step_of dir).0 (step_of dir).1 b in
    if grid_block_collides g moved
    then (false, record moved { x = b.x; y = b.y })
    else (true, moved)

-- `(uint8_t) my_mod((uint32_t) (b->rot + amount + num_rots), num_rots)`
unfoldable pub turn : ℤ → Block → Block
turn amount b =
    let n = shape_num_rotations b.shape in
    let sum = pos b.rot +ℤ amount +ℤ pos n in
    record b { rot = u8 (u32 (pos_part sum + 2 ^ 32 - neg_part sum % 2 ^ 32) % n) }

unfoldable pub grid_block_rotate : Grid → Block → ℤ → Bool × Block
grid_block_rotate g b amount =
    let turned = turn amount b in
    let kicked_left = shift (negsuc 0) (pos 0) turned in
    let kicked_right = shift (pos 2) (pos 0) kicked_left in
    if not (grid_block_collides g turned)
    then (true, turned)
    else if not (grid_block_collides g kicked_left)
    then (true, kicked_left)
    else if not (grid_block_collides g kicked_right)
    then (true, kicked_right)
    else (false, record (shift (negsuc 0) (pos 0) kicked_right) { rot = b.rot })

-- The block is placed whatever the grid holds.
unfoldable pub grid_block_spawn : Grid → Block → ℕ → Block
grid_block_spawn g b shape = record {
  shape = shape;
  rot = 0;
  color = get_or shape_colors shape 0;
  x = wrap8 (pos ((grid_width - shape_get_width shape 0) / 2));
  y = wrap8 (pos (grid_height - shape_get_height shape 0));
}
