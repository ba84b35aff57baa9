-- ===== src/Tetris/Draw.antt =====
-- The frame buffer and the drawing of 4-soc/csrc/tetris/tetris_draw.c. The frame buffer is a list of 64 rows of 64 pixels. `cpu_sync` sends a byte that
-- nobody reads, so it does not appear.
pub mod Paint
pub mod Rects
pub mod Cells
pub mod Ghost
pub mod Pack
use package.mycpu_4soc_game_port.Common.{
  ℕ, zero, suc, ◌-◌, ◌+◌, ◌*◌, ◌/◌, ◌%◌, ◌^◌, bit_and, bit_or, Bool, true, false, not, ◌&&◌, ◌||◌,
  ◌==◌, ltb, leb, if◌then◌else◌, Option, none, some, List, [], ◌∷◌, ◌++◌, get_or, set, replicate,
  for_range,
}
use package.mycpu_4soc_game_port.Common.Int.{
  ℤ, pos, negsuc, pos_part, ◌+ℤ◌, ◌-ℤ◌, ltb_ℤ, leb_ℤ, wrap8,
}
use package.mycpu_4soc_game_port.Vga.{stream_words, vga_addr_upload_addr, vga_addr_ctrl}
use package.mycpu_4soc_game_port.Tetris.Types.{
  Grid, Block, grid_width, grid_height, color_black, shape_colors,
}
use package.mycpu_4soc_game_port.Tetris.Shape.{shape_get_cells}
use package.mycpu_4soc_game_port.Tetris.Grid.{row, color_at, has_bit}
use package.mycpu_4soc_game_port.Tetris.Block.{block_cell, grid_block_collides, shift}

abbrev pub block_size : ℕ
block_size = 3

abbrev pub grid_offset_x : ℕ
grid_offset_x = 2

abbrev pub grid_offset_y : ℕ
grid_offset_y = 5

abbrev pub preview_x : ℕ
preview_x = 38

abbrev pub preview_y : ℕ
preview_y = 8

abbrev pub color_red : ℕ
color_red = 5

abbrev pub color_gray : ℕ
color_gray = 8

abbrev pub vga_frame_size : ℕ
vga_frame_size = 64 * 64

abbrev pub Frame : Type 0
Frame = List ℕ

unfoldable pub fb_clear : Frame → Frame
fb_clear fb = for_range vga_frame_size 0 (λ i fb. set fb i color_black) fb

unfoldable pub fb_pixel : ℤ → ℤ → ℕ → Frame → Frame
fb_pixel x y color fb =
    if leb_ℤ (pos 0) x && ltb_ℤ x (pos 64) && leb_ℤ (pos 0) y && ltb_ℤ y (pos 64)
    then set fb (pos_part y * 64 + pos_part x) color
    else fb

unfoldable pub fb_rect : ℤ → ℤ → ℕ → ℕ → ℕ → Frame → Frame
fb_rect x y w h color fb =
    for_range h 0 (λ dy. for_range w 0 (λ dx. fb_pixel (x +ℤ pos dx) (y +ℤ pos dy) color)) fb

unfoldable pub fb_rect_outline : ℤ → ℤ → ℕ → ℕ → ℕ → Frame → Frame
fb_rect_outline x y w h color fb =
    for_range h 0
      (λ dy fb.
        fb_pixel (x +ℤ pos w -ℤ pos 1) (y +ℤ pos dy) color (fb_pixel x (y +ℤ pos dy) color fb))
      (for_range w 0
        (λ dx fb.
          fb_pixel (x +ℤ pos dx) (y +ℤ pos h -ℤ pos 1) color (fb_pixel (x +ℤ pos dx) y color fb))
        fb)

unfoldable pub draw_clear : Frame → Frame
draw_clear fb = fb_clear fb

unfoldable pub draw_border : Frame → Frame
draw_border fb =
    fb_rect_outline (pos (grid_offset_x - 1)) (pos (grid_offset_y - 1))
      (grid_width * block_size + 2) (grid_height * block_size + 2) color_red fb

-- The body of the two loops of `draw_grid`.
unfoldable pub draw_cell : Grid → ℕ → ℕ → Frame → Frame
draw_cell g y x fb =
    if has_bit (row g y) x
    then fb_rect (pos (grid_offset_x + x * block_size))
        (pos (grid_offset_y + (grid_height - 1 - y) * block_size)) block_size block_size
        (color_at g x y) fb
    else fb

unfoldable pub draw_grid : Grid → Frame → Frame
draw_grid g fb = for_range grid_height 0 (λ y. for_range grid_width 0 (λ x. draw_cell g y x)) fb

-- The screen place of a cell on the grid, handed to `draw`; a cell off the grid is not drawn.
abbrev pub at_cell : (ℤ → ℤ → Frame → Frame) → ℤ × ℤ → Frame → Frame
at_cell draw (x, y) fb =
    if leb_ℤ (pos 0) x && ltb_ℤ x (pos grid_width) && leb_ℤ (pos 0) y && ltb_ℤ y (pos grid_height)
    then draw (pos (grid_offset_x + pos_part x * block_size))
        (pos (grid_offset_y + (grid_height - 1 - pos_part y) * block_size)) fb
    else fb

unfoldable pub draw_block : Block → Frame → Frame
draw_block b fb =
    let draw = at_cell (λ x y. fb_rect x y block_size block_size b.color) in
    draw (block_cell b 3) (draw (block_cell b 2) (draw (block_cell b 1) (draw (block_cell b 0) fb)))

-- `while (!grid_block_collides(g, &ghost)) ghost.y--;`
unfoldable pub ghost_loop : ℕ → Grid → Block → Option Block
ghost_loop zero g ghost = none
ghost_loop (suc fuel) g ghost =
    let rest = ghost_loop fuel g (shift (pos 0) (negsuc 0) ghost) in
    if not (grid_block_collides g ghost) then rest else some ghost

-- A block below row 0 collides, and `y` starts at 127 at most.
abbrev pub ghost_fuel : ℕ
ghost_fuel = 130

-- The block that `draw_ghost` outlines.
unfoldable pub ghost_of : Grid → Block → Option Block
ghost_of g b = elim (ghost_loop ghost_fuel g b) [
  | none ↦ none
  | some ghost ↦ some (shift (pos 0) (pos 1) ghost)
]

unfoldable pub draw_ghost_at : Block → Block → Frame → Frame
draw_ghost_at b ghost fb =
    let draw = at_cell (λ x y. fb_rect_outline x y block_size block_size color_gray) in
    if leb_ℤ ghost.y b.y && leb_ℤ b.y ghost.y
    then fb
    else draw (block_cell ghost 3)
        (draw (block_cell ghost 2) (draw (block_cell ghost 1) (draw (block_cell ghost 0) fb)))

unfoldable pub draw_ghost : Grid → Block → Frame → Option Frame
draw_ghost g b fb = elim (ghost_of g b) [
  | none ↦ none
  | some ghost ↦ some (draw_ghost_at b ghost fb)
]

-- `(x << 1) + x`
abbrev pub mul3 : ℕ → ℕ
mul3 x = x * 2 + x

-- One 2 by 2 square of the preview.
unfoldable pub preview_cell : ℕ → ℕ → Frame → Frame
preview_cell shape i fb =
    let c = get_or (shape_get_cells shape 0) i (0, 0) in
    fb_rect (pos (preview_x + mul3 c.0)) (pos (preview_y + mul3 (3 - c.1))) 2 2
      (get_or shape_colors (if leb 7 shape then 0 else shape) 0) fb

unfoldable pub draw_preview : ℕ → Frame → Frame
draw_preview shape fb =
    let area =
      for_range 3 0
        (λ dy.
          for_range 3 0
            (λ dx. fb_rect (pos (preview_x + 4 * dx)) (pos (preview_y + 4 * dy)) 4 4 color_black))
        fb in
    preview_cell shape 3 (preview_cell shape 2 (preview_cell shape 1 (preview_cell shape 0 area)))

unfoldable pub draw_game_over : Frame → Frame
draw_game_over fb =
    for_range 8 0
      (λ i fb.
        fb_pixel (pos (26 + i)) (pos (35 - i)) color_red
          (fb_pixel (pos (26 + i)) (pos (28 + i)) color_red fb))
      (fb_rect_outline (pos 20) (pos 25) 24 14 color_red
        (fb_rect (pos 20) (pos 25) 24 14 color_black fb))

-- The register writes of `draw_swap_buffers` once the vertical blank has begun, in order.
unfoldable pub swap_writes : Frame → List (ℕ × ℕ)
swap_writes fb =
    ((vga_addr_upload_addr, 0) ∷ []) ++ stream_words 512 0 fb ++ ((vga_addr_ctrl, 1) ∷ [])
