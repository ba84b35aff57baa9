-- ===== src/Tests/Blocks.antt =====
-- The theorems on the moving block at concrete inputs.
use mycpu_4soc_game_port.Common.{◌≡◌, ◌↔◌, arith, false, ◌||◌}
use mycpu_4soc_game_port.Common.Int.{ℤ, pos, ◌≤ℤ◌}
use mycpu_4soc_game_port.Tetris.Grid.{grid_cell_occupied}
use mycpu_4soc_game_port.Tetris.Grid.Inv.{IsGrid, IsTopped}
use mycpu_4soc_game_port.Tetris.Block.{
  grid_block_collides, grid_block_add, grid_block_drop, grid_block_rotate, grid_block_spawn,
}
use mycpu_4soc_game_port.Tetris.Block.Fits.{Fits, grid_block_collides_iff}
use mycpu_4soc_game_port.Tetris.Block.Steer.{Rotates, grid_block_rotate-Rotates}
use mycpu_4soc_game_port.Tetris.Block.Drop.{Drops, grid_block_drop-Drops}
use mycpu_4soc_game_port.Tetris.Block.Place.{is_cell, grid_cell_occupied-grid_block_add}
use mycpu_4soc_game_port.Tetris.Game.Board.{spawned_low}
use mycpu_4soc_game_port.Tests.Data.{
  new_grid, two_rows, two_rows-IsBoth, tee, tee-IsSpawned, tee-Fits,
}

tee-low : tee.y ≤ℤ pos 18
tee-low = spawned_low _ _ tee-IsSpawned.top

grid_block_collides_iff_example : (grid_block_collides two_rows tee ≡ false) ↔ Fits two_rows tee
grid_block_collides_iff_example = grid_block_collides_iff two_rows tee

grid_block_rotate-Rotates_example : Rotates new_grid tee (grid_block_rotate new_grid tee (pos 1))
grid_block_rotate-Rotates_example =
    grid_block_rotate-Rotates new_grid tee tee-Fits (omega (arith, tee-low))
      (unfold grid_block_spawn in omega arith)

grid_block_drop-Drops_example : Drops new_grid tee (grid_block_drop new_grid tee)
grid_block_drop-Drops_example = grid_block_drop-Drops new_grid tee tee-Fits (omega (arith, tee-low))

grid_cell_occupied-grid_block_add_example :
    ((x y : ℤ)
      → grid_cell_occupied (grid_block_add two_rows tee) x y
        ≡ (is_cell tee x y || grid_cell_occupied two_rows x y))
    × IsGrid (grid_block_add two_rows tee)
    × IsTopped (grid_block_add two_rows tee)
grid_cell_occupied-grid_block_add_example =
    grid_cell_occupied-grid_block_add two_rows tee two_rows-IsBoth.0 two_rows-IsBoth.1
