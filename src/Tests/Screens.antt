-- ===== src/Tests/Screens.antt =====
-- The theorems on the drawing at concrete inputs.
use mycpu_4soc_game_port.Common.{
  ℕ, suc, ◌-◌, ◌*◌, ◌/◌, ◌%◌, ◌^◌, ◌≡◌, arith, some, get_or, replicate, List, [], ◌++◌,
}
use mycpu_4soc_game_port.Tetris.Types.{Block}
use mycpu_4soc_game_port.Tetris.Block.{grid_block_drop}
use mycpu_4soc_game_port.Tetris.Game.Board.{spawned_low}
use mycpu_4soc_game_port.Vga.{vga_addr_upload_addr, vga_addr_stream_data}
use mycpu_4soc_game_port.Tetris.Draw.{Frame, draw_grid, ghost_of, swap_writes}
use mycpu_4soc_game_port.Tetris.Draw.Paint.{Paints}
use mycpu_4soc_game_port.Tetris.Draw.Cells.{shown, draw_grid-Paints}
use mycpu_4soc_game_port.Tetris.Draw.Ghost.{ghost_of-grid_block_drop}
use mycpu_4soc_game_port.Tetris.Draw.Pack.{swap_writes_lem}
use mycpu_4soc_game_port.Tetris.Print.{Terminal}
use mycpu_4soc_game_port.Tests.Data.{new_grid, two_rows, tee, tee-IsSpawned, tee-Fits}

draw_grid-Paints_example : Paints (draw_grid two_rows) (shown two_rows)
draw_grid-Paints_example = draw_grid-Paints two_rows

ghost_of-grid_block_drop_example :
    (n : ℕ) × (ghost : Block) × (grid_block_drop new_grid tee ≡ some (n, ghost))
    × (ghost_of new_grid tee ≡ some ghost)
ghost_of-grid_block_drop_example =
    ghost_of-grid_block_drop new_grid tee tee-Fits
      (omega (arith, spawned_low _ _ tee-IsSpawned.top))

abbrev white : Frame
white = replicate 4096 9

swap_writes_lem_example :
    (get_or (swap_writes white) 0 (0, 0) ≡ (vga_addr_upload_addr, 0))
    × ((get_or (swap_writes white) (suc (77 / 8)) (0, 0)).0 ≡ vga_addr_stream_data)
    × ((get_or (swap_writes white) (suc (77 / 8)) (0, 0)).1 / 2 ^ (4 * (77 % 8)) % 16
        ≡ get_or white 77 0 % 16)
swap_writes_lem_example = swap_writes_lem white 77 (omega arith)

-- The statics before the first line.
abbrev silent : Terminal
silent = record { score = 2 ^ 32 - 1; lines = 2 ^ 16 - 1; level = 2 ^ 8 - 1; sent = [] }

abbrev bytes : List ℕ
bytes = replicate 20 1 ++ replicate 10 2
