-- ===== src/Tetris/Game/Lock.antt =====
-- `lock_block_and_spawn_next` and the move that may call it.
use mycpu_4soc_game_port.Common.{ℕ, ◌<◌, arith, ltb, if◌then◌else◌}
use mycpu_4soc_game_port.Common.Outcome.{Returns, gives, then_gives}
use mycpu_4soc_game_port.Tetris.Types.{Grid}
use mycpu_4soc_game_port.Tetris.Grid.Inv.{IsGrid, IsTopped}
use mycpu_4soc_game_port.Tetris.Lines.{grid_clear_lines}
use mycpu_4soc_game_port.Tetris.Lines.Cleared.{grid_clear_lines-Clears}
use mycpu_4soc_game_port.Tetris.Block.{grid_block_add}
use mycpu_4soc_game_port.Tetris.Block.Place.{grid_cell_occupied-grid_block_add}
use mycpu_4soc_game_port.Tetris.Game.{Game, get_drop_interval, take_next, lock_block_and_spawn_next}
use mycpu_4soc_game_port.Tetris.Game.Speed.{get_drop_interval-falls}
use mycpu_4soc_game_port.Tetris.Game.Board.{IsBoard, IsGame, take_next-IsGame}

abbrev pub IsSound : ℕ × Grid → Type 0
IsSound r = IsGrid r.1 × IsTopped r.1

pub cleared-IsSound : (g : Grid) → IsGrid g → IsTopped g → Returns IsSound (grid_clear_lines g)
cleared-IsSound g ok tops =
    let c = grid_clear_lines-Clears g ok tops in
    record { out = (c.count, c.out); returns = c.returns; holds = (c.valid, c.tops) }

-- Wherever the moving block is, locking it returns, and the game goes on with the next block or is
-- over.
pub lock-IsGame : (s : Game) → IsBoard s → Returns IsGame (lock_block_and_spawn_next s)
unfolding lock_block_and_spawn_next
lock-IsGame s h =
    let added = grid_cell_occupied-grid_block_add s.grid s.current_block h.grid_ok h.tops in
    then_gives (grid_clear_lines (grid_block_add s.grid s.current_block)) _
      (cleared-IsSound (grid_block_add s.grid s.current_block) added.1 added.2)
      (λ r sound. gives (next r) (
        take_next-IsGame _ (record {
          grid_ok = sound.0;
          tops = sound.1;
          current_shape = h.current_shape;
          next_shape = h.next_shape;
          dealt = h.dealt;
          timed = positive r;
        })))
  where
    interval : ℕ × Grid → ℕ
    interval r = if ltb 0 r.0 then get_drop_interval r.1.level else s.drop_interval

    next : ℕ × Grid → Game
    next r = take_next (record s { grid = r.1; drop_interval = interval r })

    positive : (r : ℕ × Grid) → 0 < interval r
    positive r = ground (arith, get_drop_interval-falls r.1.level r.1.level, h.timed)
