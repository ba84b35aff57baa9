-- ===== src/Tests/Data.antt =====
-- The grids, blocks and states that the tests start from.
use mycpu_4soc_game_port.Common.{
  ℕ, zero, suc, ◌≡◌, refl, List, [], length, replicate, get_or-replicate_lt,
}
use mycpu_4soc_game_port.Common.Int.{pos, negsuc}
use mycpu_4soc_game_port.Tetris.Types.{Grid, Block, GameState}
use mycpu_4soc_game_port.Tetris.Bag.{Random, my_srand, shuffle_bag}
use mycpu_4soc_game_port.Tetris.Bag.Deal.{IsDealt, shuffle_bag-IsDealt}
use mycpu_4soc_game_port.Tetris.Grid.{grid_init, grid_set_cell}
use mycpu_4soc_game_port.Tetris.Grid.Inv.{IsSized, IsGrid, IsTopped}
use mycpu_4soc_game_port.Tetris.Grid.Cells.{grid_set_cell-IsGrid}
use mycpu_4soc_game_port.Tetris.Grid.Reset.{grid_init-IsGrid}
use mycpu_4soc_game_port.Tetris.Block.{grid_block_spawn}
use mycpu_4soc_game_port.Tetris.Block.Fits.{Fits}
use mycpu_4soc_game_port.Tetris.Block.Spawn.{IsSpawned, grid_block_spawn-IsSpawned, IsSpawned-empty}
use mycpu_4soc_game_port.Tetris.Keys.{Loads}
use mycpu_4soc_game_port.Tetris.Game.{Game}
use mycpu_4soc_game_port.Tetris.Main.{start_game}
use mycpu_4soc_game_port.Tetris.Main.Start.{IsStarted, start_game-IsStarted}

abbrev nines : List ℕ
nines = replicate 10 9

ten : length nines ≡ 10
ten = refl

-- Memory that was never written.
abbrev pub raw_grid : Grid
raw_grid = record {
  rows = replicate 18 77;
  colors = replicate 18 nines;
  relief = replicate 10 (pos 5);
  width = 3;
  height = 4;
  lines_cleared = 8;
  score = 70;
  level = 9;
}

pub raw_grid-IsSized : IsSized raw_grid
raw_grid-IsSized = record {
  rows_length = refl;
  colors_length = refl;
  color_row_length = λ y h. rw (get_or-replicate_lt 18 y nines [] h) ten;
  relief_length = refl;
}

abbrev pub new_grid : Grid
new_grid = grid_init raw_grid

abbrev pub IsBoth : Grid → Type 0
IsBoth g = IsGrid g × IsTopped g

pub new_grid-IsBoth : IsBoth new_grid
new_grid-IsBoth = let h = grid_init-IsGrid raw_grid raw_grid-IsSized in (h.0, h.1)

-- The cells (0, y) to (n - 1, y) set.
abbrev pub set_cells : ℕ → ℕ → Grid → Grid
set_cells zero y g = g
set_cells (suc n) y g = grid_set_cell (set_cells n y g) (pos n) (pos y) 4

pub set_cells-IsBoth : (n y : ℕ) (g : Grid) → IsBoth g → IsBoth (set_cells n y g)
set_cells-IsBoth zero y g h = h
set_cells-IsBoth (suc n) y g h =
    let before = set_cells-IsBoth n y g h in
    grid_set_cell-IsGrid (set_cells n y g) (pos n) (pos y) 4 before.0 before.1

-- Rows 0 and 2 full and a part of row 1.
abbrev pub two_rows : Grid
two_rows = set_cells 10 2 (set_cells 3 1 (set_cells 10 0 new_grid))

pub two_rows-IsBoth : IsBoth two_rows
two_rows-IsBoth =
    set_cells-IsBoth 10 2 _
      (set_cells-IsBoth 3 1 _ (set_cells-IsBoth 10 0 new_grid new_grid-IsBoth))

abbrev pub raw_block : Block
raw_block = record { x = negsuc 3; y = pos 90; shape = 4; rot = 3; color = 1 }

-- A T at the top of the new grid.
abbrev pub tee : Block
tee = grid_block_spawn new_grid raw_block 1

pub tee-IsSpawned : IsSpawned tee
tee-IsSpawned = (grid_block_spawn-IsSpawned new_grid raw_block 1).0

pub tee-Fits : Fits new_grid tee
tee-Fits = IsSpawned-empty new_grid tee tee-IsSpawned (grid_init-IsGrid raw_grid raw_grid-IsSized).2

abbrev pub raw_random : Random
raw_random = record { rand_state = 0; bag = replicate 7 0; bag_pos = 0; sent = [] }

abbrev pub dealt_random : Random
dealt_random = shuffle_bag (my_srand 2024 raw_random)

pub dealt_random-IsDealt : IsDealt dealt_random
dealt_random-IsDealt = shuffle_bag-IsDealt (my_srand 2024 raw_random) (unfold my_srand in refl)

abbrev pub raw_game : Game
raw_game = record {
  grid = raw_grid;
  current_block = raw_block;
  next_block = raw_block;
  game_state = GameState.over;
  last_drop_time = 0;
  drop_interval = 0;
  soft_tick = 0;
  random = raw_random;
  reads = 0;
}

-- The first state of a game.
abbrev pub started : Game
started = start_game 2024 (record raw_game { grid = new_grid })

pub started-IsStarted : IsStarted started
started-IsStarted =
    let (ok, tops, open_grid, score, lines, level) = grid_init-IsGrid raw_grid raw_grid-IsSized in
    start_game-IsStarted 2024 (record raw_game { grid = new_grid }) refl ok tops open_grid
      (score, lines, level)

-- Each read is of the byte `j`, whose second bit is set: a key that is always there.
abbrev pub holding_j : Loads
holding_j n = b'j'
