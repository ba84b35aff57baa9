-- ===== src/Tetris/Main/Start.antt =====
-- The start of the game in `main`.
use mycpu_4soc_game_port.Common.{ℕ, ◌+◌, ◌<◌, bit_and, ◌≡◌, refl, arith, false, length}
use mycpu_4soc_game_port.Common.Int.{pos}
use mycpu_4soc_game_port.Common.Outcome.{Returns, gives, then_gives}
use mycpu_4soc_game_port.Tetris.Types.{GameState}
use mycpu_4soc_game_port.Tetris.Bag.{Random, my_srand, shape_init, shape_random}
use mycpu_4soc_game_port.Tetris.Bag.Deal.{IsDealt, shuffle_bag-IsDealt, shape_random-IsDealt}
use mycpu_4soc_game_port.Tetris.Grid.{grid_cell_occupied}
use mycpu_4soc_game_port.Tetris.Grid.Inv.{IsSized, IsGrid, IsTopped}
use mycpu_4soc_game_port.Tetris.Grid.Reset.{grid_init-IsGrid}
use mycpu_4soc_game_port.Tetris.Block.{grid_block_spawn}
use mycpu_4soc_game_port.Tetris.Block.Spawn.{IsSpawned, grid_block_spawn-IsSpawned, IsSpawned-empty}
use mycpu_4soc_game_port.Tetris.Keys.{Loads}
use mycpu_4soc_game_port.Tetris.Keys.Decode.{IsReady}
use mycpu_4soc_game_port.Tetris.Game.{Game, spawn_next}
use mycpu_4soc_game_port.Tetris.Game.Board.{IsGame, spawn_next-IsBoard, spawned_low}
use mycpu_4soc_game_port.Tetris.Main.{start_game, await_key, main_start, first_seed}
use mycpu_4soc_game_port.Tetris.Main.Seed.{await_key_lem}

init-IsDealt : (seed : ℕ) (r : Random) → length r.bag ≡ 7 → IsDealt (shape_init (my_srand seed r))
unfolding shape_init my_srand
init-IsDealt seed r h = shuffle_bag-IsDealt (my_srand seed r) h

-- The state in which the loop of `main` begins.
pub record IsStarted (s : Game) : Type 0 where
  pub playing : s.game_state ≡ GameState.playing
  pub game : IsGame s
  pub score : s.grid.score ≡ 0
  pub lines_cleared : s.grid.lines_cleared ≡ 0
  pub level : s.grid.level ≡ 1

pub start_game-IsStarted :
    (seed : ℕ) (s : Game)
    → length s.random.bag ≡ 7
    → IsGrid s.grid
    → IsTopped s.grid
    → ((x y : ℕ) → x < 10 → y < 18 → grid_cell_occupied s.grid (pos x) (pos y) ≡ false)
    → (s.grid.score ≡ 0) × (s.grid.lines_cleared ≡ 0) × (s.grid.level ≡ 1)
    → IsStarted (start_game seed s)
unfolding start_game spawn_next
start_game-IsStarted seed s bag ok tops open_grid counters = record {
  playing = refl;
  game = record {
    board = spawn_next-IsBoard ready ok tops (rw placed.1 drawn.0) drawn.1 (omega arith);
    playable = λ _. record {
      fits = IsSpawned-empty s.grid ready.current_block placed.0 open_grid;
      low = spawned_low _ _ placed.0.top;
      turns = rw placed.2 (omega arith);
    };
  };
  score = counters.0;
  lines_cleared = counters.1;
  level = counters.2;
}
  where
    drawn :
        ((shape_random (shape_init (my_srand seed s.random))).0 < 7)
        × IsDealt (shape_random (shape_init (my_srand seed s.random))).1
    drawn = shape_random-IsDealt _ (init-IsDealt seed s.random bag)

    ready : Game
    ready = record s {
      random = (shape_random (shape_init (my_srand seed s.random))).1;
      current_block =
          grid_block_spawn s.grid s.current_block
            (shape_random (shape_init (my_srand seed s.random))).0;
      game_state = GameState.playing;
      soft_tick = 0;
      last_drop_time = 0;
      drop_interval = 2;
    }

    placed :
        IsSpawned ready.current_block
        × (ready.current_block.shape ≡ (shape_random (shape_init (my_srand seed s.random))).0)
        × (ready.current_block.rot ≡ 0)
    placed = grid_block_spawn-IsSpawned s.grid s.current_block _

-- Whatever the statics hold in their arrays of the declared sizes, if the first key comes after
-- `k` reads of the status then `main` reaches its loop, in a state where the game is played, the
-- invariant holds, the moving block fits, the score is 0 and the level is 1.
pub main_start-IsStarted :
    (fuel k : ℕ) (load : Loads) (s : Game)
    → IsSized s.grid
    → length s.random.bag ≡ 7
    → k < fuel
    → ((i : ℕ) → i < k → bit_and (load (s.reads + i)) 2 ≡ 0)
    → IsReady load (s.reads + k)
    → Returns IsStarted (main_start fuel load s)
unfolding main_start
main_start-IsStarted fuel k load s sized bag enough early ready =
    let (ok, tops, open_grid, score, lines, level) = grid_init-IsGrid s.grid sized in
    then_gives (await_key fuel load s.reads first_seed) _
      (await_key_lem fuel load s.reads first_seed k (omega arith) enough early ready)
      (λ r _. gives _ (start_game-IsStarted _ _ bag ok tops open_grid (score, lines, level)))
