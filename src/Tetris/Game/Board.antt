-- ===== src/Tetris/Game/Board.antt =====
-- What holds of the game's statics between two operations.
use mycpu_4soc_game_port.Common.{ℕ, ◌<◌, ◌≡◌, ◌≢◌, refl, arith, Bool-cases, inl, inr}
use mycpu_4soc_game_port.Common.Int.{ℤ, pos, ◌≤ℤ◌, ◌+ℤ◌, int_laws}
use mycpu_4soc_game_port.Tetris.Types.{GameState}
use mycpu_4soc_game_port.Tetris.Bag.{shape_random}
use mycpu_4soc_game_port.Tetris.Bag.Deal.{IsDealt, shape_random-IsDealt}
use mycpu_4soc_game_port.Tetris.Grid.Inv.{IsGrid, IsTopped}
use mycpu_4soc_game_port.Tetris.Block.{grid_block_collides, grid_block_spawn}
use mycpu_4soc_game_port.Tetris.Block.Fits.{Fits}
use mycpu_4soc_game_port.Tetris.Block.Steer.{free-Fits}
use mycpu_4soc_game_port.Tetris.Block.Spawn.{IsSpawned, grid_block_spawn-IsSpawned}
use mycpu_4soc_game_port.Tetris.Game.{Game, spawn_next, take_next}

-- The grid is well formed with exact heights, both blocks are of the seven shapes, the bag is
-- dealt and the gravity timer is set.
pub record IsBoard (s : Game) : Type 0 where
  pub grid_ok : IsGrid s.grid
  pub tops : IsTopped s.grid
  pub current_shape : s.current_block.shape < 7
  pub next_shape : s.next_block.shape < 7
  pub dealt : IsDealt s.random
  pub timed : 0 < s.drop_interval

-- The moving block fits; it is not above the place of a new block.
pub record IsPlayable (s : Game) : Type 0 where
  pub fits : Fits s.grid s.current_block
  pub low : s.current_block.y ≤ℤ pos 18
  pub turns : s.current_block.rot < 256

-- Until the game is over the moving block fits.
pub record IsGame (s : Game) : Type 0 where
  pub board : IsBoard s
  pub playable : s.game_state ≢ GameState.over → IsPlayable s

spawn_next_lem :
    (s : Game)
    → ((spawn_next s).grid ≡ s.grid)
      × ((spawn_next s).current_block ≡ s.current_block)
      × ((spawn_next s).game_state ≡ s.game_state)
      × ((spawn_next s).drop_interval ≡ s.drop_interval)
unfolding spawn_next
spawn_next_lem s = (refl, refl, refl, refl)

spawn_next-shape : (s : Game) → (spawn_next s).next_block.shape ≡ (shape_random s.random).0
unfolding spawn_next
spawn_next-shape s = (grid_block_spawn-IsSpawned s.grid s.next_block (shape_random s.random).0).1

spawn_next-random : (s : Game) → (spawn_next s).random ≡ (shape_random s.random).1
unfolding spawn_next
spawn_next-random s = refl

pub spawn_next-IsBoard :
    (s : Game)
    → IsGrid s.grid
    → IsTopped s.grid
    → s.current_block.shape < 7
    → IsDealt s.random
    → 0 < s.drop_interval
    → IsBoard (spawn_next s)
spawn_next-IsBoard s ok tops shape dealt timed =
    let (grid, current, state, interval) = spawn_next_lem s in
    let (small, dealt') = shape_random-IsDealt s.random dealt in
    record {
      grid_ok = rw grid ok;
      tops = rw grid tops;
      current_shape = rw current shape;
      next_shape = rw (spawn_next-shape s) small;
      dealt = rw (spawn_next-random s) dealt';
      timed = rw interval timed;
    }

pub spawned_low : (b : ℤ) (h : ℕ) → b +ℤ pos h ≡ pos 18 → b ≤ℤ pos 18
spawned_low b h e = let sum : b +ℤ pos h ≤ℤ pos 18 = rw e (omega arith) in omega (int_laws)

-- The next block becomes the moving one, and the game is over if it does not fit.
pub take_next-IsGame : (s : Game) → IsBoard s → IsGame (take_next s)
unfolding take_next
take_next-IsGame s h = elim (Bool-cases (grid_block_collides drawn.grid drawn.current_block)) [
  | inl e ↦ rw e (record {
    board = record {
      grid_ok = board.grid_ok;
      tops = board.tops;
      current_shape = board.current_shape;
      next_shape = board.next_shape;
      dealt = board.dealt;
      timed = board.timed;
    };
    playable = λ ne. absurd (ne refl);
  })
  | inr e ↦ rw e (record {
    board = board;
    playable = λ _. record {
      fits = free-Fits drawn.grid drawn.current_block e;
      low = rw (spawn_next_lem entered).1 (spawned_low _ _ placed.0.top);
      turns = rw ((spawn_next_lem entered).1, placed.2) (omega arith);
    };
  })
]
  where
    entered : Game
    entered = record s { current_block = grid_block_spawn s.grid s.next_block s.next_block.shape }

    drawn : Game
    drawn = spawn_next entered

    placed :
        IsSpawned entered.current_block
        × (entered.current_block.shape ≡ s.next_block.shape)
        × (entered.current_block.rot ≡ 0)
    placed = grid_block_spawn-IsSpawned s.grid s.next_block s.next_block.shape

    board : IsBoard drawn
    board = spawn_next-IsBoard entered h.grid_ok h.tops (rw placed.1 h.next_shape) h.dealt h.timed
