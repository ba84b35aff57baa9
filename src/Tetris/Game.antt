-- ===== src/Tetris/Game.antt =====
-- The game of 4-soc/csrc/tetris/tetris.c from `get_drop_interval` to `game_loop`. The statics are the
-- fields of one record; `reads` numbers the UART reads of `input_poll`. Drawing writes only to the
-- screen, so it does not appear. `none` stands for a loop that does not end.
pub mod Speed
pub mod Board
pub mod Lock
pub mod Moves
pub mod Update
pub mod Round
use package.mycpu_4soc_game_port.Common.{
  ℕ, ◌+◌, ◌-◌, ◌*◌, ◌%◌, ◌^◌, Bool, true, false, not, ◌==◌, ltb, leb, if◌then◌else◌, Option, none,
  some, ◌>>=◌, List, [], ◌∷◌, get_or, u32,
}
use package.mycpu_4soc_game_port.Common.Int.{ℤ, pos}
use package.mycpu_4soc_game_port.Tetris.Types.{Grid, Block, Direction, GameState, Input}
use package.mycpu_4soc_game_port.Tetris.Bag.{Random, my_srand, shape_random}
use package.mycpu_4soc_game_port.Tetris.Grid.{grid_init}
use package.mycpu_4soc_game_port.Tetris.Lines.{grid_clear_lines}
use package.mycpu_4soc_game_port.Tetris.Block.{
  grid_block_collides, grid_block_add, grid_block_drop, grid_block_move, grid_block_rotate,
  grid_block_spawn,
}
use package.mycpu_4soc_game_port.Tetris.Keys.{Loads, input_poll}

pub record Game : Type 0 where
  pub grid : Grid
  pub current_block : Block
  pub next_block : Block
  pub game_state : GameState
  pub last_drop_time : ℕ  -- uint32_t
  pub drop_interval : ℕ  -- uint32_t
  pub soft_tick : ℕ  -- uint32_t
  pub random : Random
  pub reads : ℕ

abbrev pub level_speeds : List ℕ
level_speeds =
    48 ∷ 43 ∷ 38 ∷ 33 ∷ 28 ∷ 23 ∷ 18 ∷ 13 ∷ 8 ∷ 6 ∷ 5 ∷ 5 ∷ 5 ∷ 4 ∷ 4 ∷ 4 ∷ 3 ∷ 3 ∷ 3 ∷ 2 ∷ 2 ∷ []

-- `if (level > 20) level = 20; if (level < 1) level = 1;`
abbrev pub clamp_level : ℕ → ℕ
clamp_level level = let low = if ltb 20 level then 20 else level in if ltb low 1 then 1 else low

unfoldable pub get_drop_interval : ℕ → ℕ
get_drop_interval level = get_or level_speeds (clamp_level level - 1) 0

abbrev pub is_playing : GameState → Bool
is_playing GameState.playing = true
is_playing GameState.paused = false
is_playing GameState.over = false

-- `shape = shape_random(); grid_block_spawn(&grid, &next_block, shape);`
unfoldable pub spawn_next : Game → Game
spawn_next s =
    let (shape, random) = shape_random s.random in
    record s { next_block = grid_block_spawn s.grid s.next_block shape; random = random }

unfoldable pub game_init : Game → Game
game_init s =
    let grid = grid_init s.grid in
    let (first, random) = shape_random (my_srand 12345 s.random) in
    let drawn = spawn_next (record s {
      grid = grid;
      random = random;
      current_block = grid_block_spawn grid s.current_block first;
    }) in
    record drawn {
      game_state = GameState.playing;
      last_drop_time = s.soft_tick;
      drop_interval = get_drop_interval grid.level;
    }

-- `current_block = next_block;`, the two spawns and the test that ends the game.
unfoldable pub take_next : Game → Game
take_next s =
    let block = grid_block_spawn s.grid s.next_block s.next_block.shape in
    let drawn = spawn_next (record s { current_block = block }) in
    if grid_block_collides drawn.grid drawn.current_block
    then record drawn { game_state = GameState.over }
    else drawn

unfoldable pub lock_block_and_spawn_next : Game → Option Game
lock_block_and_spawn_next s = do
  (cleared, grid) ← grid_clear_lines (grid_block_add s.grid s.current_block)
  let interval = if ltb 0 cleared then get_drop_interval grid.level else s.drop_interval
  some (take_next (record s { grid = grid; drop_interval = interval }))

-- `if (!grid_block_move(&grid, &current_block, DIR_DOWN)) lock_block_and_spawn_next();`
unfoldable pub move_down : Game → Option Game
move_down s =
    let (free, block) = grid_block_move s.grid s.current_block Direction.down in
    let s' = record s { current_block = block } in
    if not free then lock_block_and_spawn_next s' else some s'

unfoldable pub move_aside : Direction → Game → Game
move_aside dir s = record s { current_block = (grid_block_move s.grid s.current_block dir).1 }

-- `grid.score += n;`
abbrev pub add_score : ℕ → Game → Game
add_score n s = record s { grid = record s.grid { score = u32 (s.grid.score + n) } }

abbrev pub reset_timer : Game → Game
reset_timer s = record s { last_drop_time = s.soft_tick }

unfoldable pub hard_drop : Game → Option Game
hard_drop s = do
  (dist, block) ← grid_block_drop s.grid s.current_block
  locked ← lock_block_and_spawn_next (add_score (dist * 2) (record s { current_block = block }))
  some (reset_timer locked)

-- The `switch` of `game_update`.
unfoldable pub apply_input : Input → Game → Option Game
apply_input Input.none s = some s
apply_input Input.left s = some (move_aside Direction.left s)
apply_input Input.right s = some (move_aside Direction.right s)
apply_input Input.rotate s =
    some (record s { current_block = (grid_block_rotate s.grid s.current_block (pos 1)).1 })
apply_input Input.soft_drop s = do moved ← move_down s; some (reset_timer (add_score 1 moved))
apply_input Input.hard_drop s = hard_drop s
apply_input Input.pause s = some (record s { game_state = GameState.paused })
apply_input Input.quit s = some (record s { game_state = GameState.over })

-- `if (current_time - last_drop_time >= drop_interval)`, on `uint32_t`.
unfoldable pub is_drop_due : Game → Bool
is_drop_due s = leb s.drop_interval (u32 (s.soft_tick + 2 ^ 32 - s.last_drop_time % 2 ^ 32))

unfoldable pub gravity : Game → Option Game
gravity s = if is_drop_due s then move_down s >>= (λ moved. some (reset_timer moved)) else some s

unfoldable pub game_update : Loads → Game → Option Game
game_update load s =
    if not (is_playing s.game_state)
    then some s
    else (let (input, reads) = input_poll load s.reads in
        apply_input input (record s { reads = reads }) >>= gravity)

-- The paused branch of `game_loop`.
unfoldable pub poll_paused : Loads → Game → Game
poll_paused load s =
    let (input, reads) = input_poll load s.reads in
    let s' = record s { reads = reads } in
    elim input [
      | Input.pause ↦ reset_timer (record s' { game_state = GameState.playing })
      | Input.quit ↦ record s' { game_state = GameState.over }
      | _ ↦ s'
    ]

-- One round of the loop of `game_loop`, with its counter.
unfoldable pub game_round : Loads → ℕ × Game → Option (ℕ × Game)
game_round load (counter, s) = do
  (counter', s') ← elim s.game_state [
    | GameState.playing ↦ do
      updated ← game_update load s
      let next = u32 (counter + 1)
      moved ← if next % 50000 == 0 then move_down updated else some updated
      some (next, moved)
    | GameState.paused ↦ some (counter, poll_paused load s)
    | GameState.over ↦ some (counter, s)
  ]
  some (counter', record s' { soft_tick = u32 (s'.soft_tick + 1) })
