-- ===== src/Tetris/Main.antt =====
-- `main` of 4-soc/csrc/tetris/tetris.c: the seed, the start and the rounds of its loop. The texts that
-- it sends to the UART do not appear.
pub mod Seed
pub mod Start
pub mod Rounds
use package.mycpu_4soc_game_port.Common.{
  ℕ, zero, suc, ◌+◌, ◌*◌, ◌/◌, ◌^◌, bit_and, bit_or, bit_xor, Bool, true, false, not, ◌==◌, ltb,
  if◌then◌else◌, Option, none, some, ◌>>=◌, u32,
}
use package.mycpu_4soc_game_port.Common.Int.{ℤ, pos}
use package.mycpu_4soc_game_port.Tetris.Types.{Direction, GameState, Input}
use package.mycpu_4soc_game_port.Tetris.Bag.{Random, my_srand, shape_init, shape_random}
use package.mycpu_4soc_game_port.Tetris.Grid.{grid_init}
use package.mycpu_4soc_game_port.Tetris.Lines.{grid_clear_lines}
use package.mycpu_4soc_game_port.Tetris.Block.{
  grid_block_add, grid_block_drop, grid_block_move, grid_block_rotate, grid_block_spawn,
}
use package.mycpu_4soc_game_port.Tetris.Keys.{Loads, uart_has_data, input_poll}
use package.mycpu_4soc_game_port.Tetris.Game.{
  Game, is_playing, spawn_next, take_next, move_aside, add_score, reset_timer, is_drop_due,
}

-- `seed++; seed ^= (seed >> 7); seed ^= (seed << 3);`
unfoldable pub stir : ℕ → ℕ
stir seed =
    let s₁ = u32 (seed + 1) in let s₂ = bit_xor s₁ (s₁ / 2 ^ 7) in bit_xor s₂ (u32 (s₂ * 2 ^ 3))

-- `while (!(*UART_STATUS & 0x02))`: the seed and the number of the next read.
unfoldable pub await_key : ℕ → Loads → ℕ → ℕ → Option (ℕ × ℕ)
await_key zero load n seed = none
await_key (suc fuel) load n seed =
    let (ready, n') = uart_has_data load n in
    let rest = await_key fuel load n' (stir seed) in if ready then some (seed, n') else rest

-- The key and the last shifts, up to `if (seed == 0) seed = key | 0x12345;`.
unfoldable pub mix_key : ℕ → ℕ → ℕ
mix_key key seed =
    let s₁ =
      bit_xor (bit_xor (bit_xor (bit_xor seed key) (u32 (key * 2 ^ 8))) (u32 (key * 2 ^ 16)))
        (u32 (key * 2 ^ 24)) in
    let s₂ = bit_or (u32 (s₁ * 2 ^ 13)) (s₁ / 2 ^ 19) in
    let s₃ = bit_xor s₂ (s₂ / 2 ^ 17) in
    let s₄ = bit_xor s₃ (u32 (s₃ * 2 ^ 5)) in if s₄ == 0 then bit_or key 74565 else s₄

abbrev pub first_seed : ℕ
first_seed = 1515870810

-- From `my_srand(seed)` to the loop, on the grid that `grid_init` left.
unfoldable pub start_game : ℕ → Game → Game
start_game seed s =
    let (first, random) = shape_random (shape_init (my_srand seed s.random)) in
    let drawn = spawn_next (record s {
      random = random;
      current_block = grid_block_spawn s.grid s.current_block first;
    }) in
    record drawn {
      game_state = GameState.playing;
      soft_tick = 0;
      last_drop_time = 0;
      drop_interval = 2;
    }

-- All that happens before the loop, with `fuel` reads of the status at most.
unfoldable pub main_start : ℕ → Loads → Game → Option Game
main_start fuel load s = do
  (seed, n) ← await_key fuel load s.reads first_seed
  let s' = record s { grid = grid_init s.grid; reads = n + 1 }
  some (start_game (mix_key (bit_and (load n) 255) seed) s')

-- The four calls that follow a block that cannot go on; `drop_interval` is left as it is.
unfoldable pub main_lock : Game → Option Game
main_lock s = do
  (cleared, grid) ← grid_clear_lines (grid_block_add s.grid s.current_block)
  some (take_next (record s { grid = grid }))

unfoldable pub main_move_down : Game → Option Game
main_move_down s =
    let (free, block) = grid_block_move s.grid s.current_block Direction.down in
    let s' = record s { current_block = block } in if not free then main_lock s' else some s'

unfoldable pub main_hard_drop : Game → Option Game
main_hard_drop s = do
  (dist, block) ← grid_block_drop s.grid s.current_block
  locked ← main_lock (add_score (dist * 2) (record s { current_block = block }))
  some (reset_timer locked)

-- `while (1)` of the pause, for `fuel` polls at most.
unfoldable pub pause_loop : ℕ → Loads → Game → Option Game
pause_loop zero load s = none
pause_loop (suc fuel) load s =
    let (key, reads) = input_poll load s.reads in
    let s' = record s { reads = reads } in
    let rest = pause_loop fuel load s' in
    elim key [
      | Input.pause ↦ some (reset_timer s')
      | Input.quit ↦ some (record s' { game_state = GameState.over })
      | _ ↦ rest
    ]

unfoldable pub main_input : ℕ → Loads → Input → Game → Option Game
main_input fuel load Input.none s = some s
main_input fuel load Input.left s = some (move_aside Direction.left s)
main_input fuel load Input.right s = some (move_aside Direction.right s)
main_input fuel load Input.rotate s =
    some (record s { current_block = (grid_block_rotate s.grid s.current_block (pos 1)).1 })
main_input fuel load Input.soft_drop s = do
  moved ← main_move_down s
  some (reset_timer (add_score 1 moved))
main_input fuel load Input.hard_drop s = main_hard_drop s
main_input fuel load Input.pause s = pause_loop fuel load s
main_input fuel load Input.quit s = some (record s { game_state = GameState.over })

-- The rest of a round, after the key.
unfoldable pub main_gravity : Game → Option Game
main_gravity s =
    let ticked = record s { soft_tick = u32 (s.soft_tick + 1) } in
    if not (is_playing s.game_state)
    then some s
    else if is_drop_due ticked
    then main_move_down ticked >>= (λ moved. some (reset_timer moved))
    else some ticked

unfoldable pub main_round : ℕ → Loads → Game → Option Game
main_round fuel load s =
    let (key, reads) = input_poll load s.reads in
    main_input fuel load key (record s { reads = reads }) >>= main_gravity
