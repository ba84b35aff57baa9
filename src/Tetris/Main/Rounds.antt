-- ===== src/Tetris/Main/Rounds.antt =====
-- The rounds of the loop in `main`.
use mycpu_4soc_game_port.Common.{
  ℕ, zero, suc, ◌+◌, ◌≡◌, ◌≢◌, ◌⊎◌, refl, arith, Bool-cases, inl, inr, Option, some, u32, ◌*◌,
}
use mycpu_4soc_game_port.Common.Outcome.{Returns, gives, then_gives}
use mycpu_4soc_game_port.Tetris.Types.{Direction, GameState, Input}
use mycpu_4soc_game_port.Tetris.Lines.{grid_clear_lines}
use mycpu_4soc_game_port.Tetris.Block.{step_of, grid_block_add, grid_block_move}
use mycpu_4soc_game_port.Tetris.Block.Place.{grid_cell_occupied-grid_block_add}
use mycpu_4soc_game_port.Tetris.Block.Drop.{fallen, grid_block_drop-Drops}
use mycpu_4soc_game_port.Tetris.Keys.{Loads, input_poll}
use mycpu_4soc_game_port.Tetris.Game.{Game, is_playing, is_drop_due, reset_timer}
use mycpu_4soc_game_port.Tetris.Game.Board.{IsBoard, IsGame, take_next-IsGame}
use mycpu_4soc_game_port.Tetris.Game.Lock.{cleared-IsSound}
use mycpu_4soc_game_port.Tetris.Game.Moves.{
  put_block, quit-IsGame, put_block-IsBoard, score-IsBoard, score-IsGame, clocks-IsGame,
  move-IsGame, rotate-IsGame,
}
use mycpu_4soc_game_port.Tetris.Game.Update.{aside-IsGame}
use mycpu_4soc_game_port.Tetris.Main.{
  main_lock, main_move_down, main_hard_drop, pause_loop, main_input, main_gravity, main_round,
}

main_lock-IsGame : (s : Game) → IsBoard s → Returns IsGame (main_lock s)
unfolding main_lock
main_lock-IsGame s h =
    let added = grid_cell_occupied-grid_block_add s.grid s.current_block h.grid_ok h.tops in
    then_gives (grid_clear_lines (grid_block_add s.grid s.current_block)) _
      (cleared-IsSound (grid_block_add s.grid s.current_block) added.1 added.2)
      (λ r sound. gives _ (
        take_next-IsGame _ (record {
          grid_ok = sound.0;
          tops = sound.1;
          current_shape = h.current_shape;
          next_shape = h.next_shape;
          dealt = h.dealt;
          timed = h.timed;
        })))

main_move_down-IsGame : (s : Game) → IsGame s → Returns IsGame (main_move_down s)
unfolding main_move_down
main_move_down-IsGame s h =
    elim (Bool-cases (grid_block_move s.grid s.current_block Direction.down).0) [
      | inl e ↦ rw e (gives _ lowered)
      | inr e ↦ rw e (main_lock-IsGame _ lowered.board)
    ]
  where
    lowered : IsGame (put_block s (grid_block_move s.grid s.current_block Direction.down).1)
    lowered = move-IsGame s Direction.down h (unfold step_of in omega arith)

main_hard_drop-IsGame :
    (s : Game) → IsGame s → s.game_state ≢ GameState.over → Returns IsGame (main_hard_drop s)
unfolding main_hard_drop
main_hard_drop-IsGame s h ne =
    let d =
      grid_block_drop-Drops s.grid s.current_block (h.playable ne).fits
        (omega (arith, h.playable ne)) in
    rw d.result (
      then_gives _ _
        (main_lock-IsGame _ (
          score-IsBoard (d.fall * 2) (put_block s (fallen d.fall s.current_block))
            (put_block-IsBoard s (fallen d.fall s.current_block) h.board h.board.current_shape)))
        (λ x ok. gives _ (clocks-IsGame x x.soft_tick x.reads x.soft_tick ok)))

-- One of the first `fuel` keys from read `n` on ends a pause.
abbrev pub Resumes : Loads → ℕ → ℕ → Type 0
Resumes load zero n = ⊥
Resumes load (suc fuel) n =
    let (key, n') = input_poll load n in
    (key ≡ Input.pause) ⊎ (key ≡ Input.quit) ⊎ Resumes load fuel n'

by_key :
    (key : Input) (s : Game) (rest : Option Game)
    → IsGame s
    → ((key ≢ Input.pause) → (key ≢ Input.quit) → Returns IsGame rest)
    → Returns IsGame (elim key [
      | Input.pause ↦ some (reset_timer s)
      | Input.quit ↦ some (record s { game_state = GameState.over })
      | _ ↦ rest
    ])
by_key Input.pause s rest h go = gives _ (clocks-IsGame s s.soft_tick s.reads s.soft_tick h)
by_key Input.quit s rest h go = gives _ (quit-IsGame s h)
by_key Input.none s rest h go = go (λ e. absurd (ground arith)) (λ e. absurd (ground arith))
by_key Input.left s rest h go = go (λ e. absurd (ground arith)) (λ e. absurd (ground arith))
by_key Input.right s rest h go = go (λ e. absurd (ground arith)) (λ e. absurd (ground arith))
by_key Input.rotate s rest h go = go (λ e. absurd (ground arith)) (λ e. absurd (ground arith))
by_key Input.soft_drop s rest h go = go (λ e. absurd (ground arith)) (λ e. absurd (ground arith))
by_key Input.hard_drop s rest h go = go (λ e. absurd (ground arith)) (λ e. absurd (ground arith))

pause_loop-IsGame :
    (fuel : ℕ) (load : Loads) (s : Game)
    → IsGame s
    → Resumes load fuel s.reads
    → Returns IsGame (pause_loop fuel load s)
unfolding pause_loop
pause_loop-IsGame zero load s h r = absurd r
pause_loop-IsGame (suc fuel) load s h r =
    let (key, reads) = input_poll load s.reads in
    let s' = record s { reads = reads } in
    let h' : IsGame s' = clocks-IsGame s s.last_drop_time reads s.soft_tick h in
    by_key key s' (pause_loop fuel load s') h' (λ no_pause no_quit. elim r [
      | inl e ↦ absurd (no_pause e)
      | inr (inl e) ↦ absurd (no_quit e)
      | inr (inr later) ↦ pause_loop-IsGame fuel load s' h' later
    ])

main_input-IsGame :
    (fuel : ℕ) (load : Loads) (key : Input) (s : Game)
    → IsGame s
    → s.game_state ≢ GameState.over
    → (key ≡ Input.pause → Resumes load fuel s.reads)
    → Returns IsGame (main_input fuel load key s)
unfolding main_input
main_input-IsGame fuel load Input.none s h ne r = gives s h
main_input-IsGame fuel load Input.left s h ne r =
    gives _ (aside-IsGame Direction.left s h (unfold step_of in omega arith))
main_input-IsGame fuel load Input.right s h ne r =
    gives _ (aside-IsGame Direction.right s h (unfold step_of in omega arith))
main_input-IsGame fuel load Input.rotate s h ne r = gives _ (rotate-IsGame s h ne)
main_input-IsGame fuel load Input.soft_drop s h ne r =
    then_gives _ _ (main_move_down-IsGame s h)
      (λ x ok. gives _ (clocks-IsGame _ x.soft_tick x.reads x.soft_tick (score-IsGame 1 x ok)))
main_input-IsGame fuel load Input.hard_drop s h ne r = main_hard_drop-IsGame s h ne
main_input-IsGame fuel load Input.pause s h ne r = pause_loop-IsGame fuel load s h (r refl)
main_input-IsGame fuel load Input.quit s h ne r = gives _ (quit-IsGame s h)

main_gravity-IsGame : (s : Game) → IsGame s → Returns IsGame (main_gravity s)
unfolding main_gravity
main_gravity-IsGame s h = elim (Bool-cases (is_playing s.game_state)) [
  | inr e ↦ rw e (gives s h)
  | inl e ↦ elim (Bool-cases (is_drop_due ticked)) [
    | inl due ↦
        rw (e, due)
          (then_gives _ _ (main_move_down-IsGame ticked ok)
            (λ x ok'. gives _ (clocks-IsGame x x.soft_tick x.reads x.soft_tick ok')))
    | inr early ↦ rw (e, early) (gives ticked ok)
  ]
]
  where
    ticked : Game
    ticked = record s { soft_tick = u32 (s.soft_tick + 1) }

    ok : IsGame ticked
    ok = clocks-IsGame s s.last_drop_time s.reads (u32 (s.soft_tick + 1)) h

-- Whatever the UART delivers, a round of the loop in `main`, made while the game is not over, returns
-- and keeps the game's invariant; if its key is pause, this needs that one of the next `fuel` keys
-- ends the pause.
pub main_round-IsGame :
    (fuel : ℕ) (load : Loads) (s : Game)
    → IsGame s
    → s.game_state ≢ GameState.over
    → ((input_poll load s.reads).0 ≡ Input.pause → Resumes load fuel (input_poll load s.reads).1)
    → Returns IsGame (main_round fuel load s)
unfolding main_round
main_round-IsGame fuel load s h ne resumes =
    let (key, reads) = input_poll load s.reads in
    then_gives _ _
      (main_input-IsGame fuel load key (record s { reads = reads })
        (clocks-IsGame s s.last_drop_time reads s.soft_tick h) ne resumes)
      main_gravity-IsGame
