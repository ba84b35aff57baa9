-- ===== src/Tetris/Game/Update.antt =====
-- `game_update`: one key and one step of gravity.
use mycpu_4soc_game_port.Common.{◌≡◌, ◌≢◌, arith, true, Bool-cases, inl, inr}
use mycpu_4soc_game_port.Common.Int.{pos, ◌≤ℤ◌}
use mycpu_4soc_game_port.Common.Outcome.{Returns, gives, then_gives}
use mycpu_4soc_game_port.Tetris.Types.{Direction, GameState, Input}
use mycpu_4soc_game_port.Tetris.Block.{step_of}
use mycpu_4soc_game_port.Tetris.Keys.{Loads, input_poll}
use mycpu_4soc_game_port.Tetris.Game.{
  Game, is_playing, move_aside, apply_input, is_drop_due, gravity, game_update,
}
use mycpu_4soc_game_port.Tetris.Game.Board.{IsGame}
use mycpu_4soc_game_port.Tetris.Game.Moves.{
  state-IsBoard, quit-IsGame, score-IsGame, clocks-IsGame, move-IsGame, move_down-IsGame,
  rotate-IsGame, hard_drop-IsGame,
}

pub aside-IsGame :
    (dir : Direction) (s : Game) → IsGame s → (step_of dir).1 ≤ℤ pos 0 → IsGame (move_aside dir s)
unfolding move_aside
aside-IsGame dir s h down = move-IsGame s dir h down

-- Whatever key is pressed in a game that is not over, the `switch` of `game_update` returns and
-- keeps the game's invariant.
pub apply_input-IsGame :
    (key : Input) (s : Game)
    → IsGame s
    → s.game_state ≢ GameState.over
    → Returns IsGame (apply_input key s)
unfolding apply_input
apply_input-IsGame Input.none s h ne = gives s h
apply_input-IsGame Input.left s h ne =
    gives _ (aside-IsGame Direction.left s h (unfold step_of in omega arith))
apply_input-IsGame Input.right s h ne =
    gives _ (aside-IsGame Direction.right s h (unfold step_of in omega arith))
apply_input-IsGame Input.rotate s h ne = gives _ (rotate-IsGame s h ne)
apply_input-IsGame Input.soft_drop s h ne =
    then_gives _ _ (move_down-IsGame s h)
      (λ x ok. gives _ (clocks-IsGame _ x.soft_tick x.reads x.soft_tick (score-IsGame 1 x ok)))
apply_input-IsGame Input.hard_drop s h ne = hard_drop-IsGame s h ne
apply_input-IsGame Input.pause s h ne = gives _ (record {
  board = state-IsBoard GameState.paused s h.board;
  playable = λ _. let p = h.playable ne in record { fits = p.fits; low = p.low; turns = p.turns };
})
apply_input-IsGame Input.quit s h ne = gives _ (quit-IsGame s h)

gravity-IsGame : (s : Game) → IsGame s → Returns IsGame (gravity s)
unfolding gravity
gravity-IsGame s h = elim (Bool-cases (is_drop_due s)) [
  | inl e ↦ rw e (
      then_gives _ _ (move_down-IsGame s h)
        (λ x ok. gives _ (clocks-IsGame x x.soft_tick x.reads x.soft_tick ok)))
  | inr e ↦ rw e (gives s h)
]

playing-not_over : (t : GameState) → is_playing t ≡ true → t ≢ GameState.over
playing-not_over t e = ground arith

-- Whatever the UART delivers, `game_update` returns and keeps the game's invariant: the grid stays
-- well formed with exact heights, and until the game is over the moving block fits.
pub game_update-IsGame : (load : Loads) (s : Game) → IsGame s → Returns IsGame (game_update load s)
unfolding game_update
game_update-IsGame load s h = elim (Bool-cases (is_playing s.game_state)) [
  | inl e ↦
      let (key, reads) = input_poll load s.reads in
      rw e (
        then_gives _ _
          (apply_input-IsGame key (record s { reads = reads })
            (clocks-IsGame s s.last_drop_time reads s.soft_tick h)
            (playing-not_over s.game_state e))
          gravity-IsGame)
  | inr e ↦ rw e (gives s h)
]
