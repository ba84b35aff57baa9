-- ===== src/Tests/Games.antt =====
-- The theorems on the game at concrete inputs.
use mycpu_4soc_game_port.Common.{
  ℕ, zero, suc, ◌+◌, ◌<◌, bit_and, ◌≡◌, ◌≢◌, refl, inl, arith, [], ◌∷◌, get_or,
}
use mycpu_4soc_game_port.Common.Outcome.{Returns}
use mycpu_4soc_game_port.Tetris.Types.{GameState}
use mycpu_4soc_game_port.Tetris.Keys.{Loads, input_poll, uart_has_data, letter}
use mycpu_4soc_game_port.Tetris.Game.{game_update, game_round, spawn_next}
use mycpu_4soc_game_port.Tetris.Game.Board.{IsGame}
use mycpu_4soc_game_port.Tetris.Game.Update.{game_update-IsGame}
use mycpu_4soc_game_port.Tetris.Game.Round.{
  Run, start, round, Sound, game_round-IsGame, game_loop-IsGame,
}
use mycpu_4soc_game_port.Tetris.Main.{start_game, main_start, main_round}
use mycpu_4soc_game_port.Tetris.Main.Start.{IsStarted, main_start-IsStarted}
use mycpu_4soc_game_port.Tetris.Main.Rounds.{Resumes, main_round-IsGame}
use mycpu_4soc_game_port.Tests.Data.{
  raw_game, raw_grid-IsSized, started, started-IsStarted, holding_j,
}

game_update-IsGame_example : Returns IsGame (game_update holding_j started)
game_update-IsGame_example = game_update-IsGame holding_j started started-IsStarted.game

-- The state after the first round.
first_round : Returns Sound (game_round holding_j (0, started))
first_round = game_round-IsGame holding_j (0, started) started-IsStarted.game

playing-not_over : (t : GameState) → t ≡ GameState.playing → t ≢ GameState.over
playing-not_over t e = ground arith

first-Run : Run holding_j (0, started) first_round.out
first-Run =
    round (0, started) first_round.out start (playing-not_over _ started-IsStarted.playing)
      first_round.returns

game_loop-IsGame_example :
    IsGame first_round.out.1 × Returns Sound (game_round holding_j first_round.out)
game_loop-IsGame_example =
    game_loop-IsGame holding_j (0, started) first_round.out started-IsStarted.game first-Run

-- No key at the first read of the status, and a key at the second.
abbrev late_key : Loads
late_key zero = 0
late_key (suc n) = b'r'

late_early : (i : ℕ) → i < 1 → bit_and (late_key (0 + i)) 2 ≡ 0
late_early zero h = refl
late_early (suc i) h = absurd (omega arith)

main_start-IsStarted_example : Returns IsStarted (main_start 5 late_key raw_game)
main_start-IsStarted_example =
    main_start-IsStarted 5 1 late_key raw_game raw_grid-IsSized refl (omega arith) late_early
      (omega arith)

-- The key `p` at the first two polls pauses the game and ends the pause.
abbrev pausing : Loads
pausing n = get_or (2 ∷ b'p' ∷ 2 ∷ b'p' ∷ []) n 0

second_key : Resumes pausing 4 (input_poll pausing started.reads).1
unfolding input_poll uart_has_data letter start_game spawn_next
second_key = inl refl

main_round-IsGame_example : Returns IsGame (main_round 4 pausing started)
main_round-IsGame_example =
    main_round-IsGame 4 pausing started started-IsStarted.game
      (playing-not_over _ started-IsStarted.playing) (λ e. second_key)
