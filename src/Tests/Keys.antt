-- ===== src/Tests/Keys.antt =====
-- The theorems on the keyboard at concrete inputs.
use mycpu_4soc_game_port.Common.{
  ℕ, zero, suc, ◌+◌, ◌≤◌, ◌<◌, bit_and, ◌≡◌, refl, inl, arith, [], ◌∷◌, get_or,
}
use mycpu_4soc_game_port.Tetris.Keys.{Loads, input_poll}
use mycpu_4soc_game_port.Tetris.Keys.Decode.{ArrowKey, input_poll_bound, Presses, input_poll-arrow}
use mycpu_4soc_game_port.Tests.Data.{holding_j}

input_poll_bound_example :
    (4 < (input_poll holding_j 4).1) × ((input_poll holding_j 4).1 ≤ 4 + 2006)
input_poll_bound_example = input_poll_bound holding_j 4

-- ESC, `[` after one empty read and `A` after two.
abbrev up_key : Loads
up_key n = get_or (2 ∷ 27 ∷ 0 ∷ 2 ∷ 2 ∷ b'[' ∷ 0 ∷ 0 ∷ 2 ∷ 2 ∷ b'A' ∷ []) n 0

first_early : (i : ℕ) → i < 1 → bit_and (up_key (2 + i)) 2 ≡ 0
first_early zero h = refl
first_early (suc i) h = absurd (omega arith)

second_early : (i : ℕ) → i < 2 → bit_and (up_key (6 + i)) 2 ≡ 0
second_early zero h = refl
second_early (suc zero) h = refl
second_early (suc (suc i)) h = absurd (omega arith)

up_key-ArrowKey : ArrowKey up_key 0 1 2
up_key-ArrowKey = record {
  first = omega arith;
  escaped = refl;
  second = record { soon = omega arith; early = first_early; ready = omega arith };
  stays = omega arith;
  bracket = inl refl;
  third = record { soon = omega arith; early = second_early; ready = omega arith };
  stays' = omega arith;
}

input_poll-arrow_example : Presses b'A' 11 (input_poll up_key 0)
input_poll-arrow_example = input_poll-arrow up_key 0 1 2 up_key-ArrowKey
