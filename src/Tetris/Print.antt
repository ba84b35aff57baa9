-- ===== src/Tetris/Print.antt =====
-- The text that 4-soc/csrc/tetris/tetris.c sends to the terminal: `uart_puts`, `uart_put_number` and
-- `print_score_to_terminal`. `sent` is what has been sent, in order; the transmitter is taken to
-- become ready. `char` values are ASCII codes.
pub mod Decimal
pub mod Score
use package.mycpu_4soc_game_port.Common.{
  ℕ, zero, suc, ◌+◌, ◌/◌, ◌%◌, Bool, true, false, ◌&&◌, ◌==◌, if◌then◌else◌, List, [], ◌∷◌, ◌++◌,
}

-- `while (num > 0 && i < 11) { buf[i++] = '0' + (num % 10); num /= 10; }` with `left` places left;
-- the buffer, the latest first, is what the second loop sends.
unfoldable pub digits_of : ℕ → ℕ → List ℕ → List ℕ
digits_of zero num out = out
digits_of (suc left) num out =
    let rest = digits_of left (num / 10) ((b'0' + num % 10) ∷ out) in if num == 0 then out else rest

-- What `uart_put_number` sends.
unfoldable pub uart_put_number : ℕ → List ℕ
uart_put_number num = if num == 0 then b'0' ∷ [] else digits_of 11 num []

-- `last_printed_score`, `last_printed_lines` and `last_printed_level`, and what has been sent.
pub record Terminal : Type 0 where
  pub score : ℕ
  pub lines : ℕ
  pub level : ℕ
  pub sent : List ℕ

abbrev text_score : List ℕ
text_score = 13 ∷ b'[' ∷ b'S' ∷ b'c' ∷ b'o' ∷ b'r' ∷ b'e' ∷ b':' ∷ b' ' ∷ []

abbrev text_lines : List ℕ
text_lines = b' ' ∷ b'L' ∷ b'i' ∷ b'n' ∷ b'e' ∷ b's' ∷ b':' ∷ b' ' ∷ []

abbrev text_level : List ℕ
text_level = b' ' ∷ b'L' ∷ b'v' ∷ b':' ∷ b' ' ∷ []

abbrev text_end : List ℕ
text_end = b']' ∷ b' ' ∷ b' ' ∷ b' ' ∷ []

-- The line of the score.
abbrev pub score_line : ℕ → ℕ → ℕ → List ℕ
score_line score lines level =
    text_score
    ++ uart_put_number score
    ++ text_lines
    ++ uart_put_number lines
    ++ text_level
    ++ uart_put_number level
    ++ text_end

unfoldable pub print_score_to_terminal : ℕ → ℕ → ℕ → Terminal → Terminal
print_score_to_terminal score lines level t =
    if score == t.score && lines == t.lines && level == t.level then t else record {
      score = score;
      lines = lines;
      level = level;
      sent = t.sent ++ score_line score lines level;
    }
