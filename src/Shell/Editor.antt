-- ===== src/Shell/Editor.antt =====
-- The line editor of 4-soc/csrc/shell.c: `uart_getc` and `read_line`. The input is the list of the
-- words that the reads of UART_RECV give, one for each byte that has arrived; on an empty list the
-- wait for a byte does not end, which is `none`. What is sent is a list of bytes.
pub mod Typing
pub mod Plain
use package.mycpu_4soc_game_port.Common.{
  ℕ, zero, suc, ◌+◌, ◌-◌, bit_and, Bool, ◌&&◌, ◌||◌, ltb, leb, ◌==◌, if◌then◌else◌, Option, none,
  some, ◌>>=◌, List, [], ◌∷◌, ◌++◌,
}
use package.mycpu_4soc_game_port.Common.Text.{crlf}
use package.mycpu_4soc_game_port.Shell.Buffer.{line_buf_size, Words, line_buf_write_byte}

-- The locals of `read_line`, the line buffer and what has been sent.
pub record Editor : Type 0 where
  pub len : ℕ
  pub words : Words
  pub sent : List ℕ

abbrev pub is_enter : ℕ → Bool
is_enter c = c == 13 || c == 10

abbrev pub is_backspace : ℕ → Bool
is_backspace c = c == 127 || c == 8

abbrev pub is_printable : ℕ → Bool
is_printable c = leb 32 c && ltb c 127

-- "\b \b"
abbrev pub rub_out : List ℕ
rub_out = 8 ∷ 32 ∷ 8 ∷ []

-- The round of the loop for a byte that does not end the line.
unfoldable pub edit_round : ℕ → Editor → Editor
edit_round c e =
    if is_backspace c
    then (if ltb 0 e.len then record e { len = e.len - 1; sent = e.sent ++ rub_out } else e)
    else if is_printable c && ltb e.len (line_buf_size - 1)
    then record {
      len = e.len + 1;
      words = line_buf_write_byte e.len c e.words;
      sent = e.sent ++ (c ∷ []);
    }
    else e

-- `line_buf_write_byte(len, '\0'); uart_puts("\r\n");`
unfoldable pub end_line : Editor → Editor
end_line e = record e { words = line_buf_write_byte e.len 0 e.words; sent = e.sent ++ crlf }

-- The loop: the state at the return, with its `len` as the result, and the input that is left.
unfoldable pub read_loop : List ℕ → Editor → Option (Editor × List ℕ)
read_loop [] e = none
read_loop (recv ∷ input) e =
    let c = bit_and recv 255 in
    let rest = read_loop input (edit_round c e) in
    if is_enter c then some (end_line e, input) else rest

unfoldable pub read_line : List ℕ → Words → List ℕ → Option (Editor × List ℕ)
read_line input words sent = read_loop input (record { len = 0; words = words; sent = sent })
