-- ===== src/Shell/Buffer.antt =====
-- The line buffer of 4-soc/csrc/shell.c: 21 words of 32 bits that the shell also reads as bytes.
pub mod Join
pub mod Write
use package.mycpu_4soc_game_port.Common.{
  ℕ, zero, suc, ◌+◌, ◌-◌, ◌*◌, ◌/◌, ◌%◌, ◌^◌, bit_and, bit_or, List, [], ◌∷◌, get_or, set, u32,
}

abbrev pub line_buf_size : ℕ
line_buf_size = 80

-- `unsigned int line_buf_words[LINE_BUF_SIZE / 4 + 1]`
abbrev pub Words : Type 0
Words = List ℕ

abbrev pub line_buf_length : ℕ
line_buf_length = line_buf_size / 4 + 1

-- `((char *) line_buf_words)`: the bytes of the words, the lowest first.
unfoldable pub line_buf : Words → List ℕ
line_buf [] = []
line_buf (w ∷ ws) =
    w % 2 ^ 8 ∷ w / 2 ^ 8 % 2 ^ 8 ∷ w / 2 ^ 16 % 2 ^ 8 ∷ w / 2 ^ 24 % 2 ^ 8 ∷ line_buf ws

-- `~(0xFF << byte_pos)`
abbrev pub byte_mask : ℕ → ℕ
byte_mask byte_pos = 2 ^ 32 - 1 - u32 (255 * 2 ^ byte_pos)

-- `(word & mask) | ((unsigned int) val << byte_pos)`
unfoldable pub insert_byte : ℕ → ℕ → ℕ → ℕ
insert_byte byte_pos val word =
    bit_or (bit_and word (byte_mask byte_pos)) (u32 (val * 2 ^ byte_pos))

unfoldable pub line_buf_write_byte : ℕ → ℕ → Words → Words
line_buf_write_byte index val ws =
    let word_idx = index / 4 in
    let byte_pos = bit_and index 3 * 2 ^ 3 in
    set ws word_idx (insert_byte byte_pos val (get_or ws word_idx 0))
