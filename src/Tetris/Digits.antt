-- ===== src/Tetris/Digits.antt =====
-- The digits of 4-soc/csrc/tetris/tetris_draw.c, which nothing draws at present, the start of the screen
-- in its `draw_init`, and the printers of signed numbers of 4-soc/csrc/tetris/tetris_grid.c and
-- 4-soc/csrc/tetris/tetris_shape.c. What they send to the UART is a list of bytes.
pub mod Signed
use package.mycpu_4soc_game_port.Common.{
  ℕ, zero, suc, ◌-◌, ◌+◌, ◌*◌, ◌/◌, ◌%◌, ◌^◌, bit_and, Bool, not, ◌||◌, ◌==◌, if◌then◌else◌, List,
  [], ◌∷◌, ◌++◌, get_or, for_range,
}
use package.mycpu_4soc_game_port.Common.Int.{ℤ, pos, neg_part, pos_part, ◌+ℤ◌, ltb_ℤ}
use package.mycpu_4soc_game_port.Tetris.Draw.{Frame, fb_pixel, fb_clear}
use package.mycpu_4soc_game_port.Vga.{
  stream_words, vga_addr_upload_addr, vga_addr_ctrl, vga_palette,
}

-- `DIGIT_FONT[digit][row]`, with the left pixel in bit 2.
abbrev pub digit_font : List (List ℕ)
digit_font =
    (7 ∷ 5 ∷ 5 ∷ 5 ∷ 7 ∷ [])
    ∷ (2 ∷ 6 ∷ 2 ∷ 2 ∷ 7 ∷ [])
    ∷ (7 ∷ 1 ∷ 7 ∷ 4 ∷ 7 ∷ [])
    ∷ (7 ∷ 1 ∷ 7 ∷ 1 ∷ 7 ∷ [])
    ∷ (5 ∷ 5 ∷ 7 ∷ 1 ∷ 1 ∷ [])
    ∷ (7 ∷ 4 ∷ 7 ∷ 1 ∷ 7 ∷ [])
    ∷ (7 ∷ 4 ∷ 7 ∷ 5 ∷ 7 ∷ [])
    ∷ (7 ∷ 1 ∷ 1 ∷ 1 ∷ 1 ∷ [])
    ∷ (7 ∷ 5 ∷ 7 ∷ 5 ∷ 7 ∷ [])
    ∷ (7 ∷ 5 ∷ 7 ∷ 1 ∷ 7 ∷ [])
    ∷ []

unfoldable pub fb_digit : ℤ → ℤ → ℤ → ℕ → Frame → Frame
fb_digit x y digit color fb =
    if ltb_ℤ digit (pos 0) || ltb_ℤ (pos 9) digit
    then fb
    else for_range 5 0
        (λ row. for_range 3 0 (λ col fb.
          if bit_and (get_or (get_or digit_font (pos_part digit) []) row 0) (2 ^ (2 - col)) == 0
          then fb
          else fb_pixel (x +ℤ pos col) (y +ℤ pos row) color fb))
        fb

-- The digits of `num`, at most `left` of them, the highest first.
unfoldable pub collect_digits : ℕ → ℕ → List ℕ → List ℕ
collect_digits zero num digits = digits
collect_digits (suc left) num digits =
    let rest = collect_digits left (num / 10) ((num % 10) ∷ digits) in
    if num == 0 then digits else rest

-- `for (i = count - 1; i >= 0; i--) { fb_digit(x, y, digits[i], color); x += 4; }`
unfoldable pub draw_digits : ℤ → ℤ → List ℕ → ℕ → Frame → Frame
draw_digits x y [] color fb = fb
draw_digits x y (d ∷ ds) color fb =
    draw_digits (x +ℤ pos 4) y ds color (fb_digit x y (pos d) color fb)

unfoldable pub fb_number : ℤ → ℤ → ℕ → ℕ → Frame → Frame
fb_number x y num color fb =
    if num == 0
    then fb_digit x y (pos 0) color fb
    else draw_digits x y (collect_digits 10 num []) color fb

abbrev pub palette_writes : List (ℕ × ℕ)
palette_writes =
    (vga_palette 0, 0)
    ∷ (vga_palette 1, 47)
    ∷ (vga_palette 2, 60)
    ∷ (vga_palette 3, 35)
    ∷ (vga_palette 4, 12)
    ∷ (vga_palette 5, 48)
    ∷ (vga_palette 6, 3)
    ∷ (vga_palette 7, 52)
    ∷ (vga_palette 8, 21)
    ∷ (vga_palette 9, 63)
    ∷ []

-- The frame after `draw_init`, and the register writes that it makes, in order.
unfoldable pub draw_init : Frame → Frame × List (ℕ × ℕ)
draw_init fb =
    let cleared = fb_clear fb in
    (
      cleared,
      palette_writes
          ++ ((vga_addr_upload_addr, 0) ∷ [])
          ++ stream_words 512 0 cleared
          ++ ((vga_addr_ctrl, 1) ∷ []),
    )

-- `hex[(v >> 4) & 0xF]` and `hex[v & 0xF]`
abbrev pub hex_digits : List ℕ
hex_digits =
    b'0' ∷ b'1' ∷ b'2' ∷ b'3' ∷ b'4' ∷ b'5' ∷ b'6' ∷ b'7' ∷ b'8' ∷ b'9' ∷ b'A' ∷ b'B' ∷ b'C' ∷ b'D'
    ∷ b'E' ∷ b'F' ∷ []

unfoldable pub gba_put_hex8 : ℕ → List ℕ
gba_put_hex8 v = get_or hex_digits (bit_and (v / 16) 15) 0 ∷ get_or hex_digits (bit_and v 15) 0 ∷ []

-- `while (v > 0) { buf[i++] = '0' + (v % 10); v = v / 10; }` with the buffer, which has 12 places,
-- the latest first.
unfoldable pub signed_digits : ℕ → ℕ → List ℕ → List ℕ
signed_digits zero v buf = buf
signed_digits (suc places) v buf =
    let rest = signed_digits places (v / 10) ((b'0' + v % 10) ∷ buf) in if v == 0 then buf else rest

-- What `gba_put_int` sends; the negation of the least `int` is not defined.
unfoldable pub gba_put_int : ℤ → List ℕ
gba_put_int v =
    let size = pos_part v + neg_part v in
    if size == 0
    then b'0' ∷ []
    else (if ltb_ℤ v (pos 0) then b'-' ∷ [] else []) ++ signed_digits 12 size []

-- `sgc_put_int` is the same code again.
unfoldable pub sgc_put_int : ℤ → List ℕ
sgc_put_int v =
    let size = pos_part v + neg_part v in
    if size == 0
    then b'0' ∷ []
    else (if ltb_ℤ v (pos 0) then b'-' ∷ [] else []) ++ signed_digits 12 size []
