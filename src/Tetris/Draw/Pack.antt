-- ===== src/Tetris/Draw/Pack.antt =====
-- The packed words that `draw_swap_buffers` sends to the display.
use mycpu_4soc_game_port.Common.{
  ℕ, suc, ◌+◌, ◌*◌, ◌/◌, ◌%◌, ◌^◌, ◌<◌, ◌≡◌, refl, ap, ◌∙◌, arith, [], ◌∷◌, get_or,
}
use mycpu_4soc_game_port.Vga.{vga_addr_stream_data, vga_addr_upload_addr, vga_addr_ctrl}
use mycpu_4soc_game_port.Vga.Pack.{vga_pack8_pixels-nibble, stream_words_at}
use mycpu_4soc_game_port.Tetris.Draw.{Frame, swap_writes}

-- The writes of a frame start with the upload address 0; each pixel of the frame, cut to four
-- bits, is in the word and at the place in it that its number gives, eight to a word.
pub swap_writes_lem :
    (fb : Frame) (p : ℕ)
    → p < 4096
    → (get_or (swap_writes fb) 0 (0, 0) ≡ (vga_addr_upload_addr, 0))
      × ((get_or (swap_writes fb) (suc (p / 8)) (0, 0)).0 ≡ vga_addr_stream_data)
      × ((get_or (swap_writes fb) (suc (p / 8)) (0, 0)).1 / 2 ^ (4 * (p % 8)) % 16
          ≡ get_or fb p 0 % 16)
unfolding swap_writes
swap_writes_lem fb p h =
    let word = stream_words_at 512 0 (p / 8) fb ((vga_addr_ctrl, 1) ∷ []) (omega arith) in
    let place : (0 + p / 8) * 8 + p % 8 ≡ p = omega arith in
    (
      refl,
      ap (λ w. w.0) word,
      ap (λ w. w.1 / 2 ^ (4 * (p % 8)) % 16) word
          ∙ vga_pack8_pixels-nibble fb ((0 + p / 8) * 8) (p % 8) (omega arith)
          ∙ ap (λ k. get_or fb k 0 % 16) place,
    )
