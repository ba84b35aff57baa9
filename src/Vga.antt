-- ===== src/Vga.antt =====
-- The display of 4-soc/csrc/mmio.h: its registers, and the words of eight pixels that it takes. A
-- program's effect on it is the list of its register writes, each an address with a value.
pub mod Pack
use package.mycpu_4soc_game_port.Common.{
  ℕ, zero, suc, ◌+◌, ◌*◌, ◌^◌, bit_and, bit_or, List, [], ◌∷◌, get_or,
}

abbrev pub vga_expected_id : ℕ
vga_expected_id = 0x56474131

-- `VGA_PALETTE(n)`
abbrev pub vga_palette : ℕ → ℕ
vga_palette n = 536870948 + n * 4

-- Eight pixels of four bits in a word, from the frame buffer at `n` on.
unfoldable pub vga_pack8_pixels : List ℕ → ℕ → ℕ
vga_pack8_pixels fb n =
    let pixel : ℕ → ℕ = λ k. bit_and (get_or fb (n + k) 0) 15 * 2 ^ (4 * k) in
    bit_or
      (bit_or
        (bit_or
          (bit_or (bit_or (bit_or (bit_or (pixel 0) (pixel 1)) (pixel 2)) (pixel 3)) (pixel 4))
          (pixel 5))
        (pixel 6))
      (pixel 7)

abbrev pub vga_addr_upload_addr : ℕ
vga_addr_upload_addr = 536870928

abbrev pub vga_addr_stream_data : ℕ
vga_addr_stream_data = 536870932

abbrev pub vga_addr_ctrl : ℕ
vga_addr_ctrl = 536870944

-- The loop over the words of a frame, with the words that are left, from word `i` on: its writes.
unfoldable pub stream_words : ℕ → ℕ → List ℕ → List (ℕ × ℕ)
stream_words zero i fb = []
stream_words (suc left) i fb =
    (vga_addr_stream_data, vga_pack8_pixels fb (i * 8)) ∷ stream_words left (i + 1) fb
