-- ===== src/Trex/Frames.antt =====
-- The ground line of 4-soc/csrc/trex/draw.c and the register writes with which it sends the frame.
use mycpu_4soc_game_port.Common.{
  ℕ, ◌+◌, ◌*◌, ◌^◌, bit_or, ◌&&◌, if◌then◌else◌, List, [], ◌∷◌, ◌++◌, set, for_range, u32,
}
use mycpu_4soc_game_port.Common.Int.{ℤ, pos, pos_part, ◌+ℤ◌, leb_ℤ, ltb_ℤ}
use mycpu_4soc_game_port.Tetris.Draw.{Frame}
use mycpu_4soc_game_port.Vga.{stream_words, vga_addr_upload_addr, vga_addr_ctrl}

unfoldable pub draw_horizon : ℕ → ℤ → Frame → Frame
draw_horizon color y fb =
    for_range 16 0 (λ k fb. set fb (pos_part (y +ℤ pos 1) * 64 + 4 * k) 2)
      (for_range 64 0
        (λ x fb.
          if leb_ℤ (pos 0) y && ltb_ℤ y (pos 64) then set fb (pos_part y * 64 + x) color else fb)
        fb)

-- The frame after `draw_init_buffers`, and the words that it sends.
unfoldable pub draw_init_buffers : Frame → Frame × List (ℕ × ℕ)
draw_init_buffers fb =
    let lined = draw_horizon 2 (pos 58) (for_range 4096 0 (λ i fb. set fb i 0) fb) in
    (lined, stream_words 512 0 lined)

-- The writes at the end of a round of `run_trex`: rows 28 to 57 only.
unfoldable pub scene_writes : ℕ → Frame → List (ℕ × ℕ)
scene_writes current_frame fb =
    ((vga_addr_upload_addr, bit_or (u32 (current_frame * 2 ^ 16)) 1792) ∷ [])
    ++ stream_words 240 224 fb
    ++ ((vga_addr_ctrl, bit_or (u32 (current_frame * 2 ^ 4)) 1) ∷ [])

-- The writes of `draw_swap_buffers`: the whole frame.
unfoldable pub draw_swap_buffers : Frame → List (ℕ × ℕ)
draw_swap_buffers fb =
    ((vga_addr_upload_addr, 0) ∷ []) ++ stream_words 512 0 fb ++ ((vga_addr_ctrl, 1) ∷ [])
