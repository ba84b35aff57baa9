-- ===== src/Trex.antt =====
-- The game of 4-soc/csrc/trex: a dinosaur that jumps over a cactus. The locals of `run_trex` and the
-- frame buffer are the fields of one record, with what has been sent and the register writes of the
-- display so far. `body_picture` and `score` are `int` in the code and would overflow only after
-- 2 ^ 31 - 1 rounds. `load n` is the value of the n-th read of a UART register by `main`,
-- `handle_input` and `draw_die`. A wait for a key has fuel, and is `none` when that runs out; that
-- the transmitter and the display become ready is taken for granted.
pub mod Run
pub mod Frames
pub mod Start
use package.mycpu_4soc_game_port.Common.{
  ℕ, zero, suc, ◌-◌, ◌+◌, ◌*◌, ◌/◌, ◌%◌, ◌^◌, bit_and, Bool, true, false, not, ◌&&◌, ◌||◌, ◌==◌,
  ltb, if◌then◌else◌, Option, none, some, ◌>>=◌, List, [], ◌∷◌, ◌++◌, get_or, set, for_range, u8,
}
use package.mycpu_4soc_game_port.Common.Int.{ℤ, pos, negsuc, ◌+ℤ◌, ◌-ℤ◌, ltb_ℤ, leb_ℤ}
use package.mycpu_4soc_game_port.Tetris.Keys.{Loads}
use package.mycpu_4soc_game_port.Tetris.Draw.{Frame, fb_pixel}
use package.mycpu_4soc_game_port.Trex.Frames.{scene_writes, draw_swap_buffers}

pub record Trex : Type 0 where
  pub dino_y : ℤ
  pub y_velocity : ℤ
  pub body_picture : ℕ
  pub setdown_times : ℕ
  pub cactus_x : ℤ
  pub score : ℕ
  pub vga_framebuffer : Frame
  pub sent : List ℕ
  pub writes : List (ℕ × ℕ)
  pub reads : ℕ

abbrev pub ground_y : ℤ
ground_y = pos 50

abbrev pub jump_impulse : ℤ
jump_impulse = negsuc 5

abbrev pub gravity_step : ℤ
gravity_step = pos 1

abbrev pub cactus_y : ℤ
cactus_y = pos 54

abbrev pub dino_x : ℤ
dino_x = pos 5

-- `((key == 'w' || key == ' ') && *y == ground_y)`, and then the test for 's'.
unfoldable pub press : ℕ → Trex → Trex
press key s =
    let jumping =
      (key == b'w' || key == b' ') && (leb_ℤ s.dino_y ground_y && leb_ℤ ground_y s.dino_y) in
    let s' = if jumping then record s { y_velocity = jump_impulse; setdown_times = 0 } else s in
    if key == b's'
    then (if ltb_ℤ s'.dino_y ground_y
        then record s' { y_velocity = pos 4 }
        else record s' { setdown_times = 2 })
    else s'

unfoldable pub handle_input : Loads → Trex → Trex
handle_input load s =
    if bit_and (load s.reads) 2 == 0
    then record s { reads = s.reads + 1 }
    else press (bit_and (load (s.reads + 1)) 255) (record s { reads = s.reads + 2 })

unfoldable pub update_physics : Trex → Trex
update_physics s =
    let y = s.dino_y +ℤ s.y_velocity in
    if ltb_ℤ y ground_y
    then record s { dino_y = y; y_velocity = s.y_velocity +ℤ gravity_step }
    else record s { dino_y = ground_y; y_velocity = pos 0 }

-- A picture, one byte for a row with its left pixel in bit 7, by the stores that stay on the screen.
unfoldable pub place_rows : List ℕ → ℕ → ℤ → ℤ → ℕ → Frame → Frame
place_rows picture size x y color fb =
    for_range size 0
      (λ row. for_range size 0 (λ col fb.
        if get_or picture row 0 / 2 ^ (7 - col) % 2 == 1
        then fb_pixel (x +ℤ pos col) (y +ℤ pos row) color fb
        else fb))
      fb

abbrev pub dino_shape : List (List ℕ)
dino_shape =
    (28 ∷ 31 ∷ 24 ∷ 158 ∷ 252 ∷ 124 ∷ 32 ∷ 48 ∷ [])
    ∷ (28 ∷ 31 ∷ 24 ∷ 158 ∷ 252 ∷ 124 ∷ 8 ∷ 12 ∷ [])
    ∷ []

abbrev pub die_shape : List ℕ
die_shape = 60 ∷ 126 ∷ 219 ∷ 219 ∷ 255 ∷ 60 ∷ 36 ∷ 60 ∷ []

abbrev pub dino_shape_setdown : List (List ℕ)
dino_shape_setdown =
    (0 ∷ 0 ∷ 0 ∷ 0 ∷ 142 ∷ 255 ∷ 248 ∷ 64 ∷ []) ∷ (0 ∷ 0 ∷ 0 ∷ 0 ∷ 142 ∷ 255 ∷ 248 ∷ 16 ∷ []) ∷ []

abbrev pub cactus_shape_mini : List ℕ
cactus_shape_mini = 96 ∷ 240 ∷ 96 ∷ 96 ∷ []

unfoldable pub place_cactus : ℤ → ℤ → ℕ → Frame → Frame
place_cactus x y color fb = place_rows cactus_shape_mini 4 x y color fb

unfoldable pub place_dino : ℤ → ℤ → ℕ → ℕ → Frame → Frame
place_dino x y color body_picture fb = place_rows (get_or dino_shape body_picture []) 8 x y color fb

unfoldable pub place_dino_setdown : ℤ → ℤ → ℕ → ℕ → Frame → Frame
place_dino_setdown x y color body_picture fb =
    place_rows (get_or dino_shape_setdown body_picture []) 8 x y color fb

unfoldable pub place_die : Frame → Frame
place_die fb = place_rows die_shape 8 (pos 28) (pos 50) 3 fb

-- `for (i = 28 * 64; i < 58 * 64; i++) vga_framebuffer[i] = 0;`
unfoldable pub draw_cleanup_buffers : Frame → Frame
draw_cleanup_buffers fb = for_range (30 * 64) (28 * 64) (λ i fb. set fb i 0) fb

-- `score:`, one character for the score, and the end of the line.
unfoldable pub print_score : ℕ → List ℕ
print_score s = b's' ∷ b'c' ∷ b'o' ∷ b'r' ∷ b'e' ∷ b':' ∷ u8 (s + b'0') ∷ 13 ∷ 10 ∷ []

-- The test of a cactus against the dinosaur.
unfoldable pub is_hit : Trex → Bool
is_hit s =
    ltb_ℤ (pos 5) s.cactus_x
    && ltb_ℤ (s.cactus_x +ℤ pos 4) (pos 13)
    && ltb_ℤ cactus_y (s.dino_y +ℤ pos 8)

abbrev text_die : List ℕ
text_die = b'y' ∷ b'o' ∷ b'u' ∷ b' ' ∷ b'd' ∷ b'i' ∷ b'e' ∷ b'!' ∷ 13 ∷ 10 ∷ []

abbrev text_continue : List ℕ
text_continue =
    b'P' ∷ b'r' ∷ b'e' ∷ b's' ∷ b's' ∷ b' ' ∷ b'a' ∷ b'n' ∷ b'y' ∷ b' ' ∷ b'k' ∷ b'e' ∷ b'y' ∷ b' '
    ∷ b't' ∷ b'o' ∷ b' ' ∷ b'c' ∷ b'o' ∷ b'n' ∷ b't' ∷ b'i' ∷ b'n' ∷ b'u' ∷ b'e' ∷ b' ' ∷ b't'
    ∷ b'h' ∷ b'e' ∷ b' ' ∷ b'g' ∷ b'a' ∷ b'm' ∷ b'e' ∷ 13 ∷ 10 ∷ []

-- `while (!(*UART_STATUS & 0x02))`, and the number of reads behind it.
unfoldable pub await_byte : ℕ → Loads → ℕ → Option ℕ
await_byte zero load reads = none
await_byte (suc fuel) load reads =
    let rest = await_byte fuel load (reads + 1) in
    if bit_and (load reads) 2 == 0 then rest else some (reads + 1)

-- The picture and the texts, and the wait for a key, which is not read.
unfoldable pub draw_die : ℕ → Loads → Trex → Option Trex
draw_die fuel load s =
    let fb = place_die (draw_cleanup_buffers s.vga_framebuffer) in
    await_byte fuel load s.reads >>= λ reads. some (record s {
      vga_framebuffer = fb;
      writes = s.writes ++ draw_swap_buffers fb;
      sent = s.sent ++ text_die ++ text_continue;
      reads = reads;
    })

-- A hit: the score and the cactus start again, under the picture of `draw_die`.
unfoldable pub meet_cactus : ℕ → Loads → Trex → Option Trex
meet_cactus fuel load s =
    if is_hit s then draw_die fuel load (record s { score = 0; cactus_x = pos 64 }) else some s

unfoldable pub move_cactus : Trex → Trex
move_cactus s =
    let x = s.cactus_x -ℤ pos 1 in
    if ltb_ℤ x (negsuc 7)
    then record s {
      cactus_x = pos 64;
      score = s.score + 1;
      sent = s.sent ++ print_score (s.score + 1);
    }
    else record s { cactus_x = x }

unfoldable pub draw_scene : Trex → Trex
draw_scene s =
    let fb = place_cactus s.cactus_x cactus_y 1 (draw_cleanup_buffers s.vga_framebuffer) in
    if ltb 0 s.setdown_times
    then record s {
      vga_framebuffer = place_dino_setdown dino_x s.dino_y 1 (s.body_picture % 2) fb;
      setdown_times = s.setdown_times - 1;
    }
    else record s { vga_framebuffer = place_dino dino_x s.dino_y 1 (s.body_picture % 2) fb }

-- One round of the loop of `run_trex`; `current_frame` is always 0.
unfoldable pub trex_round : ℕ → Loads → Trex → Option Trex
trex_round fuel load s = meet_cactus fuel load (update_physics (handle_input load s)) >>= λ met.
    let drawn = draw_scene (move_cactus met) in
    some (record drawn {
      writes = drawn.writes ++ scene_writes 0 drawn.vga_framebuffer;
      body_picture = drawn.body_picture + 1;
    })
