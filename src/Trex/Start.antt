-- ===== src/Trex/Start.antt =====
-- `main` of 4-soc/csrc/trex/main.c, and the start of `run_trex`. The number that `main` counts while
-- it waits is passed to `run_trex`, which does not use it, so it does not appear.
use package.mycpu_4soc_game_port.Common.{ℕ, zero, suc, Option, some, ◌>>=◌, List, [], ◌∷◌, ◌++◌}
use package.mycpu_4soc_game_port.Common.Int.{pos}
use package.mycpu_4soc_game_port.Common.Text.{codes}
use package.mycpu_4soc_game_port.Vga.{vga_palette}
use package.mycpu_4soc_game_port.Tetris.Keys.{Loads}
use package.mycpu_4soc_game_port.Tetris.Draw.{Frame}
use package.mycpu_4soc_game_port.Trex.{Trex, ground_y, await_byte, trex_round}
use package.mycpu_4soc_game_port.Trex.Frames.{draw_init_buffers}

abbrev pub main_palette : List (ℕ × ℕ)
main_palette =
    (vga_palette 0, 0x00)
    ∷ (vga_palette 1, 0x0C)
    ∷ (vga_palette 2, 0x3F)
    ∷ (vga_palette 3, 0x30)
    ∷ []

-- The 34 bytes of `msg` that are sent: the last is the byte 0 at its end.
abbrev pub start_message : List ℕ
start_message = codes "Press any key to start the game" ++ (13 ∷ 10 ∷ 0 ∷ [])

-- The locals of `run_trex` before its loop.
abbrev pub first_scene : List ℕ → List (ℕ × ℕ) → ℕ → Frame → Trex
first_scene sent writes reads fb = record {
  dino_y = ground_y;
  y_velocity = pos 0;
  body_picture = 0;
  setdown_times = 0;
  cactus_x = pos 64;
  score = 0;
  vga_framebuffer = fb;
  sent = sent;
  writes = writes;
  reads = reads;
}

-- `run_trex`, when its loop has run for the rounds.
unfoldable pub run_rounds : ℕ → ℕ → Loads → Trex → Option Trex
run_rounds fuel zero load s = some s
run_rounds fuel (suc rounds) load s = trex_round fuel load s >>= run_rounds fuel rounds load

unfoldable pub run_trex : ℕ → ℕ → Loads → List ℕ → List (ℕ × ℕ) → ℕ → Frame → Option Trex
run_trex fuel rounds load sent writes reads fb =
    let started = draw_init_buffers fb in
    run_rounds fuel rounds load (first_scene sent (writes ++ started.1) reads started.0)

-- The game after the rounds. Each wait for a key has the fuel.
unfoldable pub main : ℕ → ℕ → Loads → Frame → Option Trex
main fuel rounds load fb = await_byte fuel load 0 >>= λ reads.
    run_trex fuel rounds load start_message main_palette reads fb
