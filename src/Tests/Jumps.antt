-- ===== src/Tests/Jumps.antt =====
-- The theorem on the program of the dinosaur at a concrete input.
use mycpu_4soc_game_port.Common.{refl, arith, replicate}
use mycpu_4soc_game_port.Common.Outcome.{Returns}
use mycpu_4soc_game_port.Tetris.Keys.{Loads}
use mycpu_4soc_game_port.Trex.Start.{main}
use mycpu_4soc_game_port.Trex.Run.{KeysCome, IsInside, main-IsInside}

-- The key `s` at every read, whose second bit is set too: the dinosaur never jumps and is hit.
abbrev holding_s : Loads
holding_s n = b's'

keys_come : KeysCome 1 holding_s
keys_come n = (0, omega arith, refl)

main-IsInside_example : Returns IsInside (main 1 80 holding_s (replicate 4096 0))
main-IsInside_example = main-IsInside 1 80 holding_s (replicate 4096 0) keys_come
