-- ===== src/Tetris/Game/Speed.antt =====
-- The gravity timer: `get_drop_interval` and its table.
use mycpu_4soc_game_port.Common.{ℕ, ◌≤◌, arith}
use mycpu_4soc_game_port.Tetris.Game.{get_drop_interval}

-- For every level the interval is from 2 to 48 ticks, and a higher level never has a longer one.
pub get_drop_interval-falls :
    (level level' : ℕ)
    → level ≤ level'
    → (2 ≤ get_drop_interval level')
      × (get_drop_interval level' ≤ get_drop_interval level)
      × (get_drop_interval level ≤ 48)
unfolding get_drop_interval
get_drop_interval-falls level level' h = ground arith
