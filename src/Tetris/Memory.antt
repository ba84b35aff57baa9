-- ===== src/Tetris/Memory.antt =====
-- `my_memset` and `my_memcpy` of 4-soc/csrc/tetris/tetris_grid.c, on a memory that is a list of bytes
-- and with addresses as its indices.
pub mod Copy
use package.mycpu_4soc_game_port.Common.{ℕ, zero, suc, ◌+◌, List, get_or, set, u8}

-- `while (n--) *p++ = (uint8_t) c;`
unfoldable pub my_memset : ℕ → ℕ → ℕ → List ℕ → List ℕ
my_memset p c zero memory = memory
my_memset p c (suc n) memory = my_memset (p + 1) c n (set memory p (u8 c))

-- `while (n--) *d++ = *s++;`
unfoldable pub my_memcpy : ℕ → ℕ → ℕ → List ℕ → List ℕ
my_memcpy d s zero memory = memory
my_memcpy d s (suc n) memory = my_memcpy (d + 1) (s + 1) n (set memory d (get_or memory s 0))
