-- ===== src/Shell/Runtime.antt =====
-- `memcpy`, `memmove`, `memset` and `strlen` of 4-soc/csrc/shell.c, on a memory that is a list of
-- bytes and with addresses as its indices.
pub mod Move
use package.mycpu_4soc_game_port.Common.{
  ℕ, zero, suc, ◌+◌, ◌==◌, Option, none, some, List, get_or, set, u8, u32, ltb, if◌then◌else◌,
}

-- `while (n--) *d++ = *s++;`
unfoldable pub copy_up : ℕ → ℕ → ℕ → List ℕ → List ℕ
copy_up d s zero memory = memory
copy_up d s (suc n) memory = copy_up (d + 1) (s + 1) n (set memory d (get_or memory s 0))

-- `d += n; s += n; while (n--) *--d = *--s;` with `d` and `s` as they are before the sums.
unfoldable pub copy_down : ℕ → ℕ → ℕ → List ℕ → List ℕ
copy_down d s zero memory = memory
copy_down d s (suc n) memory = copy_down d s n (set memory (d + n) (get_or memory (s + n) 0))

unfoldable pub memcpy : ℕ → ℕ → ℕ → List ℕ → List ℕ
memcpy dest src n memory = copy_up dest src n memory

unfoldable pub memmove : ℕ → ℕ → ℕ → List ℕ → List ℕ
memmove dest src n memory =
    if ltb dest src then copy_up dest src n memory else copy_down dest src n memory

-- `while (n--) *d++ = (unsigned char) c;`
unfoldable pub memset : ℕ → ℕ → ℕ → List ℕ → List ℕ
memset d c zero memory = memory
memset d c (suc n) memory = memset (d + 1) c n (set memory d (u8 c))

-- `while (*s++) len++;`, with fuel.
unfoldable pub strlen : ℕ → ℕ → ℕ → List ℕ → Option ℕ
strlen zero s len memory = none
strlen (suc fuel) s len memory =
    let rest = strlen fuel (s + 1) (u32 (len + 1)) memory in
    if get_or memory s 0 == 0 then some len else rest
