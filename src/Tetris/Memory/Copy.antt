-- ===== src/Tetris/Memory/Copy.antt =====
-- What `my_memset` and `my_memcpy` leave at each address.
use mycpu_4soc_game_port.Common.{
  ℕ, zero, suc, ◌+◌, ◌-◌, ◌≤◌, ◌<◌, ◌≡◌, ◌⊎◌, ap, arith, Bool, ◌&&◌, ltb, leb, if◌then◌else◌, List,
  length, get_or, set, get_or-set, length-set, u8,
}
use mycpu_4soc_game_port.Tetris.Memory.{my_memset, my_memcpy}

-- The address is one of the `n` from `a` on.
abbrev pub is_within : ℕ → ℕ → ℕ → Bool
is_within a n i = leb a i && ltb i (a + n)

-- On memory that holds the `n` bytes from `p` on, `my_memset` stores the byte at those addresses
-- and nowhere else.
pub my_memset_lem :
    (p c n : ℕ) (memory : List ℕ) (i : ℕ)
    → p + n ≤ length memory
    → get_or (my_memset p c n memory) i 0 ≡ (if is_within p n i then u8 c else get_or memory i 0)
unfolding my_memset
my_memset_lem p c zero memory i h = ground arith
my_memset_lem p c (suc n) memory i h = ground (
  arith,
  my_memset_lem (p + 1) c n (set memory p (u8 c)) i,
  get_or-set memory p i (u8 c) 0,
  length-set memory p (u8 c),
)

-- On memory that holds both areas of `n` bytes, if they do not overlap then `my_memcpy` leaves at
-- the destination what was at the source, and changes nothing else.
pub my_memcpy_lem :
    (d s n : ℕ) (memory : List ℕ) (i : ℕ)
    → d + n ≤ length memory
    → (d + n ≤ s) ⊎ (s + n ≤ d)
    → get_or (my_memcpy d s n memory) i 0
      ≡ (if is_within d n i then get_or memory (s + (i - d)) 0 else get_or memory i 0)
unfolding my_memcpy
my_memcpy_lem d s zero memory i h apart = ground arith
my_memcpy_lem d s (suc n) memory i h apart = ground (
  arith,
  my_memcpy_lem (d + 1) (s + 1) n (set memory d (get_or memory s 0)) i,
  get_or-set memory d i (get_or memory s 0) 0,
  get_or-set memory d (s + 1 + (i - (d + 1))) (get_or memory s 0) 0,
  length-set memory d (get_or memory s 0),
  same_place,
  first_place,
)
  where
    same_place : d < i → get_or memory (s + 1 + (i - (d + 1))) 0 ≡ get_or memory (s + (i - d)) 0
    same_place p =
        let e : s + 1 + (i - (d + 1)) ≡ s + (i - d) = omega arith in ap (λ k. get_or memory k 0) e

    first_place : i ≡ d → get_or memory s 0 ≡ get_or memory (s + (i - d)) 0
    first_place e = let e' : s ≡ s + (i - d) = omega arith in ap (λ k. get_or memory k 0) e'
