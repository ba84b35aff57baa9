-- ===== src/Shell/Runtime/Move.antt =====
-- What `memmove` leaves at each address, whether or not the areas overlap.
use mycpu_4soc_game_port.Common.{
  ℕ, zero, suc, ◌+◌, ◌-◌, ◌≤◌, ◌<◌, ◌≡◌, ap, arith, Bool, ◌&&◌, ltb, leb, if◌then◌else◌, List,
  length, get_or, set, get_or-set, length-set,
}
use mycpu_4soc_game_port.Shell.Runtime.{copy_up, copy_down, memmove}

-- The address is one of the `n` from `a` on.
abbrev pub is_in : ℕ → ℕ → ℕ → Bool
is_in a n i = leb a i && ltb i (a + n)

copy_up_lem :
    (d s n : ℕ) (memory : List ℕ) (i : ℕ)
    → d + n ≤ length memory
    → d < s
    → get_or (copy_up d s n memory) i 0
      ≡ (if is_in d n i then get_or memory (s + (i - d)) 0 else get_or memory i 0)
unfolding copy_up
copy_up_lem d s zero memory i h before = ground arith
copy_up_lem d s (suc n) memory i h before = ground (
  arith,
  copy_up_lem (d + 1) (s + 1) n (set memory d (get_or memory s 0)) i,
  get_or-set memory d i (get_or memory s 0) 0,
  get_or-set memory d (s + 1 + (i - (d + 1))) (get_or memory s 0) 0,
  length-set memory d (get_or memory s 0),
  same_place,
  first_place,
)
  where
    same_place : d < i → get_or memory (s + 1 + (i - (d + 1))) 0 ≡ get_or memory (s + (i - d)) 0
    same_place p =
        let e : s + 1 + (i - (d + 1)) ≡ s + (i - d) = omega arith in ap (λ k. get_or memory k 0) e

    first_place : i ≡ d → get_or memory s 0 ≡ get_or memory (s + (i - d)) 0
    first_place e = let e' : s ≡ s + (i - d) = omega arith in ap (λ k. get_or memory k 0) e'

copy_down_lem :
    (d s n : ℕ) (memory : List ℕ) (i : ℕ)
    → d + n ≤ length memory
    → s ≤ d
    → get_or (copy_down d s n memory) i 0
      ≡ (if is_in d n i then get_or memory (s + (i - d)) 0 else get_or memory i 0)
unfolding copy_down
copy_down_lem d s zero memory i h after = ground arith
copy_down_lem d s (suc n) memory i h after = ground (
  arith,
  copy_down_lem d s n (set memory (d + n) (get_or memory (s + n) 0)) i,
  get_or-set memory (d + n) i (get_or memory (s + n) 0) 0,
  get_or-set memory (d + n) (s + (i - d)) (get_or memory (s + n) 0) 0,
  length-set memory (d + n) (get_or memory (s + n) 0),
  last_place,
)
  where
    last_place : i ≡ d + n → get_or memory (s + n) 0 ≡ get_or memory (s + (i - d)) 0
    last_place e = let e' : s + n ≡ s + (i - d) = omega arith in ap (λ k. get_or memory k 0) e'

-- On memory that holds the `n` bytes from `dest` on, `memmove` leaves there what was at the source
-- before the call, also where the two areas overlap, and changes no other byte.
pub memmove_lem :
    (dest src n : ℕ) (memory : List ℕ) (i : ℕ)
    → dest + n ≤ length memory
    → get_or (memmove dest src n memory) i 0
      ≡ (if is_in dest n i then get_or memory (src + (i - dest)) 0 else get_or memory i 0)
unfolding memmove
memmove_lem dest src n memory i h =
    ground (arith, copy_up_lem dest src n memory i h, copy_down_lem dest src n memory i h)
