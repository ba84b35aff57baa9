-- ===== src/Tetris/Bag.antt =====
-- The random generator and the bag of seven shapes of 4-soc/csrc/tetris/tetris_shape.c. The statics
-- `rand_state`, `bag` and `bag_pos` are the fields of one record; `sent` holds the progress bytes
-- that `sb_putc` gives to the UART, the latest first.
pub mod Rand
pub mod Deal
use package.mycpu_4soc_game_port.Common.{
  ℕ, zero, suc, ◌+◌, ◌*◌, ◌/◌, ◌%◌, ◌^◌, bit_xor, List, [], ◌∷◌, ◌==◌, leb, if◌then◌else◌, get_or,
  set, u8, u32,
}

pub record Random : Type 0 where
  pub rand_state : ℕ  -- uint32_t
  pub bag : List ℕ  -- uint8_t[7]
  pub bag_pos : ℕ  -- uint8_t
  pub sent : List ℕ

-- One xorshift step; `my_rand` stores it in `rand_state` and returns it.
unfoldable pub xorshift : ℕ → ℕ
xorshift s =
    let s₁ = bit_xor s (u32 (s * 2 ^ 13)) in
    let s₂ = bit_xor s₁ (s₁ / 2 ^ 17) in bit_xor s₂ (u32 (s₂ * 2 ^ 5))

unfoldable pub my_rand : Random → ℕ × Random
my_rand r = let s = xorshift r.rand_state in (s, record r { rand_state = s })

unfoldable pub my_srand : ℕ → Random → Random
my_srand seed r = record r { rand_state = if seed == 0 then 12345 else seed }

unfoldable pub sb_putc : ℕ → Random → Random
sb_putc c r = record r { sent = c ∷ r.sent }

-- `for (i = 0; i < 7; i++) { bag[i] = i; sb_putc('.'); }` with `left` rounds to go.
unfoldable pub fill_bag : ℕ → ℕ → Random → Random
unfolding sb_putc
fill_bag zero i r = r
fill_bag (suc left) i r =
    fill_bag left (i + 1) (sb_putc b'.' (record r { bag = set r.bag i (u8 i) }))

-- `tmp = bag[k]; bag[k] = bag[j]; bag[j] = tmp;`
unfoldable pub swap : List ℕ → ℕ → ℕ → List ℕ
swap bag k j = set (set bag k (get_or bag j 0)) j (get_or bag k 0)

-- One of the six rounds of the shuffle, which draws `j` from 0 to `k`.
unfoldable pub shuffle_round : ℕ → Random → Random
unfolding my_rand sb_putc swap
shuffle_round k r =
    let (rnd, r') = my_rand r in
    let j = u8 (rnd % (k + 1)) in
    let r'' = sb_putc b'*' r' in if j == k then r'' else record r'' { bag = swap r''.bag k j }

unfoldable pub shuffle_bag : Random → Random
unfolding fill_bag shuffle_round
shuffle_bag r =
    let filled = fill_bag 7 0 r in
    let mixed = shuffle_round 1 (
      shuffle_round 2
        (shuffle_round 3 (shuffle_round 4 (shuffle_round 5 (shuffle_round 6 filled))))) in
    record mixed { bag_pos = 0 }

unfoldable pub shape_init : Random → Random
unfolding shuffle_bag
shape_init r = shuffle_bag r

-- `return bag[bag_pos++];`
abbrev next_of_bag : Random → ℕ × Random
next_of_bag r = (get_or r.bag r.bag_pos 0, record r { bag_pos = u8 (r.bag_pos + 1) })

unfoldable pub shape_random : Random → ℕ × Random
unfolding shuffle_bag
shape_random r = next_of_bag (if leb 7 r.bag_pos then shuffle_bag r else r)
