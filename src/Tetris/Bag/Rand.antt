-- ===== src/Tetris/Bag/Rand.antt =====
-- The range of the xorshift generator `my_rand`.
use mycpu_4soc_game_port.Common.{
  ℕ, zero, suc, ◌*◌, ◌/◌, ◌^◌, ◌<◌, bit_xor, ◌≡◌, ◌⊎◌, inl, inr, u32, arith,
}
use mycpu_4soc_game_port.Common.Bits.{bit_xor-lt, bit_xor-eq_zero}
use mycpu_4soc_game_port.Tetris.Bag.{Random, xorshift, my_rand, my_srand}

-- What a `uint32_t` generator state must be for xorshift to go on.
abbrev pub IsSeed : ℕ → Type 0
IsSeed s = (0 < s) × (s < 2 ^ 32)

shift_13_fixed : (s : ℕ) → s < 2 ^ 32 → s ≡ u32 (s * 2 ^ 13) → s ≡ 0
shift_13_fixed s h e = omega arith

shift_17_fixed : (s : ℕ) → s ≡ s / 2 ^ 17 → s ≡ 0
shift_17_fixed s e = omega arith

shift_5_fixed : (s : ℕ) → s < 2 ^ 32 → s ≡ u32 (s * 2 ^ 5) → s ≡ 0
shift_5_fixed s h e = omega arith

zero_or_pos : (n : ℕ) → (n ≡ 0) ⊎ (0 < n)
zero_or_pos n = omega arith

-- A number is xored to zero only with itself, and a shift moves every nonzero number.
bit_xor-IsSeed : (s t : ℕ) → IsSeed s → t < 2 ^ 32 → (s ≡ t → s ≡ 0) → IsSeed (bit_xor s t)
bit_xor-IsSeed s t h ht fixed =
    let small = bit_xor-lt 32 s t h.1 ht in
    elim (zero_or_pos (bit_xor s t)) [
      | inl e ↦ absurd (omega (arith, fixed (bit_xor-eq_zero 32 s t h.1 ht e)))
      | inr p ↦ (p, small)
    ]

pub xorshift-IsSeed : (s : ℕ) → IsSeed s → IsSeed (xorshift s)
unfolding xorshift
xorshift-IsSeed s h =
    let s₁ = bit_xor s (u32 (s * 2 ^ 13)) in
    let s₂ = bit_xor s₁ (s₁ / 2 ^ 17) in
    let h₁ : IsSeed s₁ =
      bit_xor-IsSeed s (u32 (s * 2 ^ 13)) h (omega arith) (shift_13_fixed s h.1) in
    let h₂ : IsSeed s₂ = bit_xor-IsSeed s₁ (s₁ / 2 ^ 17) h₁ (omega arith) (shift_17_fixed s₁) in
    bit_xor-IsSeed s₂ (u32 (s₂ * 2 ^ 5)) h₂ (omega arith) (shift_5_fixed s₂ h₂.1)

-- The generator after `n` calls of `my_rand`.
pub rand_times : ℕ → Random → Random
rand_times zero r = r
rand_times (suc n) r = rand_times n (my_rand r).1

rand_times-IsSeed : (n : ℕ) (r : Random) → IsSeed r.rand_state → IsSeed (rand_times n r).rand_state
unfolding rand_times my_rand
rand_times-IsSeed zero r h = h
rand_times-IsSeed (suc n) r h = rand_times-IsSeed n (my_rand r).1 (xorshift-IsSeed r.rand_state h)

-- After `my_srand` with any 32-bit seed, zero included, and any number of calls of `my_rand`, the
-- next value that `my_rand` returns is nonzero and below 2 ^ 32.
pub my_rand-IsSeed :
    (seed n : ℕ) (r : Random) → seed < 2 ^ 32 → IsSeed (my_rand (rand_times n (my_srand seed r))).0
unfolding my_srand my_rand
my_rand-IsSeed seed n r h = xorshift-IsSeed _ (rand_times-IsSeed n (my_srand seed r) (ground arith))
