-- ===== src/Tetris/Main/Seed.antt =====
-- The seed that `main` draws from the time and the value of the first key.
use mycpu_4soc_game_port.Common.{
  ℕ, zero, suc, ◌+◌, ◌*◌, ◌/◌, ◌^◌, ◌<◌, bit_and, bit_or, bit_xor, ◌≡◌, ◌⊎◌, ap, ◌∙◌, arith, true,
  false, ◌==◌, Bool-cases, inl, inr, u32,
}
use mycpu_4soc_game_port.Common.Bits.{bit, bit-bit_or, bit_or-lt, bit_xor-lt}
use mycpu_4soc_game_port.Common.Outcome.{Returns}
use mycpu_4soc_game_port.Tetris.Bag.Rand.{IsSeed}
use mycpu_4soc_game_port.Tetris.Keys.{Loads, uart_has_data}
use mycpu_4soc_game_port.Tetris.Keys.Decode.{IsReady}
use mycpu_4soc_game_port.Tetris.Main.{stir, await_key, mix_key}

stir-lt : (s : ℕ) → stir s < 2 ^ 32
unfolding stir
stir-lt s =
    let s₁ = u32 (s + 1) in
    let s₂ = bit_xor s₁ (s₁ / 2 ^ 7) in
    bit_xor-lt 32 s₂ (u32 (s₂ * 2 ^ 3)) (bit_xor-lt 32 s₁ (s₁ / 2 ^ 7) (omega arith) (omega arith))
      (omega arith)

bit_or-odd : (a : ℕ) → 0 < bit_or a 74565
bit_or-odd a = elim (zero_or_pos (bit_or a 74565)) [
  | inl e ↦ absurd (ground (arith, bit-bit_or a 74565 0, ap (λ r. bit r 0) e))
  | inr p ↦ p
]
  where
    zero_or_pos : (n : ℕ) → (n ≡ 0) ⊎ (0 < n)
    zero_or_pos n = omega arith

-- Whatever byte the first key is and whatever the counter has reached, the seed that `main` gives to
-- `my_srand` is nonzero and below 2 ^ 32.
pub mix_key-IsSeed : (key seed : ℕ) → key < 256 → seed < 2 ^ 32 → IsSeed (mix_key key seed)
unfolding mix_key
mix_key-IsSeed key seed hk hs = elim (Bool-cases (s₄ == 0)) [
  | inl e ↦ rw e (bit_or-odd key, omega (arith, bit_or-lt 32 key 74565 (omega arith) (omega arith)))
  | inr e ↦ rw e (ground arith, small₄)
]
  where
    s₁ : ℕ
    s₁ =
        bit_xor (bit_xor (bit_xor (bit_xor seed key) (u32 (key * 2 ^ 8))) (u32 (key * 2 ^ 16)))
          (u32 (key * 2 ^ 24))

    s₂ : ℕ
    s₂ = bit_or (u32 (s₁ * 2 ^ 13)) (s₁ / 2 ^ 19)

    s₃ : ℕ
    s₃ = bit_xor s₂ (s₂ / 2 ^ 17)

    s₄ : ℕ
    s₄ = bit_xor s₃ (u32 (s₃ * 2 ^ 5))

    small₁ : s₁ < 2 ^ 32
    small₁ =
        bit_xor-lt 32 _ _
          (bit_xor-lt 32 _ _
            (bit_xor-lt 32 _ _ (bit_xor-lt 32 seed key hs (omega arith)) (omega arith))
            (omega arith))
          (omega arith)

    small₂ : s₂ < 2 ^ 32
    small₂ = bit_or-lt 32 _ _ (omega arith) (omega (arith, small₁))

    small₃ : s₃ < 2 ^ 32
    small₃ = bit_xor-lt 32 _ _ small₂ (omega (arith, small₂))

    small₄ : s₄ < 2 ^ 32
    small₄ = bit_xor-lt 32 _ _ small₃ (omega arith)

same : (n : ℕ) → n + 0 ≡ n
same n = omega arith

-- `await_key` ends once a key has come.
pub await_key_lem :
    (fuel : ℕ) (load : Loads) (n seed k : ℕ)
    → seed < 2 ^ 32
    → k < fuel
    → ((i : ℕ) → i < k → bit_and (load (n + i)) 2 ≡ 0)
    → IsReady load (n + k)
    → Returns (λ r. (r.0 < 2 ^ 32) × (r.1 ≡ n + k + 1)) (await_key fuel load n seed)
unfolding await_key uart_has_data
await_key_lem zero load n seed k hs hk early ready = absurd (omega arith)
await_key_lem (suc fuel) load n seed zero hs hk early ready =
    let e : n + 0 ≡ n = omega arith in
    let open_now : (bit_and (load n) 2 == 0) ≡ false = ground (arith, ready, ap load e) in
    record { out = (seed, n + 1); returns = rw open_now; holds = (hs, omega arith) }
await_key_lem (suc fuel) load n seed (suc k) hs hk early ready =
    let shift : (i : ℕ) → n + 1 + i ≡ n + suc i = λ i. omega arith in
    let closed : (bit_and (load n) 2 == 0) ≡ true = ground (arith, early 0, ap load (same n)) in
    let rest =
      await_key_lem fuel load (n + 1) (stir seed) k (stir-lt seed) (omega arith)
        (λ i p. ap (λ m. bit_and (load m) 2) (shift i) ∙ early (suc i) (omega arith))
        (rw (shift k) ready) in
    rw closed (record {
      out = rest.out;
      returns = rest.returns;
      holds = (rest.holds.0, omega (arith, rest.holds));
    })
