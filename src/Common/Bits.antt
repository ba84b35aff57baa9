-- ===== src/Common/Bits.antt =====
-- Binary digits of a number, and what the bit operations do to them.
use Prim.Native.Nat.{
  ℕ, zero, suc, ◌+◌, ◌*◌, ◌/◌, ◌%◌, ◌^◌, ◌≤◌, ◌<◌, min, max, digits, bitwise, differ,
}
use Prim.Native.Nat.{bit_and, bit_or, bit_xor, bit_and-bitwise, bit_or-bitwise, bit_xor-bitwise}
use mathlib.Core.Path.{◌≡◌, refl, sym, ap, ◌∙◌}
use native.Mathlib.Omega.{arith}
use native.Mathlib.Nat.{pow-suc}
use mycpu_4soc_game_port.Common.Tests.{◌==◌, if◌then◌else◌}

-- The digit of weight `2 ^ k`.
abbrev pub bit : ℕ → ℕ → ℕ
bit a zero = a % 2
bit a (suc k) = bit (a / 2) k

-- The digits are worked from the lowest, with the first number itself as the fuel.
module _ (z : ℕ → ℕ) (f : ℕ → ℕ → ℕ) where
  digits-zero : (n b : ℕ) → digits z f n 0 b ≡ z b
  digits-zero zero b = refl
  digits-zero (suc n) b = refl

  digits_enough : (n m a b : ℕ) → a ≤ n → a ≤ m → digits z f n a b ≡ digits z f m a b
  digits_enough n m zero b hn hm = digits-zero n b ∙ sym (digits-zero m b)
  digits_enough zero m (suc a) b hn hm = absurd (omega arith)
  digits_enough (suc n) zero (suc a) b hn hm = absurd (omega arith)
  digits_enough (suc n) (suc m) (suc a) b hn hm =
      omega (arith, digits_enough n m (suc a / 2) (b / 2) (omega arith) (omega arith))

  bitwise_step :
      ((b : ℕ) → z b ≡ z (b / 2) * 2 + f 0 (b % 2))
      → (a b : ℕ) → bitwise z f a b ≡ bitwise z f (a / 2) (b / 2) * 2 + f (a % 2) (b % 2)
  bitwise_step low zero b = low b
  bitwise_step low (suc a) b =
      omega (arith, digits_enough a (suc a / 2) (suc a / 2) (b / 2) (omega arith) (omega arith))

-- One digit of each operation; the rest is the operation on the halves.
pub bit_and_step : (x y : ℕ) → bit_and x y ≡ bit_and (x / 2) (y / 2) * 2 + min (x % 2) (y % 2)
bit_and_step x y = simp bit_and-bitwise (bitwise_step (λ _. 0) min (λ b. omega arith) x y)

pub bit_or_step : (x y : ℕ) → bit_or x y ≡ bit_or (x / 2) (y / 2) * 2 + max (x % 2) (y % 2)
bit_or_step x y = simp bit_or-bitwise (bitwise_step (λ b. b) max (λ b. omega arith) x y)

differ_digit : (x y : ℕ) → x < 2 → y < 2 → differ x y ≡ (x + y) % 2
differ_digit zero y hx hy = omega arith
differ_digit (suc zero) zero hx hy = refl
differ_digit (suc zero) (suc zero) hx hy = refl
differ_digit (suc zero) (suc (suc y)) hx hy = absurd (omega arith)
differ_digit (suc (suc x)) y hx hy = absurd (omega arith)

pub bit_xor_step : (a b : ℕ) → bit_xor a b ≡ bit_xor (a / 2) (b / 2) * 2 + (a + b) % 2
bit_xor_step a b = simp bit_xor-bitwise (
    omega (
      arith,
      bitwise_step (λ b. b) differ (λ b. omega arith) a b,
      differ_digit (a % 2) (b % 2) (omega arith) (omega arith),
    ))

pub bit-lt : (a k : ℕ) → bit a k < 2
bit-lt a zero = omega arith
bit-lt a (suc k) = bit-lt (a / 2) k

-- The digits of a result are those of the operation on the digits.
pub bit-bit_and : (a b k : ℕ) → bit (bit_and a b) k ≡ min (bit a k) (bit b k)
bit-bit_and a b zero = omega (arith, bit_and_step a b)
bit-bit_and a b (suc k) =
    let half : bit_and a b / 2 ≡ bit_and (a / 2) (b / 2) = omega (arith, bit_and_step a b) in
    rw half (bit-bit_and (a / 2) (b / 2) k)

pub bit-bit_or : (a b k : ℕ) → bit (bit_or a b) k ≡ max (bit a k) (bit b k)
bit-bit_or a b zero = omega (arith, bit_or_step a b)
bit-bit_or a b (suc k) =
    let half : bit_or a b / 2 ≡ bit_or (a / 2) (b / 2) = omega (arith, bit_or_step a b) in
    rw half (bit-bit_or (a / 2) (b / 2) k)

pub bit-bit_xor : (a b k : ℕ) → bit (bit_xor a b) k ≡ (bit a k + bit b k) % 2
bit-bit_xor a b zero = omega (arith, bit_xor_step a b)
bit-bit_xor a b (suc k) =
    let half : bit_xor a b / 2 ≡ bit_xor (a / 2) (b / 2) = omega (arith, bit_xor_step a b) in
    rw half (bit-bit_xor (a / 2) (b / 2) k)

pub bit-zero : (k : ℕ) → bit 0 k ≡ 0
bit-zero zero = refl
bit-zero (suc k) = bit-zero k

half_power : (k : ℕ) → 2 ^ suc k / 2 ≡ 2 ^ k
half_power k = omega (arith, pow-suc 2 k)

even_power : (k : ℕ) → 2 ^ suc k % 2 ≡ 0
even_power k = omega (arith, pow-suc 2 k)

pub bit-power : (k j : ℕ) → bit (2 ^ k) j ≡ (if j == k then 1 else 0)
bit-power zero zero = refl
bit-power zero (suc j) = ground (arith, bit-zero j)
bit-power (suc k) zero = ground (arith, even_power k)
bit-power (suc k) (suc j) = rw half_power (ground (arith, bit-power k j))

-- A number is known by its digits.
pub bit_ext : (n a b : ℕ) → a < 2 ^ n → b < 2 ^ n → ((k : ℕ) → k < n → bit a k ≡ bit b k) → a ≡ b
bit_ext zero a b ha hb h = omega arith
bit_ext (suc n) a b ha hb h = omega (
  arith,
  h 0 (omega arith),
  bit_ext n (a / 2) (b / 2) (omega (arith, pow-suc 2 n)) (omega (arith, pow-suc 2 n))
      (λ k p. h (suc k) (omega arith)),
)

pub bit_or-lt : (n a b : ℕ) → a < 2 ^ n → b < 2 ^ n → bit_or a b < 2 ^ n
bit_or-lt zero a b ha hb =
    let ea : a ≡ 0 = omega arith in let eb : b ≡ 0 = omega arith in rw (ea, eb) (omega arith)
bit_or-lt (suc n) a b ha hb = omega (
  arith,
  pow-suc 2 n,
  bit_or_step a b,
  bit_or-lt n (a / 2) (b / 2) (omega (arith, pow-suc 2 n)) (omega (arith, pow-suc 2 n)),
)

pub bit_and-lt : (n a b : ℕ) → a < 2 ^ n → bit_and a b < 2 ^ n
bit_and-lt zero a b ha = let ea : a ≡ 0 = omega arith in rw ea (omega (arith, bit_and-bitwise 0 b))
bit_and-lt (suc n) a b ha = omega (
  arith,
  pow-suc 2 n,
  bit_and_step a b,
  bit_and-lt n (a / 2) (b / 2) (omega (arith, pow-suc 2 n)),
)

pub bit_xor-lt : (n a b : ℕ) → a < 2 ^ n → b < 2 ^ n → bit_xor a b < 2 ^ n
bit_xor-lt zero a b ha hb =
    let ea : a ≡ 0 = omega arith in let eb : b ≡ 0 = omega arith in rw (ea, eb) (omega arith)
bit_xor-lt (suc n) a b ha hb = omega (
  arith,
  pow-suc 2 n,
  bit_xor_step a b,
  bit_xor-lt n (a / 2) (b / 2) (omega (arith, pow-suc 2 n)) (omega (arith, pow-suc 2 n)),
)

-- `a & (1 << k)` keeps the one digit.
nothing_kept : (left x : ℕ) → x < left → bit_and x 0 ≡ 0
nothing_kept zero x h = absurd (omega arith)
nothing_kept (suc left) zero h = bit_and-bitwise 0 0
nothing_kept (suc left) (suc x) h =
    let rest = nothing_kept left (suc x / 2) (omega arith) in omega (arith, bit_and_step (suc x) 0)

pub bit_and-zero : (x : ℕ) → bit_and x 0 ≡ 0
bit_and-zero x = nothing_kept (x + 1) x (omega arith)

pub bit_and-power : (a k : ℕ) → bit_and a (2 ^ k) ≡ bit a k * 2 ^ k
bit_and-power a zero = omega (arith, bit_and_step a 1, bit_and-zero (a / 2))
bit_and-power a (suc k) = omega (
  arith,
  bit_and_step a (2 ^ suc k),
  half_power k,
  even_power k,
  ap (λ (t : ℕ). bit_and (a / 2) t) (half_power k),
  bit_and-power (a / 2) k,
  ap (λ (t : ℕ). bit (a / 2) k * t) (pow-suc 2 k),
)

-- `x ^ y` is zero only for equal numbers.
pub bit_xor-eq_zero : (n a b : ℕ) → a < 2 ^ n → b < 2 ^ n → bit_xor a b ≡ 0 → a ≡ b
bit_xor-eq_zero zero a b ha hb e = omega arith
bit_xor-eq_zero (suc n) a b ha hb e = omega (
  arith,
  bit_xor_step a b,
  bit_xor-eq_zero n (a / 2) (b / 2) (omega (arith, pow-suc 2 n)) (omega (arith, pow-suc 2 n))
      (omega (arith, bit_xor_step a b)),
)

-- `a & 0x03`.
pub bit_and_three : (a : ℕ) → bit_and a 3 ≡ a % 4
bit_and_three a = omega (arith, bit_and_step a 3, bit_and_step (a / 2) 1, bit_and-zero (a / 2 / 2))
