-- ===== src/Common/Parts.antt =====
-- The bit operations on a number cut in two, and masks.
use Prim.Native.Nat.{ℕ, zero, suc, ◌+◌, ◌*◌, ◌/◌, ◌%◌, ◌^◌, ◌<◌, bit_and, bit_or}
use Prim.Native.Nat.{bit_or-bitwise}
use mathlib.Core.Path.{◌≡◌, ap, ap₂, ◌∙◌}
use native.Mathlib.Omega.{arith}
use native.Mathlib.Nat.{pow-suc}
use mycpu_4soc_game_port.Common.Bits.{bit_and_step, bit_or_step, bit_and-zero}

double : (b n : ℕ) → b * 2 ^ suc n ≡ b * 2 ^ n * 2
double b n = omega (arith, ap (λ (t : ℕ). b * t) (pow-suc 2 n))

halved : (t l : ℕ) → (t * 2 + l) / 2 ≡ t + l / 2
halved t l = omega arith

-- The upper parts meet each other, and so do the lower parts.
pub bit_and-cut :
    (n h l a b : ℕ)
    → l < 2 ^ n
    → b < 2 ^ n
    → bit_and (h * 2 ^ n + l) (a * 2 ^ n + b) ≡ bit_and h a * 2 ^ n + bit_and l b
bit_and-cut zero h l a b p q =
    let el : l ≡ 0 = omega arith in
    let eb : b ≡ 0 = omega arith in
    let eh : h * 1 + 0 ≡ h = omega arith in
    let ea : a * 1 + 0 ≡ a = omega arith in
    rw (el, eb, bit_and-zero 0) (ap₂ bit_and eh ea ∙ omega arith)
bit_and-cut (suc n) h l a b p q =
    rw (double h n, double a n, double (bit_and h a) n)
      (omega (
        arith,
        bit_and_step (h * 2 ^ n * 2 + l) (a * 2 ^ n * 2 + b),
        ap₂ bit_and (halved (h * 2 ^ n) l) (halved (a * 2 ^ n) b),
        bit_and_step l b,
        bit_and-cut n h (l / 2) a (b / 2) (omega (arith, pow-suc 2 n)) (omega (arith, pow-suc 2 n)),
      ))

pub bit_or-cut :
    (n h l a b : ℕ)
    → l < 2 ^ n
    → b < 2 ^ n
    → bit_or (h * 2 ^ n + l) (a * 2 ^ n + b) ≡ bit_or h a * 2 ^ n + bit_or l b
bit_or-cut zero h l a b p q =
    let el : l ≡ 0 = omega arith in
    let eb : b ≡ 0 = omega arith in
    let eh : h * 1 + 0 ≡ h = omega arith in
    let ea : a * 1 + 0 ≡ a = omega arith in
    rw (el, eb, bit_or-bitwise 0 0) (ap₂ bit_or eh ea ∙ omega arith)
bit_or-cut (suc n) h l a b p q =
    rw (double h n, double a n, double (bit_or h a) n)
      (omega (
        arith,
        bit_or_step (h * 2 ^ n * 2 + l) (a * 2 ^ n * 2 + b),
        ap₂ bit_or (halved (h * 2 ^ n) l) (halved (a * 2 ^ n) b),
        bit_or_step l b,
        bit_or-cut n h (l / 2) a (b / 2) (omega (arith, pow-suc 2 n)) (omega (arith, pow-suc 2 n)),
      ))

pub bit_or-zero : (x : ℕ) → bit_or x 0 ≡ x
bit_or-zero x = from (x + 1) x (omega arith)
  where
    from : (left x : ℕ) → x < left → bit_or x 0 ≡ x
    from zero x h = absurd (omega arith)
    from (suc left) zero h = bit_or-bitwise 0 0
    from (suc left) (suc x) h =
        let rest = from left (suc x / 2) (omega arith) in omega (arith, bit_or_step (suc x) 0)

pub zero-bit_or : (x : ℕ) → bit_or 0 x ≡ x
zero-bit_or x = bit_or-bitwise 0 x

-- `a & 0x0F`.
pub bit_and_15 : (a : ℕ) → bit_and a 15 ≡ a % 16
bit_and_15 a = omega (
  arith,
  bit_and_step a 15,
  bit_and_step (a / 2) 7,
  bit_and_step (a / 2 / 2) 3,
  bit_and_step (a / 2 / 2 / 2) 1,
  bit_and-zero (a / 2 / 2 / 2 / 2),
)

-- `a & 0xFF`.
pub bit_and_255 : (a : ℕ) → bit_and a 255 ≡ a % 256
bit_and_255 a =
    let e : a / 16 * 16 + a % 16 ≡ a = omega arith in
    omega (
      arith,
      ap (λ t. bit_and t 255) e,
      bit_and-cut 4 (a / 16) (a % 16) 15 15 (omega arith) (omega arith),
      bit_and_15 (a / 16),
      bit_and_15 (a % 16),
    )
