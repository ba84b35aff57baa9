-- ===== src/Tetris/Print/Decimal.antt =====
-- The decimal text of a number, and a reader of it.
use mycpu_4soc_game_port.Common.{
  ℕ, zero, suc, ◌+◌, ◌-◌, ◌*◌, ◌/◌, ◌%◌, ◌^◌, ◌≤◌, ◌<◌, ◌≡◌, refl, ◌∙◌, arith, ◌==◌, Bool-cases,
  inl, inr, List, [], ◌∷◌,
}
use mycpu_4soc_game_port.Tetris.Print.{digits_of, uart_put_number}
use native.Mathlib.Nat.{pow-suc}

-- The number that a text stands for, after `value`.
abbrev pub read_decimal : ℕ → List ℕ → ℕ
read_decimal value [] = value
read_decimal value (c ∷ cs) = read_decimal (value * 10 + (c - b'0')) cs

abbrev pub AllDigits : List ℕ → Type 0
AllDigits [] = Unit {0}
AllDigits (c ∷ cs) = (b'0' ≤ c) × (c ≤ b'9') × AllDigits cs

digits_of_lem :
    (left num : ℕ) (out : List ℕ)
    → num < 10 ^ left
    → AllDigits out
    → (read_decimal 0 (digits_of left num out) ≡ read_decimal num out)
      × AllDigits (digits_of left num out)
unfolding digits_of
digits_of_lem zero num out h ok = let none : num ≡ 0 = omega arith in rw none (refl, ok)
digits_of_lem (suc left) num out h ok = elim (Bool-cases (num == 0)) [
  | inl e ↦ let none : num ≡ 0 = ground arith in rw none (refl, ok)
  | inr e ↦
      let (same, digits) =
        digits_of_lem left (num / 10) ((b'0' + num % 10) ∷ out) (omega (arith, pow-suc 10 left))
          (omega arith, omega arith, ok) in
      let joined : num / 10 * 10 + (b'0' + num % 10 - b'0') ≡ num = omega arith in
      rw e (same ∙ rw joined refl, digits)
]

-- What `uart_put_number` sends for a `uint32_t` consists of decimal digits only, and it reads as the
-- number: no digit is lost to the size of the buffer.
pub read_decimal-uart_put_number :
    (num : ℕ)
    → num < 2 ^ 32
    → (read_decimal 0 (uart_put_number num) ≡ num) × AllDigits (uart_put_number num)
unfolding uart_put_number
read_decimal-uart_put_number num h = elim (Bool-cases (num == 0)) [
  | inl e ↦ let none : num ≡ 0 = ground arith in rw none (refl, (omega arith, omega arith, tt))
  | inr e ↦ rw e (digits_of_lem 11 num [] (omega arith) tt)
]
