-- ===== src/Tetris/Digits/Signed.antt =====
-- The text of a signed number, as `print_dec` writes it.
use mycpu_4soc_game_port.Common.{
  ℕ, zero, suc, ◌+◌, ◌-◌, ◌*◌, ◌/◌, ◌%◌, ◌^◌, ◌<◌, ◌≡◌, refl, ◌∙◌, arith, false, ◌==◌,
  if◌then◌else◌, Bool-cases, inl, inr, List, [], ◌∷◌, ◌++◌,
}
use mycpu_4soc_game_port.Common.Int.{ℤ, pos, negsuc, pos_part, neg_part, ltb_ℤ, ◌≤ℤ◌, ◌<ℤ◌}
use mycpu_4soc_game_port.Tetris.Digits.{signed_digits, gba_put_int, sgc_put_int}
use mycpu_4soc_game_port.Tetris.Print.Decimal.{read_decimal}
use native.Mathlib.Nat.{pow-suc}

signed_digits_lem :
    (places v : ℕ) (buf : List ℕ)
    → v < 10 ^ places
    → read_decimal 0 (signed_digits places v buf) ≡ read_decimal v buf
unfolding signed_digits
signed_digits_lem zero v buf h = let none : v ≡ 0 = omega arith in rw none refl
signed_digits_lem (suc places) v buf h = elim (Bool-cases (v == 0)) [
  | inl e ↦ let none : v ≡ 0 = ground arith in rw none refl
  | inr e ↦
      let joined : v / 10 * 10 + (b'0' + v % 10 - b'0') ≡ v = omega arith in
      rw e (
        signed_digits_lem places (v / 10) ((b'0' + v % 10) ∷ buf) (omega (arith, pow-suc 10 places))
        ∙ rw joined refl)
]

size_bound :
    (v : ℤ) → negsuc (2 ^ 31 - 2) ≤ℤ v → v <ℤ pos (2 ^ 31) → pos_part v + neg_part v < 10 ^ 12
size_bound (pos n) low high = omega arith
size_bound (negsuc n) low high = omega arith

-- Both printers send, for an `int` but the least, a minus sign exactly for a negative number, and
-- then a text that reads as its absolute value.
pub read_decimal-gba_put_int :
    (v : ℤ)
    → negsuc (2 ^ 31 - 2) ≤ℤ v
    → v <ℤ pos (2 ^ 31)
    → (sgc_put_int v ≡ gba_put_int v)
      × (text : List ℕ) × (gba_put_int v ≡ (if ltb_ℤ v (pos 0) then b'-' ∷ [] else []) ++ text)
      × (read_decimal 0 text ≡ pos_part v + neg_part v)
unfolding gba_put_int sgc_put_int
read_decimal-gba_put_int v low high = elim (Bool-cases (pos_part v + neg_part v == 0)) [
  | inl e ↦
      let at_zero : pos_part v + neg_part v ≡ 0 = ground arith in
      let plus : ltb_ℤ v (pos 0) ≡ false = ground (arith, at_zero) in
      (refl, b'0' ∷ [], rw (e, plus) refl, rw at_zero refl)
  | inr e ↦ (
    refl,
    signed_digits 12 (pos_part v + neg_part v) [],
    rw e refl,
    signed_digits_lem 12 (pos_part v + neg_part v) [] (size_bound v low high),
  )
]
