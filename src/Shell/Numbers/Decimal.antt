-- ===== src/Shell/Numbers/Decimal.antt =====
-- `print_uint` of 4-soc/csrc/shell.c, which finds each digit by repeated subtraction.
use mycpu_4soc_game_port.Common.{
  ℕ, zero, suc, ◌+◌, ◌-◌, ◌*◌, ◌/◌, ◌%◌, ◌^◌, ◌<◌, ◌≡◌, refl, ap, ◌∙◌, arith, Bool, true, false,
  ◌||◌, ltb, ◌==◌, if◌then◌else◌, Bool-cases, inl, inr, Option, some, ◌>>=◌, List, [], ◌∷◌, get_or,
  length,
}
use mycpu_4soc_game_port.Shell.Numbers.{digits_loop, print_uint}
use mycpu_4soc_game_port.Shell.Numbers.Division.{subtract_loop_lem}
use mycpu_4soc_game_port.Tetris.Print.Decimal.{read_decimal, AllDigits}
use native.Mathlib.Nat.{pow-suc, div-add-mod', mod-lt, div-lt_iff_lt-mul}

-- The divisors from 10^(k - 1) down to 1.
abbrev powers : ℕ → List ℕ
powers zero = []
powers (suc k) = 10 ^ k ∷ powers k

pow_10_pos : (k : ℕ) → 0 < 10 ^ k
pow_10_pos zero = omega arith
pow_10_pos (suc k) = omega (arith, pow_10_pos k, pow-suc 10 k)

digits_loop_step :
    (d val : ℕ) (ds : List ℕ) (started : Bool)
    → 0 < d
    → digits_loop (d ∷ ds) val started ≡ (
        if ltb 0 (0 + val / d) || started
        then digits_loop ds (val % d) true >>= (λ rest. some ((b'0' + (0 + val / d)) ∷ rest))
        else digits_loop ds (val % d) started)
unfolding digits_loop
digits_loop_step d val ds started pos =
    rw (subtract_loop_lem (suc val) d val 0 pos (omega arith)) refl

-- What is sent once a digit has been sent: the digits that are left, which continue the number.
record Continues (k val : ℕ) (sent : Option (List ℕ)) : Type 0 where
  out : List ℕ
  returns : sent ≡ some out
  digits : AllDigits out
  value : (acc : ℕ) → read_decimal acc out ≡ acc * 10 ^ k + val

top_digit : (k val : ℕ) → val < 10 ^ suc k → val / 10 ^ k < 10
top_digit k val h = (div-lt_iff_lt-mul (pow_10_pos k)).1 (omega (arith, pow-suc 10 k))

joined :
    (acc q m r p val : ℕ) → p ≡ m * 10 → q * m + r ≡ val → (acc * 10 + q) * m + r ≡ acc * p + val
joined acc q m r p val e f = omega (arith, ap (λ (t : ℕ). acc * t) e)

digits_loop-Continues :
    (k val : ℕ) → val < 10 ^ k → Continues k val (digits_loop (powers k) val true)
unfolding digits_loop
digits_loop-Continues zero val h = record {
  out = [];
  returns = refl;
  digits = tt;
  value = λ acc. omega arith;
}
digits_loop-Continues (suc k) val h =
    let q = val / 10 ^ k in
    let rest = digits_loop-Continues k (val % 10 ^ k) (mod-lt val (pow_10_pos k)) in
    let started : (ltb 0 (0 + q) || true) ≡ true = ground arith in
    record {
      out = (b'0' + (0 + q)) ∷ rest.out;
      returns =
          digits_loop_step (10 ^ k) val (powers k) true (pow_10_pos k)
          ∙ rw (started, rest.returns) refl;
      digits = (omega arith, omega (arith, top_digit k val h), rest.digits);
      value = λ acc.
          let shifted : acc * 10 + (b'0' + (0 + q) - b'0') ≡ acc * 10 + q = omega arith in
          ap (λ t. read_decimal t rest.out) shifted
          ∙ rest.value (acc * 10 + q)
          ∙ joined acc q (10 ^ k) (val % 10 ^ k) (10 ^ suc k) val (pow-suc 10 k)
              (div-add-mod' val (10 ^ k));
    }

-- What stands for a number: its decimal digits, at least one, which start with a 0 only if they are
-- that one.
pub record Prints (val : ℕ) (sent : Option (List ℕ)) : Type 0 where
  pub out : List ℕ
  pub returns : sent ≡ some out
  pub digits : AllDigits out
  pub value : read_decimal 0 out ≡ val
  pub filled : 0 < length out
  pub canonical : get_or out 0 0 ≡ b'0' → out ≡ b'0' ∷ []

first_digit : (q : ℕ) → 0 * 10 + (b'0' + (0 + q) - b'0') ≡ q
first_digit q = omega arith

digits_loop-Prints :
    (k val : ℕ) → 0 < val → val < 10 ^ k → Prints val (digits_loop (powers k) val false)
digits_loop-Prints zero val pos h = absurd (omega arith)
digits_loop-Prints (suc k) val pos h = elim (Bool-cases (ltb 0 (0 + val / 10 ^ k) || false)) [
  | inl first ↦
      let q = val / 10 ^ k in
      let rest = digits_loop-Continues k (val % 10 ^ k) (mod-lt val (pow_10_pos k)) in
      record {
        out = (b'0' + (0 + q)) ∷ rest.out;
        returns =
            digits_loop_step (10 ^ k) val (powers k) false (pow_10_pos k)
            ∙ rw (first, rest.returns) refl;
        digits = (omega arith, omega (arith, top_digit k val h), rest.digits);
        value =
            rest.value (0 * 10 + (b'0' + (0 + q) - b'0'))
            ∙ omega (arith, div-add-mod' val (10 ^ k), ap (λ (t : ℕ). t * 10 ^ k) (first_digit q));
        filled = omega arith;
        canonical = λ e. absurd (ground (arith, first));
      }
  | inr later ↦
      let none : val / 10 ^ k ≡ 0 = ground arith in
      let same : val % 10 ^ k ≡ val =
        omega (arith, div-add-mod' val (10 ^ k), ap (λ (t : ℕ). t * 10 ^ k) none) in
      let rest = digits_loop-Prints k val pos (omega (arith, same, mod-lt val (pow_10_pos k))) in
      record {
        out = rest.out;
        returns =
            digits_loop_step (10 ^ k) val (powers k) false (pow_10_pos k)
            ∙ rw (later, same) rest.returns;
        digits = rest.digits;
        value = rest.value;
        filled = rest.filled;
        canonical = rest.canonical;
      }
]

-- For every `uint32_t`, `print_uint` returns; what it sends are decimal digits, at least one, that
-- read as the number, with no leading zero.
pub print_uint-Prints : (val : ℕ) → val < 2 ^ 32 → Prints val (print_uint val)
unfolding print_uint
print_uint-Prints val h = elim (Bool-cases (val == 0)) [
  | inl e ↦
      let none : val ≡ 0 = ground arith in
      rw none (record {
        out = b'0' ∷ [];
        returns = refl;
        digits = (omega arith, omega arith, tt);
        value = refl;
        filled = omega arith;
        canonical = λ _. refl;
      })
  | inr e ↦ rw e (digits_loop-Prints 10 val (ground arith) (omega arith))
]
