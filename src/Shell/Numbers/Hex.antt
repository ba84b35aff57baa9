-- ===== src/Shell/Numbers/Hex.antt =====
-- `parse_hex` of 4-soc/csrc/shell.c, and what it reads of what `print_hex` sends.
use mycpu_4soc_game_port.Common.{
  ℕ, zero, suc, ◌+◌, ◌*◌, ◌/◌, ◌%◌, ◌^◌, ◌≤◌, ◌<◌, bit_and, bit_or, Bool, true, false, ◌≡◌, ◌⊎◌,
  inl, inr, refl, sym, ap, ◌∙◌, arith, ◌==◌, ==_iff, all_below, all_below_sound, Option, none, some,
  List, [], ◌∷◌, ◌++◌, get_or, u32,
}
use mycpu_4soc_game_port.Common.Text.{codes}
use mycpu_4soc_game_port.Common.Parts.{bit_or-cut, bit_or-zero, zero-bit_or, bit_and_15}
use mycpu_4soc_game_port.Shell.Numbers.{
  hex, print_hex, hex_digit, parse_loop, skip_prefix, parse_hex,
}
use native.Mathlib.Nat.{pow-suc, add-mul-mod_self_right, mod-eq_of_lt, div-add-mod', mod-lt}
use native.Mathlib.Numerals.{towards_suc}

pow_16 : (i : ℕ) → 2 ^ (i * 4) ≡ 16 ^ i
pow_16 zero = refl
pow_16 (suc i) =
    let e : suc i * 4 ≡ i * 4 + 4 = omega arith in
    let p : 2 ^ (i * 4 + 4) ≡ 16 * 2 ^ (i * 4) = simp towards_suc (omega arith) in
    rw e (omega (arith, p, pow_16 i, pow-suc 16 i))

pow_16_pos : (i : ℕ) → 0 < 16 ^ i
pow_16_pos zero = omega arith
pow_16_pos (suc i) = omega (arith, pow_16_pos i, pow-suc 16 i)

-- The lowest digits are one digit and those below it.
mod_digit : (v m : ℕ) → 0 < m → v % (m * 16) ≡ v / m % 16 * m + v % m
mod_digit v m pos =
    let q = v / m in
    let low = q % 16 * m + v % m in
    let small : low < m * 16 = grind (arith, mod-lt v pos, mod-lt q) in
    let whole : low + q / 16 * (m * 16) ≡ v =
      omega (arith, div-add-mod' v m, ap (λ (t : ℕ). t * m) (div-add-mod' q 16)) in
    ap (λ t. t % (m * 16)) (sym whole)
    ∙ add-mul-mod_self_right low (q / 16) (m * 16)
    ∙ mod-eq_of_lt small

-- A wrap inside a sum and a product does not show under the wrap of the whole.
wrap_inside : (a m r : ℕ) → u32 (u32 a * m + r) ≡ u32 (a * m + r)
wrap_inside a m r =
    let whole : u32 a * m + r + a / 2 ^ 32 * m * 2 ^ 32 ≡ a * m + r =
      omega (arith, ap (λ (t : ℕ). t * m) (div-add-mod' a (2 ^ 32))) in
    sym (add-mul-mod_self_right (u32 a * m + r) (a / 2 ^ 32 * m) (2 ^ 32)) ∙ ap u32 whole

shift_in : (v d : ℕ) → d < 16 → bit_or (u32 (v * 2 ^ 4)) d ≡ u32 (v * 16 + d)
shift_in v d h =
    let e : u32 (v * 2 ^ 4) ≡ v % 2 ^ 28 * 2 ^ 4 + 0 = omega arith in
    let low : d ≡ 0 * 2 ^ 4 + d = omega arith in
    rw e (
      omega (
        arith,
        ap (bit_or (v % 2 ^ 28 * 2 ^ 4 + 0)) low,
        bit_or-cut 4 (v % 2 ^ 28) 0 0 d (omega arith) h,
        bit_or-zero (v % 2 ^ 28),
        zero-bit_or d,
      ))

abbrev reads_digit : ℕ → Bool
reads_digit d = elim (hex_digit (get_or hex d 0)) [ some e ↦ e == d | none ↦ false ]

hex_table : all_below 16 reads_digit ≡ true
unfolding all_below hex_digit
hex_table = refl

hex_digit-hex : (d : ℕ) → d < 16 → hex_digit (get_or hex d 0) ≡ some d
hex_digit-hex d h = from (hex_digit (get_or hex d 0)) (all_below_sound 16 reads_digit d hex_table h)
  where
    from : (r : Option ℕ) → elim r [ some e ↦ e == d | none ↦ false ] ≡ true → r ≡ some d
    from none p = cc
    from (some e) p = ap some ((==_iff e d).0 p)

-- Whether a text starts with no hexadecimal digit.
abbrev pub Ends : List ℕ → Type 0
Ends [] = Unit {0}
Ends (c ∷ s) = hex_digit c ≡ none

parse_loop-Ends : (s : List ℕ) (v : ℕ) → Ends s → parse_loop s v ≡ v
unfolding parse_loop
parse_loop-Ends [] v h = refl
parse_loop-Ends (c ∷ s) v h = rw (h, parse_loop)

parse_loop_digit :
    (c d v : ℕ) (s : List ℕ)
    → hex_digit c ≡ some d
    → parse_loop (c ∷ s) v ≡ parse_loop s (bit_or (u32 (v * 2 ^ 4)) d)
unfolding parse_loop
parse_loop_digit c d v s h = rw (h, parse_loop)

digit_sum : (v d m r p x : ℕ) → p ≡ m * 16 → x ≡ d * m + r → (v * 16 + d) * m + r ≡ v * p + x
digit_sum v d m r p x e f = omega (arith, ap (λ (t : ℕ). v * t) e)

-- The digits shift the value up and fill it from below.
parse_loop-print_hex :
    (v val n : ℕ) (tail : List ℕ)
    → v < 2 ^ 32
    → Ends tail
    → parse_loop (print_hex val n ++ tail) v ≡ u32 (v * 16 ^ n + val % 16 ^ n)
unfolding print_hex
parse_loop-print_hex v val zero tail h ends = parse_loop-Ends tail v ends ∙ omega arith
parse_loop-print_hex v val (suc i) tail h ends =
    let d = val / 16 ^ i % 16 in
    let read : hex_digit (get_or hex (bit_and (val / 2 ^ (i * 4)) 15) 0) ≡ some d =
      rw (pow_16 i, bit_and_15 (val / 16 ^ i)) (hex_digit-hex d (omega arith)) in
    let next = u32 (v * 16 + d) in
    let rest = parse_loop-print_hex next val i tail (omega arith) ends in
    let sum =
      digit_sum v d (16 ^ i) (val % 16 ^ i) (16 ^ suc i) (val % 16 ^ suc i)
        (omega (arith, pow-suc 16 i))
        (ap (λ (t : ℕ). val % t) (pow-suc 16 i) ∙ mod_digit val (16 ^ i) (pow_16_pos i)) in
    parse_loop_digit _ d v (print_hex val i ++ tail) read
    ∙ ap (parse_loop (print_hex val i ++ tail)) (shift_in v d (omega arith))
    ∙ rest
    ∙ wrap_inside (v * 16 + d) (16 ^ i) (val % 16 ^ i)
    ∙ ap u32 sum

no_prefix : (c x d : ℕ) (s : List ℕ) → hex_digit x ≡ some d → skip_prefix (c ∷ x ∷ s) ≡ c ∷ x ∷ s
unfolding skip_prefix hex_digit
no_prefix c x d s h = ground arith

digit_at :
    (val i : ℕ)
    → hex_digit (get_or hex (bit_and (val / 2 ^ (i * 4)) 15) 0) ≡ some (val / 2 ^ (i * 4) % 16)
digit_at val i = rw (bit_and_15 (val / 2 ^ (i * 4))) (hex_digit-hex _ (omega arith))

parse_hex_plain :
    (val n : ℕ) (tail : List ℕ)
    → 2 ≤ n
    → parse_hex (print_hex val n ++ tail) ≡ parse_loop (print_hex val n ++ tail) 0
unfolding parse_hex print_hex
parse_hex_plain val zero tail h = absurd (omega arith)
parse_hex_plain val (suc zero) tail h = absurd (omega arith)
parse_hex_plain val (suc (suc i)) tail h =
    ap (λ s. parse_loop s 0)
      (no_prefix (get_or hex (bit_and (val / 2 ^ (suc i * 4)) 15) 0) _ _ (print_hex val i ++ tail)
        (digit_at val i))

-- What may stand before the `n` digits: `0x` or `0X`, or nothing before two digits or more.
abbrev pub IsPrefix : List ℕ → ℕ → Type 0
IsPrefix p n = (p ≡ codes "0x") ⊎ (p ≡ codes "0X") ⊎ (p ≡ []) × (2 ≤ n)

parse_hex-loop :
    (p : List ℕ) (val n : ℕ) (tail : List ℕ)
    → IsPrefix p n
    → parse_hex (p ++ (print_hex val n ++ tail)) ≡ parse_loop (print_hex val n ++ tail) 0
unfolding parse_hex skip_prefix
parse_hex-loop p val n tail (inl e) = rw e refl
parse_hex-loop p val n tail (inr (inl e)) = rw e refl
parse_hex-loop p val n tail (inr (inr (e, two))) = rw e (parse_hex_plain val n tail two)

-- Whatever text follows the `n` digits that `print_hex` sends, if it starts with no hexadecimal
-- digit then `parse_hex` reads the digits, with `0x` or `0X` before them, or with neither if there
-- are at least two, and gives the value that they show, modulo 2^32.
pub parse_hex-print_hex :
    (p : List ℕ) (val n : ℕ) (tail : List ℕ)
    → IsPrefix p n
    → Ends tail
    → parse_hex (p ++ (print_hex val n ++ tail)) ≡ u32 (val % 16 ^ n)
parse_hex-print_hex p val n tail prefixed ends =
    parse_hex-loop p val n tail prefixed
    ∙ parse_loop-print_hex 0 val n tail (omega arith) ends
    ∙ omega arith

-- The eight digits of a 32-bit value give the value back.
pub parse_hex_8 : (val : ℕ) → val < 2 ^ 32 → parse_hex (print_hex val 8 ++ []) ≡ val
parse_hex_8 val h =
    omega (arith, parse_hex-print_hex [] val 8 [] (inr (inr (refl, omega arith))) tt)
