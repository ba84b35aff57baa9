-- ===== src/Shell/Command/Cpi.antt =====
-- The CPI that `cmd_perf` of 4-soc/csrc/shell.c shows.
use mycpu_4soc_game_port.Common.{
  ℕ, suc, get_or, ◌*◌, ◌/◌, ◌%◌, ◌^◌, ◌<◌, ◌≡◌, refl, ap, ◌∙◌, arith, Bool, true, false, ◌==◌,
  ==_iff, all_below, all_below_sound, Bool-cases, inl, inr, ltb, if◌then◌else◌, Option, none, some,
  List, [], ◌∷◌, ◌++◌, length, u32,
}
use mycpu_4soc_game_port.Common.Text.{codes, crlf}
use mycpu_4soc_game_port.Tetris.Print.Decimal.{read_decimal, AllDigits}
use mycpu_4soc_game_port.Shell.Numbers.{print_uint, digits_loop, subtract_loop}
use mycpu_4soc_game_port.Shell.Numbers.Decimal.{Prints, print_uint-Prints}
use mycpu_4soc_game_port.Shell.Command.{cpi_line}
use mycpu_4soc_game_port.Shell.Command.Replies.{udiv_pos, umod_pos}
use mathlib.Core.List.{append_assoc}
use native.Mathlib.Nat.{div-le_self}

-- A ratio with two decimal places, which are those of the product modulo 2^32.
pub record ShowsRatio (cycles instret : ℕ) (sent : Option (List ℕ)) : Type 0 where
  pub whole : List ℕ
  pub places : List ℕ
  pub returns : sent ≡ some (codes "  CPI:      " ++ whole ++ codes "." ++ places ++ crlf)
  pub digits : AllDigits whole
  pub filled : 0 < length whole
  pub canonical : get_or whole 0 0 ≡ b'0' → whole ≡ b'0' ∷ []
  pub digits' : AllDigits places
  pub two : length places ≡ 2
  pub integer : read_decimal 0 whole ≡ cycles / instret
  pub hundredths : read_decimal 0 places ≡ u32 (cycles * 100) / instret % 100
  pub exact : cycles * 100 < 2 ^ 32 → read_decimal 0 places ≡ cycles * 100 / instret % 100

abbrev digits_below_100 : ℕ → Bool
digits_below_100 v = elim (print_uint v) [
  | some out ↦ length out == (if ltb v 10 then 1 else 2)
  | none ↦ false
]

lengths_table : all_below 100 digits_below_100 ≡ true
unfolding all_below print_uint digits_loop subtract_loop
lengths_table = refl

length-print_uint :
    (v : ℕ) (out : List ℕ)
    → v < 100
    → print_uint v ≡ some out
    → length out ≡ (if ltb v 10 then 1 else 2)
length-print_uint v out h e =
    from (print_uint v) e (all_below_sound 100 digits_below_100 v lengths_table h)
  where
    from :
        (r : Option (List ℕ))
        → r ≡ some out
        → elim r [ some o ↦ length o == (if ltb v 10 then 1 else 2) | none ↦ false ] ≡ true
        → length out ≡ (if ltb v 10 then 1 else 2)
    from none e t = cc
    from (some o) e t = let same : o ≡ out = cc in (==_iff _ _).0 (rw (← same) t)

-- `if (cpi_frac < 10) uart_putc('0');`
abbrev pad : ℕ → List ℕ
pad v = if ltb v 10 then b'0' ∷ [] else []

padded :
    (v : ℕ) (out : List ℕ)
    → v < 100
    → print_uint v ≡ some out
    → read_decimal 0 out ≡ v
    → AllDigits out
    → (length (pad v ++ out) ≡ 2) × (read_decimal 0 (pad v ++ out) ≡ v) × AllDigits (pad v ++ out)
padded v out h e value digits =
    let short = length-print_uint v out h e in
    elim (Bool-cases (ltb v 10)) [
      | inl low ↦
          let two : suc (length out) ≡ 2 = ground (arith, short) in
          rw low (two, value, (omega arith, omega arith, digits))
      | inr high ↦ let two : length out ≡ 2 = ground (arith, short) in rw high (two, value, digits)
    ]

-- For 32-bit counters of which `instret` is not 0, the CPI is shown: decimal digits, at least one
-- and with no leading zero, that read as the whole part of the quotient, a point, and two decimal
-- digits that read as the hundredths of the quotient, if
-- `cycles * 100` fits in 32 bits. In general they are those of that product modulo 2^32.
pub cpi_line-ShowsRatio :
    (cycles instret : ℕ)
    → cycles < 2 ^ 32
    → 0 < instret
    → ShowsRatio cycles instret (cpi_line cycles instret)
unfolding cpi_line
cpi_line-ShowsRatio cycles instret h pos = record {
  whole = whole.out;
  places = pad part ++ places.out;
  returns =
      rw
        (
          udiv_pos cycles instret h pos,
          udiv_pos total instret (omega arith) pos,
          umod_pos (total / instret) 100 bound (omega arith),
          whole.returns,
          places.returns,
        )
        (ap (λ t. some (t ++ crlf))
          (append_assoc (codes "  CPI:      " ++ whole.out ++ codes ".") (pad part) places.out));
  digits = whole.digits;
  filled = whole.filled;
  canonical = whole.canonical;
  digits' = shown.2;
  two = shown.0;
  integer = whole.value;
  hundredths = shown.1;
  exact = λ fits.
      let same : total ≡ cycles * 100 = omega arith in
      shown.1 ∙ ap (λ (t : ℕ). t / instret % 100) same;
}
  where
    total : ℕ
    total = u32 (cycles * 100)

    part : ℕ
    part = total / instret % 100

    bound : total / instret < 2 ^ 32
    bound = omega (arith, div-le_self total instret)

    whole : Prints (cycles / instret) (print_uint (cycles / instret))
    whole = print_uint-Prints (cycles / instret) (omega (arith, div-le_self cycles instret))

    places : Prints part (print_uint part)
    places = print_uint-Prints part (omega arith)

    shown :
        (length (pad part ++ places.out) ≡ 2)
        × (read_decimal 0 (pad part ++ places.out) ≡ part)
        × AllDigits (pad part ++ places.out)
    shown = padded part places.out (omega arith) places.returns places.value places.digits
