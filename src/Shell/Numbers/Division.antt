-- ===== src/Shell/Numbers/Division.antt =====
-- `udiv` and `umod` of 4-soc/csrc/shell.c, and the loop inside `print_uint`.
use mycpu_4soc_game_port.Common.{
  ℕ, zero, suc, ◌+◌, ◌-◌, ◌/◌, ◌%◌, ◌^◌, ◌<◌, ◌≡◌, refl, arith, ◌==◌, if◌then◌else◌, some, u32,
}
use mycpu_4soc_game_port.Shell.Numbers.{subtract_loop, divide_loop, udiv, remainder_loop, umod}
use native.Mathlib.Nat.{div-eq-sub-div, mod-eq-sub-mod, div-eq_of_lt, mod-eq_of_lt}

-- The loop returns if its fuel is above `val`: the rest and the count.
pub subtract_loop_lem :
    (fuel d val digit : ℕ)
    → 0 < d
    → val < fuel
    → subtract_loop fuel d val digit ≡ some (val % d, digit + val / d)
unfolding subtract_loop
subtract_loop_lem zero d val digit pos h = absurd (omega arith)
subtract_loop_lem (suc fuel) d val digit pos h = ground (
  arith,
  subtract_loop_lem fuel d (val - d) (digit + 1),
  div-eq-sub-div {m = d} {n = val},
  mod-eq-sub-mod {n = val} {m = d},
  div-eq_of_lt {n = val} {m = d},
  mod-eq_of_lt {n = val} {m = d},
)

divide_loop_lem :
    (fuel num den quot : ℕ)
    → 0 < den
    → num < fuel
    → quot + num < 2 ^ 32
    → divide_loop fuel num den quot ≡ some (quot + num / den)
unfolding divide_loop
divide_loop_lem zero num den quot pos h fits = absurd (omega arith)
divide_loop_lem (suc fuel) num den quot pos h fits = ground (
  arith,
  divide_loop_lem fuel (num - den) den (u32 (quot + 1)),
  div-eq-sub-div {m = den} {n = num},
  div-eq_of_lt {n = num} {m = den},
)

remainder_loop_lem :
    (fuel num den : ℕ) → 0 < den → num < fuel → remainder_loop fuel num den ≡ some (num % den)
unfolding remainder_loop
remainder_loop_lem zero num den pos h = absurd (omega arith)
remainder_loop_lem (suc fuel) num den pos h = ground (
  arith,
  remainder_loop_lem fuel (num - den) den,
  mod-eq-sub-mod {n = num} {m = den},
  mod-eq_of_lt {n = num} {m = den},
)

-- For every `uint32_t` dividend the two loops end; `udiv` returns the quotient and `umod` the
-- remainder, and both return 0 for the divisor 0.
pub udiv-umod_lem :
    (num den : ℕ)
    → num < 2 ^ 32
    → (udiv num den ≡ some (if den == 0 then 0 else num / den))
      × (umod num den ≡ some (if den == 0 then 0 else num % den))
unfolding udiv umod
udiv-umod_lem num zero h = (refl, refl)
udiv-umod_lem num (suc d) h =
    ground
      (arith, divide_loop_lem (suc num) num (suc d) 0, remainder_loop_lem (suc num) num (suc d))
