-- ===== src/Shell/Numbers.antt =====
-- The numbers of 4-soc/csrc/shell.c: `str_eq`, `print_uint`, `print_hex`, `parse_hex`, `udiv` and
-- `umod`. A text is the list of its bytes before the 0 that ends it; what a printer sends is such a
-- list. A loop that counts down by subtraction has fuel, and is `none` when that runs out.
pub mod Equal
pub mod Hex
pub mod Division
pub mod Decimal
use package.mycpu_4soc_game_port.Common.{
  ℕ, zero, suc, ◌+◌, ◌-◌, ◌*◌, ◌/◌, ◌^◌, bit_and, bit_or, Bool, true, false, not, ◌&&◌, ◌||◌, ltb,
  leb, ◌==◌, if◌then◌else◌, Option, none, some, ◌>>=◌, List, [], ◌∷◌, ◌++◌, get_or, u32,
}
use package.mycpu_4soc_game_port.Common.Text.{codes}

-- `while (*a && *b) { if (*a++ != *b++) return 0; } return *a == *b;`
unfoldable pub str_eq : List ℕ → List ℕ → Bool
str_eq [] [] = true
str_eq [] (y ∷ b) = false
str_eq (x ∷ a) [] = false
str_eq (x ∷ a) (y ∷ b) = x == y && str_eq a b

-- `while (val >= d) { val -= d; digit++; }`
unfoldable pub subtract_loop : ℕ → ℕ → ℕ → ℕ → Option (ℕ × ℕ)
subtract_loop zero d val digit = none
subtract_loop (suc fuel) d val digit =
    let rest = subtract_loop fuel d (val - d) (digit + 1) in
    if leb d val then rest else some (val, digit)

abbrev pub divisors : List ℕ
divisors = 1000000000 ∷ 100000000 ∷ 10000000 ∷ 1000000 ∷ 100000 ∷ 10000 ∷ 1000 ∷ 100 ∷ 10 ∷ 1 ∷ []

-- The rounds of the `for` loop over the divisors that are left: what it sends.
unfoldable pub digits_loop : List ℕ → ℕ → Bool → Option (List ℕ)
digits_loop [] val started = some []
digits_loop (d ∷ ds) val started = subtract_loop (suc val) d val 0 >>= λ (val', digit).
    if ltb 0 digit || started
    then digits_loop ds val' true >>= (λ rest. some ((b'0' + digit) ∷ rest))
    else digits_loop ds val' started

unfoldable pub print_uint : ℕ → Option (List ℕ)
print_uint val = if val == 0 then some (b'0' ∷ []) else digits_loop divisors val false

abbrev pub hex : List ℕ
hex = codes "0123456789abcdef"

-- `for (i = digits - 1; i >= 0; i--) uart_putc(hex[(val >> (i * 4)) & 0xF]);`
unfoldable pub print_hex : ℕ → ℕ → List ℕ
print_hex val zero = []
print_hex val (suc i) = get_or hex (bit_and (val / 2 ^ (i * 4)) 15) 0 ∷ print_hex val i

-- The value of a digit; `none` is the `break`.
unfoldable pub hex_digit : ℕ → Option ℕ
hex_digit c =
    if leb b'0' c && leb c b'9'
    then some (c - b'0')
    else if leb b'a' c && leb c b'f'
    then some (c - b'a' + 10)
    else if leb b'A' c && leb c b'F'
    then some (c - b'A' + 10)
    else none

unfoldable pub parse_loop : List ℕ → ℕ → ℕ
parse_loop [] val = val
parse_loop (c ∷ s) val = elim (hex_digit c) [
  | some digit ↦ parse_loop s (bit_or (u32 (val * 2 ^ 4)) digit)
  | none ↦ val
]

-- `if (s[0] == '0' && (s[1] == 'x' || s[1] == 'X')) s += 2;`
unfoldable pub skip_prefix : List ℕ → List ℕ
skip_prefix (c ∷ x ∷ s) = if c == b'0' && (x == b'x' || x == b'X') then s else c ∷ x ∷ s
skip_prefix s = s

unfoldable pub parse_hex : List ℕ → ℕ
parse_hex s = parse_loop (skip_prefix s) 0

-- `while (num >= den) { num -= den; quot++; }`
unfoldable pub divide_loop : ℕ → ℕ → ℕ → ℕ → Option ℕ
divide_loop zero num den quot = none
divide_loop (suc fuel) num den quot =
    let rest = divide_loop fuel (num - den) den (u32 (quot + 1)) in
    if leb den num then rest else some quot

unfoldable pub udiv : ℕ → ℕ → Option ℕ
udiv num den = if den == 0 then some 0 else divide_loop (suc num) num den 0

-- `while (num >= den) num -= den;`
unfoldable pub remainder_loop : ℕ → ℕ → ℕ → Option ℕ
remainder_loop zero num den = none
remainder_loop (suc fuel) num den =
    let rest = remainder_loop fuel (num - den) den in if leb den num then rest else some num

unfoldable pub umod : ℕ → ℕ → Option ℕ
umod num den = if den == 0 then some 0 else remainder_loop (suc num) num den
