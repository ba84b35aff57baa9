-- ===== src/Shell/Main/Memory.antt =====
-- `memw` and `mem` of 4-soc/csrc/shell.c, from the keys to the reply.
use mycpu_4soc_game_port.Common.{
  ℕ, zero, suc, ◌+◌, ◌-◌, ◌*◌, ◌/◌, ◌%◌, ◌^◌, ◌<◌, bit_and, ◌≡◌, inl, refl, sym, ap, ◌∙◌, arith,
  List, [], ◌∷◌, ◌++◌,
}
use mathlib.Core.List.{append-nil}
use mycpu_4soc_game_port.Common.Text.{codes}
use mycpu_4soc_game_port.Common.Bits.{bit_and_step, bit_and-zero}
use mycpu_4soc_game_port.Common.Parts.{bit_and-cut, bit_and_255}
use mycpu_4soc_game_port.Shell.Numbers.{print_hex, parse_hex}
use mycpu_4soc_game_port.Shell.Numbers.Hex.{parse_hex-print_hex}
use mycpu_4soc_game_port.Shell.Editor.Typing.{AllPrintable}
use mycpu_4soc_game_port.Shell.Editor.Plain.{append-AllPrintable, hex_char, print_hex-AllPrintable}
use mycpu_4soc_game_port.Shell.Args.Split.{words_of, NoSpace, words_of-inner, words_of-last}
use mycpu_4soc_game_port.Shell.Command.{word_address}

bit_and_63 : (d : ℕ) → bit_and d 63 ≡ d % 64
bit_and_63 d = omega (
  arith,
  bit_and_step d 63,
  bit_and_step (d / 2) 31,
  bit_and_step (d / 2 / 2) 15,
  bit_and_step (d / 2 / 2 / 2) 7,
  bit_and_step (d / 2 / 2 / 2 / 2) 3,
  bit_and_step (d / 2 / 2 / 2 / 2 / 2) 1,
  bit_and-zero (d / 2 / 2 / 2 / 2 / 2 / 2),
)

low_ones : (h : ℕ) → h < 2 ^ 30 → bit_and h (2 ^ 30 - 1) ≡ h
low_ones h small =
    let c0 = bit_and-cut 8 (h / 2 ^ 8) (h % 2 ^ 8) (2 ^ 22 - 1) 255 (omega arith) (omega arith) in
    let c1 =
      bit_and-cut 8 (h / 2 ^ 16) (h / 2 ^ 8 % 2 ^ 8) (2 ^ 14 - 1) 255 (omega arith) (omega arith) in
    let c2 = bit_and-cut 8 (h / 2 ^ 24) (h / 2 ^ 16 % 2 ^ 8) 63 255 (omega arith) (omega arith) in
    let e0 : h ≡ h / 2 ^ 8 * 2 ^ 8 + h % 2 ^ 8 = omega arith in
    let e1 : h / 2 ^ 8 ≡ h / 2 ^ 16 * 2 ^ 8 + h / 2 ^ 8 % 2 ^ 8 = omega arith in
    let e2 : h / 2 ^ 16 ≡ h / 2 ^ 24 * 2 ^ 8 + h / 2 ^ 16 % 2 ^ 8 = omega arith in
    omega (
      arith,
      ap (λ (t : ℕ). bit_and t (2 ^ 30 - 1)) e0,
      ap (λ (t : ℕ). bit_and t (2 ^ 22 - 1)) e1,
      ap (λ (t : ℕ). bit_and t (2 ^ 14 - 1)) e2,
      c0,
      c1,
      c2,
      bit_and_255 (h % 2 ^ 8),
      bit_and_255 (h / 2 ^ 8 % 2 ^ 8),
      bit_and_255 (h / 2 ^ 16 % 2 ^ 8),
      bit_and_63 (h / 2 ^ 24),
    )

-- The address rounded down to a word.
pub word_address_lem : (a : ℕ) → a < 2 ^ 32 → word_address a ≡ a / 4 * 4
unfolding word_address
word_address_lem a h =
    let e : a ≡ a / 4 * 2 ^ 2 + a % 4 = omega arith in
    omega (
      arith,
      ap (λ (t : ℕ). bit_and t (2 ^ 32 - 1 - 3)) e,
      bit_and-cut 2 (a / 4) (a % 4) (2 ^ 30 - 1) 0 (omega arith) (omega arith),
      bit_and-zero (a % 4),
      low_ones (a / 4) (omega arith),
    )

-- A number as it is typed.
abbrev pub hex_text : ℕ → List ℕ
hex_text v = codes "0x" ++ print_hex v 8

abbrev pub memw_text : ℕ → ℕ → List ℕ
memw_text a v = codes "memw" ++ (b' ' ∷ (hex_text a ++ (b' ' ∷ hex_text v)))

abbrev pub mem_text : ℕ → List ℕ
mem_text a = codes "mem" ++ (b' ' ∷ hex_text a)

digits-NoSpace : (v n : ℕ) → NoSpace (print_hex v n)
unfolding print_hex
digits-NoSpace v zero = tt
digits-NoSpace v (suc i) = (ground (arith, hex_char v i), digits-NoSpace v i)

hex_text-NoSpace : (v : ℕ) → NoSpace (hex_text v)
hex_text-NoSpace v = (omega arith, (omega arith, digits-NoSpace v 8))

pub hex_text-AllPrintable : (v : ℕ) → AllPrintable (hex_text v)
hex_text-AllPrintable v =
    append-AllPrintable (codes "0x") (print_hex v 8) (omega arith) (print_hex-AllPrintable v 8)

pub parse_hex-hex_text : (v : ℕ) → v < 2 ^ 32 → parse_hex (hex_text v) ≡ v
parse_hex-hex_text v h =
    ap (λ t. parse_hex (codes "0x" ++ t)) (sym (append-nil (print_hex v 8)))
    ∙ parse_hex-print_hex (codes "0x") v 8 [] (inl refl) tt
    ∙ omega arith

pub words_of-memw_text :
    (a v : ℕ) → words_of (memw_text a v) ≡ codes "memw" ∷ hex_text a ∷ hex_text v ∷ []
words_of-memw_text a v =
    words_of-inner (codes "memw") (hex_text a ++ (b' ' ∷ hex_text v)) (omega arith) (cc)
    ∙ ap (◌∷◌ (codes "memw")) (
        words_of-inner (hex_text a) (hex_text v) (hex_text-NoSpace a) (cc)
        ∙ ap (◌∷◌ (hex_text a)) alone)
  where
    alone : words_of (hex_text v) ≡ hex_text v ∷ []
    alone = rw append-nil at (words_of-last (hex_text v) (hex_text-NoSpace v) (cc))

pub words_of-mem_text : (a : ℕ) → words_of (mem_text a) ≡ codes "mem" ∷ hex_text a ∷ []
words_of-mem_text a =
    words_of-inner (codes "mem") (hex_text a) (omega arith) (cc) ∙ ap (◌∷◌ (codes "mem")) alone
  where
    alone : words_of (hex_text a) ≡ hex_text a ∷ []
    alone = rw append-nil at (words_of-last (hex_text a) (hex_text-NoSpace a) (cc))
