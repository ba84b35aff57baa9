-- ===== src/Shell/Editor/Plain.antt =====
-- Lines that are typed with printable keys only.
use mycpu_4soc_game_port.Common.{
  ℕ, zero, suc, ◌+◌, ◌%◌, ◌/◌, ◌^◌, ◌*◌, ◌≤◌, ◌<◌, bit_and, ◌≡◌, refl, sym, ap, ◌∙◌, arith, Bool,
  true, ◌&&◌, ltb, all_below, all_below_sound, List, [], ◌∷◌, ◌++◌, length, length-append, get_or,
}
use mathlib.Core.List.{append-nil, append_assoc}
use mycpu_4soc_game_port.Common.Parts.{bit_and_15}
use mycpu_4soc_game_port.Shell.Numbers.{hex, print_hex}
use mycpu_4soc_game_port.Shell.Editor.Typing.{type_key, type_keys, received, NoEnter, AllPrintable}

pub received-AllPrintable : (keys : List ℕ) → AllPrintable keys → received keys ≡ keys
received-AllPrintable [] h = refl
received-AllPrintable (c ∷ keys) h =
    let e : c % 256 ≡ c = omega arith in cc (e, received-AllPrintable keys h.2)

pub NoEnter-AllPrintable : (keys : List ℕ) → AllPrintable keys → NoEnter keys
NoEnter-AllPrintable [] h = tt
NoEnter-AllPrintable (c ∷ keys) h = (ground arith, NoEnter-AllPrintable keys h.2)

type_key-plain :
    (c : ℕ) (text : List ℕ)
    → 32 ≤ c
    → c < 127
    → length text < 79
    → type_key c text ≡ text ++ (c ∷ [])
type_key-plain c text lo hi room = ground arith

pub type_keys-plain :
    (keys text : List ℕ)
    → AllPrintable keys
    → length text + length keys ≤ 79
    → type_keys keys text ≡ text ++ keys
type_keys-plain [] text h room = sym (append-nil text)
type_keys-plain (c ∷ keys) text h room =
    ap (type_keys keys) (type_key-plain c text h.0 h.1 (omega arith))
    ∙ type_keys-plain keys (text ++ (c ∷ [])) h.2 (omega (arith, length-append text (c ∷ [])))
    ∙ append_assoc text (c ∷ []) keys

pub append-AllPrintable : (s t : List ℕ) → AllPrintable s → AllPrintable t → AllPrintable (s ++ t)
append-AllPrintable [] t h k = k
append-AllPrintable (c ∷ s) t h k = (h.0, h.1, append-AllPrintable s t h.2 k)

abbrev pub is_word_char : ℕ → Bool
is_word_char c = ltb 32 c && ltb c 127

hex_chars : all_below 16 (λ d. is_word_char (get_or hex d 0)) ≡ true
unfolding all_below
hex_chars = refl

pub hex_char : (v i : ℕ) → is_word_char (get_or hex (bit_and (v / 2 ^ (i * 4)) 15) 0) ≡ true
hex_char v i = rw (bit_and_15 (v / 2 ^ (i * 4))) (
    all_below_sound 16 (λ d. is_word_char (get_or hex d 0)) (v / 2 ^ (i * 4) % 16) hex_chars
      (omega arith))

-- The digits of `print_hex` are printable and no space.
pub print_hex-AllPrintable : (v n : ℕ) → AllPrintable (print_hex v n)
unfolding print_hex
print_hex-AllPrintable v zero = tt
print_hex-AllPrintable v (suc i) =
    (ground (arith, hex_char v i), ground (arith, hex_char v i), print_hex-AllPrintable v i)

pub length-print_hex : (v n : ℕ) → length (print_hex v n) ≡ n
unfolding print_hex
length-print_hex v zero = refl
length-print_hex v (suc i) = ap suc (length-print_hex v i)
