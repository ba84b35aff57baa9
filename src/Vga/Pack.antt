-- ===== src/Vga/Pack.antt =====
-- The packed words of a frame.
use mycpu_4soc_game_port.Common.{
  ℕ, zero, suc, ◌+◌, ◌*◌, ◌/◌, ◌%◌, ◌^◌, ◌<◌, bit_and, bit_or, ◌≡◌, refl, ap, ◌∙◌, arith, List, [],
  ◌∷◌, ◌++◌, get_or,
}
use mycpu_4soc_game_port.Common.Bits.{bit_or_step}
use mycpu_4soc_game_port.Common.Parts.{bit_and_15}
use Prim.Native.Nat.{bit_or-bitwise}
use native.Mathlib.Nat.{pow-suc}
use mycpu_4soc_game_port.Vga.{vga_pack8_pixels, stream_words, vga_addr_stream_data}

double : (b n : ℕ) → b * 2 ^ suc n ≡ b * 2 ^ n * 2
double b n = omega (arith, ap (λ (t : ℕ). b * t) (pow-suc 2 n))

zero_or : (x : ℕ) → bit_or 0 x ≡ x
zero_or x = bit_or-bitwise 0 x

-- Numbers with no digit in common.
or_above : (n a b : ℕ) → a < 2 ^ n → bit_or a (b * 2 ^ n) ≡ a + b * 2 ^ n
or_above zero a b h = let none : a ≡ 0 = omega arith in rw none (omega (arith, zero_or (b * 1)))
or_above (suc n) a b h = rw (double b n) (
    omega (
      arith,
      bit_or_step a (b * 2 ^ n * 2),
      ap (bit_or (a / 2)) (halved (b * 2 ^ n)),
      or_above n (a / 2) b (omega (arith, pow-suc 2 n)),
    ))
  where
    halved : (t : ℕ) → t * 2 / 2 ≡ t
    halved t = omega arith

-- The pixel that goes into place `k` of the word.
abbrev nibble : List ℕ → ℕ → ℕ → ℕ
nibble fb n k = bit_and (get_or fb (n + k) 0) 15

nibble-lt : (fb : List ℕ) (n k : ℕ) → nibble fb n k < 16
nibble-lt fb n k = omega (arith, bit_and_15 (get_or fb (n + k) 0))

packed_sum :
    (a b c d e f g h : ℕ)
    → (a < 16) × (b < 16) × (c < 16) × (d < 16) × (e < 16) × (f < 16) × (g < 16)
    → bit_or
        (bit_or
          (bit_or
            (bit_or
              (bit_or (bit_or (bit_or (a * 2 ^ 0) (b * 2 ^ 4)) (c * 2 ^ 8)) (d * 2 ^ 12))
              (e * 2 ^ 16))
            (f * 2 ^ 20))
          (g * 2 ^ 24))
        (h * 2 ^ 28)
      ≡ a + b * 2 ^ 4 + c * 2 ^ 8 + d * 2 ^ 12 + e * 2 ^ 16 + f * 2 ^ 20 + g * 2 ^ 24 + h * 2 ^ 28
packed_sum a b c d e f g h small =
    let start : a * 2 ^ 0 ≡ a = omega arith in
    rw
      (
        start,
        or_above 4 a b (omega arith),
        or_above 8 (a + b * 2 ^ 4) c (omega arith),
        or_above 12 (a + b * 2 ^ 4 + c * 2 ^ 8) d (omega arith),
        or_above 16 (a + b * 2 ^ 4 + c * 2 ^ 8 + d * 2 ^ 12) e (omega arith),
        or_above 20 (a + b * 2 ^ 4 + c * 2 ^ 8 + d * 2 ^ 12 + e * 2 ^ 16) f (omega arith),
        or_above 24 (a + b * 2 ^ 4 + c * 2 ^ 8 + d * 2 ^ 12 + e * 2 ^ 16 + f * 2 ^ 20) g
            (omega arith),
        or_above 28 (a + b * 2 ^ 4 + c * 2 ^ 8 + d * 2 ^ 12 + e * 2 ^ 16 + f * 2 ^ 20 + g * 2 ^ 24)
            h (omega arith),
      )
      refl

packed_nibbles :
    (a b c d e f g h k : ℕ)
    → (a < 16) × (b < 16) × (c < 16) × (d < 16) × (e < 16) × (f < 16) × (g < 16) × (h < 16)
    → k < 8
    → (a + b * 2 ^ 4 + c * 2 ^ 8 + d * 2 ^ 12 + e * 2 ^ 16 + f * 2 ^ 20 + g * 2 ^ 24 + h * 2 ^ 28)
        / 2 ^ (4 * k)
        % 16
      ≡ get_or (a ∷ b ∷ c ∷ d ∷ e ∷ f ∷ g ∷ h ∷ []) k 0
packed_nibbles a b c d e f g h zero small p = omega arith
packed_nibbles a b c d e f g h (suc zero) small p = omega arith
packed_nibbles a b c d e f g h (suc (suc zero)) small p = omega arith
packed_nibbles a b c d e f g h (suc (suc (suc zero))) small p = omega arith
packed_nibbles a b c d e f g h (suc (suc (suc (suc zero)))) small p = omega arith
packed_nibbles a b c d e f g h (suc (suc (suc (suc (suc zero))))) small p = omega arith
packed_nibbles a b c d e f g h (suc (suc (suc (suc (suc (suc zero)))))) small p = omega arith
packed_nibbles a b c d e f g h (suc (suc (suc (suc (suc (suc (suc zero))))))) small p = omega arith
packed_nibbles a b c d e f g h (suc (suc (suc (suc (suc (suc (suc (suc k)))))))) small p =
    absurd (omega arith)

pick_nibble :
    (fb : List ℕ) (n k : ℕ)
    → k < 8
    → get_or
        (nibble fb n 0
          ∷ nibble fb n 1
          ∷ nibble fb n 2
          ∷ nibble fb n 3
          ∷ nibble fb n 4
          ∷ nibble fb n 5
          ∷ nibble fb n 6
          ∷ nibble fb n 7
          ∷ [])
        k
        0
      ≡ nibble fb n k
pick_nibble fb n zero p = refl
pick_nibble fb n (suc zero) p = refl
pick_nibble fb n (suc (suc zero)) p = refl
pick_nibble fb n (suc (suc (suc zero))) p = refl
pick_nibble fb n (suc (suc (suc (suc zero)))) p = refl
pick_nibble fb n (suc (suc (suc (suc (suc zero))))) p = refl
pick_nibble fb n (suc (suc (suc (suc (suc (suc zero)))))) p = refl
pick_nibble fb n (suc (suc (suc (suc (suc (suc (suc zero))))))) p = refl
pick_nibble fb n (suc (suc (suc (suc (suc (suc (suc (suc k)))))))) p = absurd (omega arith)

-- Each of the eight pixels from `n` on can be read back from the word, as its low four bits.
pub vga_pack8_pixels-nibble :
    (fb : List ℕ) (n k : ℕ)
    → k < 8
    → vga_pack8_pixels fb n / 2 ^ (4 * k) % 16 ≡ get_or fb (n + k) 0 % 16
unfolding vga_pack8_pixels
vga_pack8_pixels-nibble fb n k h =
    let small = nibble-lt fb n in
    ap (λ (w : ℕ). w / 2 ^ (4 * k) % 16)
      (packed_sum (nibble fb n 0) (nibble fb n 1) (nibble fb n 2) (nibble fb n 3) (nibble fb n 4)
        (nibble fb n 5) (nibble fb n 6) (nibble fb n 7)
        (small 0, small 1, small 2, small 3, small 4, small 5, small 6))
    ∙ packed_nibbles _ _ _ _ _ _ _ _ k
        (small 0, small 1, small 2, small 3, small 4, small 5, small 6, small 7) h
    ∙ pick_nibble fb n k h
    ∙ bit_and_15 (get_or fb (n + k) 0)

-- The `i`-th of the words.
pub stream_words_at :
    (left start i : ℕ) (fb : List ℕ) (rest : List (ℕ × ℕ))
    → i < left
    → get_or (stream_words left start fb ++ rest) i (0, 0)
      ≡ (vga_addr_stream_data, vga_pack8_pixels fb ((start + i) * 8))
unfolding stream_words
stream_words_at zero start i fb rest h = absurd (omega arith)
stream_words_at (suc left) start zero fb rest h = let e : start + 0 ≡ start = omega arith in rw e
stream_words_at (suc left) start (suc i) fb rest h =
    let e : start + suc i ≡ start + 1 + i = omega arith in
    rw e (stream_words_at left (start + 1) i fb rest (omega arith))
