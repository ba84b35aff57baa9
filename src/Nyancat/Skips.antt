-- ===== src/Nyancat/Skips.antt =====
-- The skips of scripts/gen-nyancat-data.py, and what a decoder makes of them.
use mycpu_4soc_game_port.Common.{
  ℕ, zero, suc, ◌+◌, ◌-◌, ◌*◌, ◌/◌, ◌≤◌, ◌<◌, min, bit_or, ◌≡◌, refl, sym, ap, ◌∙◌, arith, leb,
  ◌==◌, Bool-cases, inl, inr, Option, some, ◌>>=◌, List, [], ◌∷◌, ◌++◌, length, take, length-append,
}
use mathlib.Core.List.{append-nil, append_assoc}
use mycpu_4soc_game_port.Nyancat.Decoder.{frame_size, Decoder, skip}
use mycpu_4soc_game_port.Nyancat.Encoder.{drop, encode_skip}
use mycpu_4soc_game_port.Nyancat.Cells.{at, skip_lem}
use mycpu_4soc_game_port.Nyancat.Runs.{take-drop, length-take, length-drop}

module _ (loop : List ℕ → Decoder → Decoder) where
  -- The bytes make the loop leave `r` cells as they are.
  pub record Leaves (r : ℕ) (result : Option (List ℕ)) : Type 0 where
    pub bytes : List ℕ
    pub returns : result ≡ some bytes
    pub decodes :
        (more done xs rest : List ℕ) (c : ℕ)
        → length xs ≡ r
        → length done + r ≤ frame_size
        → loop (bytes ++ more) (at done c (xs ++ rest)) ≡ loop more (at (done ++ xs) c rest)

  -- An opcode that makes the loop leave `n` cells.
  abbrev pub IsSkip : ℕ → ℕ → Type 0
  IsSkip b n =
      (p : List ℕ) (d : Decoder) → d.index < frame_size → loop (b ∷ p) d ≡ loop p (skip n d)

  no_skip : Leaves 0 (some [])
  no_skip = record { bytes = []; returns = refl; decodes = ends }
    where
      ends :
          (more done xs rest : List ℕ) (c : ℕ)
          → length xs ≡ 0
          → length done + 0 ≤ frame_size
          → loop more (at done c (xs ++ rest)) ≡ loop more (at (done ++ xs) c rest)
      ends more done [] rest c e h = rw append-nil refl
      ends more done (x ∷ xs) rest c e h = absurd (omega arith)

  skip_then :
      (b n r : ℕ) (result : Option (List ℕ))
      → IsSkip b n
      → 0 < r
      → n ≤ r
      → Leaves (r - n) result
      → Leaves r (result >>= (λ rest. some (b ∷ rest)))
  skip_then b n r result run pos h later = record {
    bytes = b ∷ later.bytes;
    returns = rw later.returns refl;
    decodes = λ more done xs rest c e fits.
        let front = length-take n xs (omega arith) in
        let split : xs ++ rest ≡ take n xs ++ (drop n xs ++ rest) =
          ap (λ ys. ys ++ rest) (take-drop n xs) ∙ append_assoc (take n xs) (drop n xs) rest in
        ap (λ cells. loop (b ∷ (later.bytes ++ more)) (at done c cells)) split
        ∙ run (later.bytes ++ more) (at done c (take n xs ++ (drop n xs ++ rest))) (omega arith)
        ∙ ap (loop (later.bytes ++ more)) (skip_lem n done c (take n xs) (drop n xs ++ rest) front)
        ∙ later.decodes more (done ++ take n xs) (drop n xs) rest c
            (omega (arith, length-drop n xs)) (omega (arith, length-append done (take n xs)))
        ∙ ap (λ cells. loop more (at cells c rest))
            (append_assoc done (take n xs) (drop n xs)
              ∙ ap (λ ys. done ++ ys) (sym (take-drop n xs)));
  }

  module _ (skip_1 : (k : ℕ) → k < 16 → IsSkip (bit_or 0x10 k) (k + 1))
      (skip_16 : (k : ℕ) → k < 16 → IsSkip (bit_or 0x30 k) ((k + 1) * 16))
      (skip_64 : (k : ℕ) → k < 16 → IsSkip (bit_or 0x50 k) ((k + 1) * 64)) where
    IsSkip-of : (b n n' : ℕ) → n ≡ n' → IsSkip b n → IsSkip b n'
    IsSkip-of b n n' e run p d h = run p d h ∙ ap (λ k. loop p (skip k d)) e

    -- With more fuel than pixels `encode_skip` returns.
    pub encode_skip-Leaves : (fuel r : ℕ) → r < fuel → Leaves r (encode_skip fuel r)
    unfolding encode_skip
    encode_skip-Leaves zero r h = absurd (omega arith)
    encode_skip-Leaves (suc fuel) r h = elim (Bool-cases (r == 0)) [
      | inl e ↦ let none_left : r ≡ 0 = ground arith in rw none_left no_skip
      | inr some_left ↦ elim (Bool-cases (leb r 16)) [
        | inl short ↦
            rw (some_left, short)
              (let none_left : r - r ≡ 0 = omega arith in
                skip_then (bit_or 0x10 (r - 1)) r r (some [])
                  (IsSkip-of (bit_or 0x10 (r - 1)) (r - 1 + 1) r (ground arith)
                    (skip_1 (r - 1) (ground arith)))
                  (ground arith) (omega arith) (rw none_left no_skip))
        | inr not_short ↦ elim (Bool-cases (leb r 256)) [
          | inl middle ↦
              rw (some_left, not_short, middle)
                (let chunks = min (r / 16) 16 in
                  skip_then (bit_or 0x30 (chunks - 1)) (chunks * 16) r _
                    (IsSkip-of (bit_or 0x30 (chunks - 1)) ((chunks - 1 + 1) * 16) (chunks * 16)
                      (ground arith) (skip_16 (chunks - 1) (omega arith)))
                    (ground arith) (omega arith)
                    (encode_skip-Leaves fuel (r - chunks * 16) (ground arith)))
          | inr large ↦ elim (Bool-cases (leb r 1024)) [
            | inl blocked ↦
                rw (some_left, not_short, large, blocked)
                  (let blocks = min (r / 64) 16 in
                    skip_then (bit_or 0x50 (blocks - 1)) (blocks * 64) r _
                      (IsSkip-of (bit_or 0x50 (blocks - 1)) ((blocks - 1 + 1) * 64) (blocks * 64)
                        (ground arith) (skip_64 (blocks - 1) (omega arith)))
                      (ground arith) (omega arith)
                      (encode_skip-Leaves fuel (r - blocks * 64) (ground arith)))
            | inr largest ↦
                rw (some_left, not_short, large, largest)
                  (skip_then (bit_or 0x50 0x0F) 1024 r _ (skip_64 15 (omega arith)) (ground arith)
                    (ground arith) (encode_skip-Leaves fuel (r - 1024) (ground arith)))
          ]
        ]
      ]
    ]
