-- ===== src/Nyancat/Runs.antt =====
-- The runs of scripts/gen-nyancat-data.py, and what a decoder makes of them.
use mycpu_4soc_game_port.Common.{
  ℕ, zero, suc, ◌+◌, ◌-◌, ◌*◌, ◌/◌, ◌≤◌, ◌<◌, min, bit_or, ◌≡◌, refl, ap, ◌∙◌, arith, leb, ◌==◌,
  Bool-cases, inl, inr, Option, some, ◌>>=◌, List, [], ◌∷◌, ◌++◌, length, take, replicate,
  length-append, length-replicate,
}
use mathlib.Core.List.{append-nil, append_assoc}
use mycpu_4soc_game_port.Nyancat.Decoder.{frame_size, Decoder, fill_run}
use mycpu_4soc_game_port.Nyancat.Encoder.{drop, encode_run}
use mycpu_4soc_game_port.Nyancat.Cells.{at, fill_run_lem}

pub take-drop : (n : ℕ) (xs : List ℕ) → xs ≡ take n xs ++ drop n xs
take-drop zero xs = refl
take-drop (suc n) [] = refl
take-drop (suc n) (x ∷ xs) = ap (◌∷◌ x) (take-drop n xs)

pub length-take : (n : ℕ) (xs : List ℕ) → n ≤ length xs → length (take n xs) ≡ n
length-take zero xs h = refl
length-take (suc n) [] h = absurd (omega arith)
length-take (suc n) (x ∷ xs) h = ap suc (length-take n xs (omega arith))

pub length-drop : (n : ℕ) (xs : List ℕ) → length (drop n xs) ≡ length xs - n
length-drop zero xs = omega arith
length-drop (suc n) [] = omega arith
length-drop (suc n) (x ∷ xs) = omega (arith, length-drop n xs)

replicate-add : (n m c : ℕ) → replicate n c ++ replicate m c ≡ replicate (n + m) c
replicate-add zero m c = let e : 0 + m ≡ m = omega arith in rw e refl
replicate-add (suc n) m c =
    let e : suc n + m ≡ suc (n + m) = omega arith in rw e (ap (◌∷◌ c) (replicate-add n m c))

module _ (loop : List ℕ → Decoder → Decoder) where
  -- The bytes make the loop overwrite `r` cells with its color.
  pub record Repeats (r : ℕ) (result : Option (List ℕ)) : Type 0 where
    pub bytes : List ℕ
    pub returns : result ≡ some bytes
    pub decodes :
        (more done xs rest : List ℕ) (c : ℕ)
        → length xs ≡ r
        → length done + r ≤ frame_size
        → loop (bytes ++ more) (at done c (xs ++ rest))
          ≡ loop more (at (done ++ replicate r c) c rest)

  -- An opcode that makes the loop overwrite `n` cells.
  abbrev pub IsRun : ℕ → ℕ → Type 0
  IsRun b n =
      (p : List ℕ) (d : Decoder) → d.index < frame_size → loop (b ∷ p) d ≡ loop p (fill_run n d)

  no_run : Repeats 0 (some [])
  no_run = record { bytes = []; returns = refl; decodes = ends }
    where
      ends :
          (more done xs rest : List ℕ) (c : ℕ)
          → length xs ≡ 0
          → length done + 0 ≤ frame_size
          → loop more (at done c (xs ++ rest)) ≡ loop more (at (done ++ []) c rest)
      ends more done [] rest c e h = rw append-nil refl
      ends more done (x ∷ xs) rest c e h = absurd (omega arith)

  run_then :
      (b n r : ℕ) (result : Option (List ℕ))
      → IsRun b n
      → 0 < r
      → n ≤ r
      → Repeats (r - n) result
      → Repeats r (result >>= (λ rest. some (b ∷ rest)))
  run_then b n r result run pos h later = record {
    bytes = b ∷ later.bytes;
    returns = rw later.returns refl;
    decodes = λ more done xs rest c e fits.
        let front = length-take n xs (omega arith) in
        let split : xs ++ rest ≡ take n xs ++ (drop n xs ++ rest) =
          ap (λ ys. ys ++ rest) (take-drop n xs) ∙ append_assoc (take n xs) (drop n xs) rest in
        let sum : n + (r - n) ≡ r = omega arith in
        ap (λ cells. loop (b ∷ (later.bytes ++ more)) (at done c cells)) split
        ∙ run (later.bytes ++ more) (at done c (take n xs ++ (drop n xs ++ rest))) (omega arith)
        ∙ ap (loop (later.bytes ++ more))
            (fill_run_lem n done c (take n xs) (drop n xs ++ rest) front (omega arith))
        ∙ later.decodes more (done ++ replicate n c) (drop n xs) rest c
            (omega (arith, length-drop n xs))
            (omega (arith, length-append done (replicate n c), length-replicate n c))
        ∙ ap (λ cells. loop more (at cells c rest))
            (append_assoc done (replicate n c) (replicate (r - n) c)
              ∙ ap (λ ys. done ++ ys) (replicate-add n (r - n) c ∙ ap (λ k. replicate k c) sum));
  }

  module _ (long : ℕ) (short_run : (k : ℕ) → k < 16 → IsRun (bit_or 0x20 k) (k + 1))
      (long_run : (k : ℕ) → k < 16 → IsRun (bit_or long k) ((k + 1) * 16)) where
    IsRun-of : (b n n' : ℕ) → n ≡ n' → IsRun b n → IsRun b n'
    IsRun-of b n n' e run p d h = run p d h ∙ ap (λ k. loop p (fill_run k d)) e

    -- With more fuel than pixels `encode_run` returns.
    pub encode_run-Repeats : (fuel r : ℕ) → r < fuel → Repeats r (encode_run long fuel r)
    unfolding encode_run
    encode_run-Repeats zero r h = absurd (omega arith)
    encode_run-Repeats (suc fuel) r h = elim (Bool-cases (r == 0)) [
      | inl e ↦ let none_left : r ≡ 0 = ground arith in rw none_left no_run
      | inr some_left ↦ elim (Bool-cases (leb r 16)) [
        | inl short ↦
            rw (some_left, short)
              (let none_left : r - r ≡ 0 = omega arith in
                run_then (bit_or 0x20 (r - 1)) r r (some [])
                  (IsRun-of (bit_or 0x20 (r - 1)) (r - 1 + 1) r (ground arith)
                    (short_run (r - 1) (ground arith)))
                  (ground arith) (omega arith) (rw none_left no_run))
        | inr not_short ↦ elim (Bool-cases (leb r 256)) [
          | inl middle ↦
              rw (some_left, not_short, middle)
                (let chunks = min (r / 16) 16 in
                  run_then (bit_or long (chunks - 1)) (chunks * 16) r _
                    (IsRun-of (bit_or long (chunks - 1)) ((chunks - 1 + 1) * 16) (chunks * 16)
                      (ground arith) (long_run (chunks - 1) (omega arith)))
                    (ground arith) (omega arith)
                    (encode_run-Repeats fuel (r - chunks * 16) (ground arith)))
          | inr large ↦
              rw (some_left, not_short, large)
                (run_then (bit_or long 0x0F) 256 r _ (long_run 15 (omega arith)) (ground arith)
                  (ground arith) (encode_run-Repeats fuel (r - 256) (ground arith)))
        ]
      ]
    ]
