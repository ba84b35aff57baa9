-- ===== src/Tetris/Lines/Keep.antt =====
-- The rows that stay when full lines go, as a filter on lists.
use mycpu_4soc_game_port.Common.{
  ℕ, suc, ◌+◌, ◌≡◌, refl, ap, arith, Bool, ◌==◌, if◌then◌else◌, Bool-cases, inl, inr, List, [], ◌∷◌,
  ◌++◌, length, replicate,
}
use mathlib.Core.List.{append_assoc}

abbrev pub is_full : ℕ → Bool
is_full r = r == 1023

-- The entries of an array that stand beside the rows that are not full.
abbrev pub keep {ℓ} : {A : Type ℓ} → List ℕ → List A → List A
keep [] xs = []
keep (r ∷ rs) [] = []
keep (r ∷ rs) (x ∷ xs) = let rest = keep rs xs in if is_full r then rest else x ∷ rest

abbrev pub full_count : List ℕ → ℕ
full_count [] = 0
full_count (r ∷ rs) = let rest = full_count rs in if is_full r then suc rest else rest

-- The kept entries, with as many of `z` behind them as were not kept.
abbrev pub settle {ℓ} : {A : Type ℓ} → List ℕ → List A → A → List A
settle rs xs z = keep rs xs ++ replicate (full_count rs) z

pub full_count-append_zero : (rs : List ℕ) → full_count (rs ++ (0 ∷ [])) ≡ full_count rs
full_count-append_zero [] = refl
full_count-append_zero (r ∷ rs) = ground (arith, full_count-append_zero rs)

keep-append_zero {ℓ} :
    {A : Type ℓ} (rs : List ℕ) (xs : List A) (z : A)
    → length rs ≡ length xs
    → keep (rs ++ (0 ∷ [])) (xs ++ (z ∷ [])) ≡ keep rs xs ++ (z ∷ [])
keep-append_zero [] [] z e = refl
keep-append_zero [] (x ∷ xs) z e = absurd (omega arith)
keep-append_zero (r ∷ rs) [] z e = absurd (omega arith)
keep-append_zero (r ∷ rs) (x ∷ xs) z e = elim (Bool-cases (is_full r)) [
  | inl f ↦ rw f (keep-append_zero rs xs z (omega arith))
  | inr f ↦ rw f (ap (◌∷◌ x) (keep-append_zero rs xs z (omega arith)))
]

-- An empty row on top settles as one more removed row.
pub settle-append_zero {ℓ} :
    {A : Type ℓ} (rs : List ℕ) (xs : List A) (z : A)
    → length rs ≡ length xs
    → settle (rs ++ (0 ∷ [])) (xs ++ (z ∷ [])) z ≡ keep rs xs ++ (z ∷ replicate (full_count rs) z)
settle-append_zero rs xs z e =
    rw (full_count-append_zero rs, keep-append_zero rs xs z e)
      (append_assoc (keep rs xs) (z ∷ []) (replicate (full_count rs) z))

pub full_count-keep : (rs : List ℕ) → full_count (keep rs rs) ≡ 0
full_count-keep [] = refl
full_count-keep (r ∷ rs) = ground (arith, full_count-keep rs)

pub length-keep {ℓ} :
    {A : Type ℓ} (rs : List ℕ) (xs : List A)
    → length rs ≡ length xs
    → length (keep rs xs) + full_count rs ≡ length rs
length-keep [] xs e = refl
length-keep (r ∷ rs) [] e = absurd (omega arith)
length-keep (r ∷ rs) (x ∷ xs) e = ground (arith, length-keep rs xs)
