-- ===== src/Common/Pull.antt =====
-- Taking one element out of an array by moving the later ones down.
use mathlib.Core.Path.{◌≡◌, refl, ap, ◌∙◌}
use mathlib.Core.Logic.{◌⊎◌, inl, inr}
use mathlib.Core.Bool.{◌&&◌}
use mathlib.Core.List.{List, [], ◌∷◌, ◌++◌}
use Prim.Native.Nat.{ℕ, zero, suc, ◌+◌, ◌-◌, ◌≤◌, ◌<◌}
use native.Mathlib.Omega.{arith}
use native.Mathlib.Numerals.{add-one}
use mycpu_4soc_game_port.Common.Tests.{leb, ltb, ◌==◌, if◌then◌else◌}
use mycpu_4soc_game_port.Common.Loops.{for_range}
use mycpu_4soc_game_port.Common.Arrays.{
  length, get_or, set, get_or-set, length-set, get_or_ext, length-append,
}

module _ {ℓ} {A : Type ℓ} where
  abbrev pub drop_at : ℕ → List A → List A
  drop_at i [] = []
  drop_at zero (x ∷ xs) = xs
  drop_at (suc i) (x ∷ xs) = x ∷ drop_at i xs

  pub length-drop_at : (i : ℕ) (xs : List A) → i < length xs → length (drop_at i xs) + 1 ≡ length xs
  length-drop_at i [] h = absurd (omega arith)
  length-drop_at zero (x ∷ xs) h = omega arith
  length-drop_at (suc i) (x ∷ xs) h = omega (arith, length-drop_at i xs (omega arith))

  pub get_or-drop_at :
      (i j : ℕ) (xs : List A) (d : A)
      → get_or (drop_at i xs) j d ≡ (if ltb j i then get_or xs j d else get_or xs (suc j) d)
  get_or-drop_at i j [] d = ground arith
  get_or-drop_at zero j (x ∷ xs) d = ground arith
  get_or-drop_at (suc i) zero (x ∷ xs) d = ground arith
  get_or-drop_at (suc i) (suc j) (x ∷ xs) d = ground (arith, get_or-drop_at i j xs d)

  pub get_or-append_one :
      (xs : List A) (z : A) (j : ℕ) (d : A)
      → get_or (xs ++ (z ∷ [])) j d
        ≡ (if ltb j (length xs) then get_or xs j d else if j == length xs then z else d)
  get_or-append_one [] z zero d = refl
  get_or-append_one [] z (suc j) d = ground arith
  get_or-append_one (x ∷ xs) z zero d = ground arith
  get_or-append_one (x ∷ xs) z (suc j) d = ground (arith, get_or-append_one xs z j d)

  -- The place behind a prefix.
  pub get_or-append_at :
      (xs : List A) (z : A) (ys : List A) (j : ℕ) (d : A)
      → length xs ≡ j
      → get_or (xs ++ (z ∷ ys)) j d ≡ z
  get_or-append_at [] z ys zero d e = refl
  get_or-append_at [] z ys (suc j) d e = absurd (omega arith)
  get_or-append_at (x ∷ xs) z ys zero d e = absurd (omega arith)
  get_or-append_at (x ∷ xs) z ys (suc j) d e = get_or-append_at xs z ys j d (omega arith)

  pub drop_at-append :
      (xs : List A) (z : A) (ys : List A) (j : ℕ)
      → length xs ≡ j
      → drop_at j (xs ++ (z ∷ ys)) ≡ xs ++ ys
  drop_at-append [] z ys zero e = refl
  drop_at-append [] z ys (suc j) e = absurd (omega arith)
  drop_at-append (x ∷ xs) z ys zero e = absurd (omega arith)
  drop_at-append (x ∷ xs) z ys (suc j) e = ap (◌∷◌ x) (drop_at-append xs z ys j (omega arith))

  -- `for (k = i; k < i + n; k++) xs[k] = xs[k + 1];`
  abbrev pub pull : ℕ → ℕ → A → List A → List A
  pull n i d xs = for_range n i (λ k ys. set ys k (get_or ys (k + 1) d)) xs

  pub length-pull : (n i : ℕ) (d : A) (xs : List A) → length (pull n i d xs) ≡ length xs
  unfolding for_range
  length-pull zero i d xs = refl
  length-pull (suc n) i d xs =
      let v = get_or xs (i + 1) d in length-pull n (i + 1) d (set xs i v) ∙ length-set xs i v

  pub get_or-pull :
      (n i j : ℕ) (d : A) (xs : List A)
      → i + n < length xs
      → get_or (pull n i d xs) j d
        ≡ (if leb i j && ltb j (i + n) then get_or xs (j + 1) d else get_or xs j d)
  unfolding for_range
  get_or-pull zero i j d xs h = ground arith
  get_or-pull (suc n) i j d xs h =
      let v = get_or xs (i + 1) d in
      ground (
        arith,
        get_or-pull n (i + 1) j d (set xs i v) (omega (arith, length-set xs i v)),
        get_or-set xs i j v d (omega arith),
        get_or-set xs i (j + 1) v d (omega arith),
        ap (λ (k : ℕ). get_or xs (k + 1) d),
      )

  module _ (n i : ℕ) (z d : A) (xs : List A) (e : length xs ≡ n + 1) (h : i ≤ n) where
    pulled_length : length (pull (n - i) i d xs) ≡ n + 1
    pulled_length = length-pull (n - i) i d xs ∙ e

    pulled_top : (j : ℕ) → j ≡ n → get_or (set (pull (n - i) i d xs) n z) j d ≡ z
    pulled_top j p = ground (arith, pulled_length, get_or-set (pull (n - i) i d xs) n j z d)

    pulled_below : (j : ℕ) → j < i → get_or (set (pull (n - i) i d xs) n z) j d ≡ get_or xs j d
    pulled_below j p = ground (
      arith,
      get_or-set (pull (n - i) i d xs) n j z d (omega (arith, pulled_length)),
      get_or-pull (n - i) i j d xs (omega arith),
    )

    pulled_above :
        (j : ℕ) → i ≤ j → j < n → get_or (set (pull (n - i) i d xs) n z) j d ≡ get_or xs (suc j) d
    pulled_above j p q = rw (← add-one j) (
        ground (
          arith,
          get_or-set (pull (n - i) i d xs) n j z d (omega (arith, pulled_length)),
          get_or-pull (n - i) i j d xs (omega arith),
        ))

    dropped_length : length (drop_at i xs) ≡ n
    dropped_length = omega (arith, length-drop_at i xs (omega arith))

    pull_place :
        (j : ℕ)
        → j < n + 1
        → get_or (set (pull (n - i) i d xs) n z) j d ≡ get_or (drop_at i xs ++ (z ∷ [])) j d
    pull_place j p =
        rw (get_or-append_one (drop_at i xs) z j d, dropped_length, get_or-drop_at i j xs d)
          (elim (places j p) [
            | inl below ↦ ground (arith, pulled_below j below)
            | inr (inl (above, within)) ↦ ground (arith, pulled_above j above within)
            | inr (inr top) ↦ ground (arith, pulled_top j top)
          ])
      where
        places : (j : ℕ) → j < n + 1 → (j < i) ⊎ ((i ≤ j) × (j < n) ⊎ (j ≡ n))
        places j p = omega arith

    -- Pulling down from `i` and storing to the last place takes element `i` out.
    pub set-pull : set (pull (n - i) i d xs) n z ≡ drop_at i xs ++ (z ∷ [])
    set-pull =
        get_or_ext d (set (pull (n - i) i d xs) n z) (drop_at i xs ++ (z ∷ []))
          (omega (
            arith,
            length-set (pull (n - i) i d xs) n z,
            pulled_length,
            length-append (drop_at i xs) (z ∷ []),
            dropped_length,
          ))
          (λ j p. pull_place j (omega (arith, length-set (pull (n - i) i d xs) n z, pulled_length)))
