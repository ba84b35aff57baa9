-- ===== src/Common/Fill.antt =====
-- Loops that store to an array, one index after the other.
use mathlib.Core.Path.{◌≡◌, refl, sym, ap, ◌∙◌}
use mathlib.Core.Logic.{◌≢◌}
use mathlib.Core.Bool.{◌&&◌}
use mathlib.Core.List.{List, [], ◌∷◌}
use Prim.Native.Nat.{ℕ, zero, suc, ◌+◌, ◌≤◌, ◌<◌}
use native.Mathlib.Omega.{arith}
use mycpu_4soc_game_port.Common.Tests.{leb, ltb, if◌then◌else◌}
use mycpu_4soc_game_port.Common.Loops.{for_range}
use mycpu_4soc_game_port.Common.Arrays.{
  length, get_or, set, get_or-set, get_or-set_self, get_or-set_ne, length-set, get_or_ext,
  replicate, length-replicate, get_or-replicate,
}

pub for_range_idle {ℓ} : {S : Type ℓ} (n i : ℕ) (s : S) → for_range n i (λ _ t. t) s ≡ s
unfolding for_range
for_range_idle zero i s = refl
for_range_idle (suc n) i s = for_range_idle n (i + 1) s

module _ {ℓ} {A : Type ℓ} where
  -- `for (k = i; k < i + n; k++) xs[k] = f(k);`
  abbrev pub fill : ℕ → ℕ → (ℕ → A) → List A → List A
  fill n i f xs = for_range n i (λ k ys. set ys k (f k)) xs

  pub length-fill : (n i : ℕ) (f : ℕ → A) (xs : List A) → length (fill n i f xs) ≡ length xs
  unfolding for_range
  length-fill zero i f xs = refl
  length-fill (suc n) i f xs = length-fill n (i + 1) f (set xs i (f i)) ∙ length-set xs i (f i)

  pub get_or-fill :
      (n i j : ℕ) (f : ℕ → A) (xs : List A) (d : A)
      → i + n ≤ length xs
      → get_or (fill n i f xs) j d ≡ (if leb i j && ltb j (i + n) then f j else get_or xs j d)
  unfolding for_range
  get_or-fill zero i j f xs d h = ground arith
  get_or-fill (suc n) i j f xs d h = ground (
    arith,
    get_or-fill n (i + 1) j f (set xs i (f i)) d (omega (arith, length-set xs i (f i))),
    get_or-set xs i j (f i) d (omega arith),
    ap f,
  )

  set-get_or : (xs : List A) (i : ℕ) (d : A) → set xs i (get_or xs i d) ≡ xs
  set-get_or [] i d = refl
  set-get_or (x ∷ xs) zero d = refl
  set-get_or (x ∷ xs) (suc i) d = ap (◌∷◌ x) (set-get_or xs i d)

  set-set : (xs : List A) (i : ℕ) (v w : A) → set (set xs i v) i w ≡ set xs i w
  set-set [] i v w = refl
  set-set (x ∷ xs) zero v w = refl
  set-set (x ∷ xs) (suc i) v w = ap (◌∷◌ x) (set-set xs i v w)

  -- A loop over one row of a matrix is a loop over that row.
  pub for_range_row :
      (n i y : ℕ) (d : A) (f : ℕ → A → A) (xs : List A)
      → y < length xs
      → for_range n i (λ k ys. set ys y (f k (get_or ys y d))) xs
        ≡ set xs y (for_range n i f (get_or xs y d))
  unfolding for_range
  for_range_row zero i y d f xs h = sym (set-get_or xs y d)
  for_range_row (suc n) i y d f xs h =
      let v = f i (get_or xs y d) in
      rw (for_range_row n (i + 1) y d f (set xs y v) (omega (arith, length-set xs y v)))
        (rw (set-set, get_or-set_self xs y v d h))

  -- An array is copied by its whole length.
  pub fill-copy :
      (d : A) (n : ℕ) (src xs : List A)
      → length src ≡ n
      → length xs ≡ n
      → fill n 0 (λ k. get_or src k d) xs ≡ src
  fill-copy d n src xs es ex =
      get_or_ext d (fill n 0 (λ k. get_or src k d) xs) src
        (length-fill n 0 (λ k. get_or src k d) xs ∙ ex ∙ sym es)
        (λ i p. ground (
          arith,
          length-fill n 0 (λ k. get_or src k d) xs,
          get_or-fill n 0 i (λ k. get_or src k d) xs d (omega arith),
        ))

  -- An array is overwritten by its whole length.
  pub fill-replicate :
      (v : A) (n : ℕ) (xs : List A) → length xs ≡ n → fill n 0 (λ _. v) xs ≡ replicate n v
  fill-replicate v n xs e =
      get_or_ext v (fill n 0 (λ _. v) xs) (replicate n v)
        (length-fill n 0 (λ _. v) xs ∙ e ∙ sym (length-replicate n v))
        (λ i p. ground (
          arith,
          length-fill n 0 (λ _. v) xs,
          get_or-fill n 0 i (λ _. v) xs v (omega arith),
          get_or-replicate n i v,
        ))

module _ {ℓ} {A : Type ℓ} (y z : ℕ) (ne : y ≢ z) (e : A) where
  -- A row of a matrix is copied from another, cell by cell.
  pub for_range_copy :
      (n i : ℕ) (xs : List (List A))
      → y < length xs
      → for_range n i (λ k ys. set ys y (set (get_or ys y []) k (get_or (get_or ys z []) k e))) xs
        ≡ set xs y (fill n i (λ k. get_or (get_or xs z []) k e) (get_or xs y []))
  unfolding for_range
  for_range_copy zero i xs h = sym (set-get_or xs y [])
  for_range_copy (suc n) i xs h =
      let v = set (get_or xs y []) i (get_or (get_or xs z []) i e) in
      rw (for_range_copy n (i + 1) (set xs y v) (omega (arith, length-set xs y v)))
        (rw (set-set, get_or-set_self xs y v [] h, get_or-set_ne xs y z v [] ne))
