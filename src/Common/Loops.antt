-- ===== src/Common/Loops.antt =====
-- Counted loops.
use Prim.Native.Nat.{ℕ, zero, suc, ◌+◌}
use mathlib.Core.Path.{◌≡◌, refl, sym, ◌∙◌}

-- `for (k = i; k < i + n; k++) s = body(k, s)`, by the rounds left.
unfoldable pub for_range {ℓ} : {A : Type ℓ} → ℕ → ℕ → (ℕ → A → A) → A → A
for_range zero k round x = x
for_range (suc left) k round x = for_range left (k + 1) round (round k x)

-- A loop that stores to one field of its state is a loop over that field.
module _ {ℓ κ} {S : Type ℓ} {T : Type κ} (get : S → T) (put : T → S → S)
    (get_put : (t : T) (s : S) → get (put t s) ≡ t)
    (put_put : (t u : T) (s : S) → put u (put t s) ≡ put u s)
    (put_get : (s : S) → put (get s) s ≡ s) (step : ℕ → T → T) where
  pub for_range_field :
      (n i : ℕ) (s : S)
      → for_range n i (λ k r. put (step k (get r)) r) s ≡ put (for_range n i step (get s)) s
  unfolding for_range
  for_range_field zero i s = sym (put_get s)
  for_range_field (suc n) i s =
      for_range_field n (i + 1) (put (step i (get s)) s) ∙ rw (put_put, get_put) refl
