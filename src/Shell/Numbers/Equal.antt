-- ===== src/Shell/Numbers/Equal.antt =====
-- `str_eq` of 4-soc/csrc/shell.c.
use mycpu_4soc_game_port.Common.{ℕ, ◌≡◌, ◌↔◌, refl, subst, arith, true, List, [], ◌∷◌}
use mycpu_4soc_game_port.Shell.Numbers.{str_eq}

str_eq_sound : (a b : List ℕ) → str_eq a b ≡ true → a ≡ b
unfolding str_eq
str_eq_sound [] [] e = refl
str_eq_sound [] (y ∷ b) e = cc
str_eq_sound (x ∷ a) [] e = cc
str_eq_sound (x ∷ a) (y ∷ b) e = ground (arith, str_eq_sound a b)

str_eq_self : (a : List ℕ) → str_eq a a ≡ true
unfolding str_eq
str_eq_self [] = refl
str_eq_self (x ∷ a) = ground (arith, str_eq_self a)

-- Two texts are the same exactly when `str_eq` says so.
pub str_eq_iff : (a b : List ℕ) → (str_eq a b ≡ true) ↔ (a ≡ b)
str_eq_iff a b = (str_eq_sound a b, λ e. subst (λ t. str_eq a t ≡ true) e (str_eq_self a))
