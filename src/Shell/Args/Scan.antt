-- ===== src/Shell/Args/Scan.antt =====
-- The two scans inside `parse_args`, and what a pointer into the line stands for.
use mycpu_4soc_game_port.Common.{
  ℕ, zero, suc, ◌+◌, ◌<◌, ◌≡◌, ◌≢◌, refl, arith, ◌⊎◌, some, List, [], ◌∷◌, ◌++◌, length, get_or,
  replicate,
}
use mycpu_4soc_game_port.Shell.Args.{skip_spaces, find_end, drop, until_zero}
use mycpu_4soc_game_port.Shell.Args.Split.{NoSpace, NoZero}

-- A byte and the rest of the line, seen from the array.
pub get_or-drop :
    (i : ℕ) (line : List ℕ) (x : ℕ) (xs : List ℕ) → drop i line ≡ x ∷ xs → get_or line i 0 ≡ x
get_or-drop zero [] x xs e = cc
get_or-drop zero (c ∷ line) x xs e = cc
get_or-drop (suc i) [] x xs e = cc
get_or-drop (suc i) (c ∷ line) x xs e = get_or-drop i line x xs e

drop-suc :
    (i : ℕ) (line : List ℕ) (x : ℕ) (xs : List ℕ) → drop i line ≡ x ∷ xs → drop (i + 1) line ≡ xs
drop-suc zero [] x xs e = cc
drop-suc zero (c ∷ line) x xs e = cc
drop-suc (suc i) [] x xs e = cc
drop-suc (suc i) (c ∷ line) x xs e =
    let next : suc i + 1 ≡ suc (i + 1) = omega arith in rw next (drop-suc i line x xs e)

pub drop-append : (pre xs : List ℕ) → drop (length pre) (pre ++ xs) ≡ xs
drop-append [] xs = refl
drop-append (x ∷ pre) xs = drop-append pre xs

pub skip_spaces_lem :
    (n fuel i x : ℕ) (line xs : List ℕ)
    → n < fuel
    → x ≢ b' '
    → drop i line ≡ replicate n b' ' ++ (x ∷ xs)
    → skip_spaces fuel line i ≡ some (i + n)
unfolding skip_spaces
skip_spaces_lem n zero i x line xs h stop e = absurd (omega arith)
skip_spaces_lem zero (suc fuel) i x line xs h stop e = ground (arith, get_or-drop i line x xs e)
skip_spaces_lem (suc n) (suc fuel) i x line xs h stop e = ground (
  arith,
  get_or-drop i line b' ' (replicate n b' ' ++ (x ∷ xs)) e,
  skip_spaces_lem n fuel (i + 1) x line xs (omega arith) stop
      (drop-suc i line b' ' (replicate n b' ' ++ (x ∷ xs)) e),
)

pub find_end_lem :
    (w : List ℕ) (fuel i x : ℕ) (line xs : List ℕ)
    → length w < fuel
    → NoSpace w
    → NoZero w
    → (x ≡ 0) ⊎ (x ≡ b' ')
    → drop i line ≡ w ++ (x ∷ xs)
    → find_end fuel line i ≡ some (i + length w)
unfolding find_end
find_end_lem w zero i x line xs h word text stop e = absurd (omega arith)
find_end_lem [] (suc fuel) i x line xs h word text stop e =
    ground (arith, get_or-drop i line x xs e)
find_end_lem (c ∷ w) (suc fuel) i x line xs h word text stop e = ground (
  arith,
  get_or-drop i line c (w ++ (x ∷ xs)) e,
  find_end_lem w fuel (i + 1) x line xs (omega arith) word.1 text.1 stop
      (drop-suc i line c (w ++ (x ∷ xs)) e),
)

pub until_zero-append : (w xs : List ℕ) → NoZero w → until_zero (w ++ (0 ∷ xs)) ≡ w
until_zero-append [] xs h = refl
until_zero-append (c ∷ w) xs h = ground (arith, until_zero-append w xs h.1)
