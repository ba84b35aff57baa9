-- ===== src/Shell/Args/Round.antt =====
-- One round of the loop in `parse_args`, and what the loop finds.
use mycpu_4soc_game_port.Common.{
  ℕ, zero, suc, ◌+◌, ◌-◌, ◌≤◌, ◌<◌, ◌≡◌, ◌≢◌, refl, sym, arith, true, false, not, ◌&&◌, ltb, ◌==◌,
  ◌⊎◌, inl, inr, Option, some, List, [], ◌∷◌, ◌++◌, map, length, get_or, take, replicate,
  length-append, length-replicate,
}
use mathlib.Core.List.{append-nil, append_assoc}
use mycpu_4soc_game_port.Shell.Buffer.{Words, line_buf}
use mycpu_4soc_game_port.Shell.Buffer.Write.{AreWords}
use mycpu_4soc_game_port.Shell.Args.{
  max_args, scan_fuel, skip_spaces, find_end, end_arg, args_loop, drop, c_string,
}
use mycpu_4soc_game_port.Shell.Args.Split.{words_of}
use mycpu_4soc_game_port.Shell.Args.Scan.{drop-append}

module _ (fuel : ℕ) (argv : List ℕ) (idx : ℕ) (words : Words) where
  pub stops :
      (get_or (line_buf words) idx 0 ≡ 0) ⊎ (max_args ≤ length argv)
      → args_loop (suc fuel) argv idx words ≡ some (argv, words)
  unfolding args_loop
  stops (inl e) = rw e refl
  stops (inr e) =
      let full : ltb (length argv) max_args ≡ false = ground arith in rw full (ground arith)

  module _ (start : ℕ) (here : get_or (line_buf words) idx 0 ≢ 0) (room : length argv < max_args)
      (skipped : skip_spaces scan_fuel (line_buf words) idx ≡ some start) where
    goes_on : (not (get_or (line_buf words) idx 0 == 0) && ltb (length argv) max_args) ≡ true
    goes_on = ground arith

    pub blank :
        get_or (line_buf words) start 0 ≡ 0
        → args_loop (suc fuel) argv idx words ≡ some (argv, words)
    unfolding args_loop
    blank e = rw (goes_on, skipped, e) refl

    pub one_arg :
        (stop : ℕ)
        → get_or (line_buf words) start 0 ≢ 0
        → find_end scan_fuel (line_buf words) start ≡ some stop
        → args_loop (suc fuel) argv idx words
          ≡ args_loop fuel (argv ++ (start ∷ [])) (end_arg stop words).0 (end_arg stop words).1
    unfolding args_loop
    one_arg stop filled found =
        let more : (get_or (line_buf words) start 0 == 0) ≡ false = ground arith in
        rw (goes_on, skipped, more, found) refl

-- Arguments that have been found from `pre` on in a line of text: pointers to its words, as far as
-- there is room for them, and the bytes before them as they were.
pub record Parsed (argv pre s : List ℕ) (before : Words) (result : Option (List ℕ × Words))
    : Type 0 where
  pub found : List ℕ
  pub tail : List ℕ
  pub words : Words
  pub returns : result ≡ some (argv ++ found, words)
  pub bytes : line_buf words ≡ pre ++ tail
  pub widths : AreWords words
  pub size : length words ≡ length before
  pub strings : map (c_string (pre ++ tail)) found ≡ take (max_args - length argv) (words_of s)

pub take-nil {ℓ} : {A : Type ℓ} (n : ℕ) → take {A = A} n [] ≡ []
take-nil zero = refl
take-nil (suc n) = refl

pub take_one {ℓ} :
    {A : Type ℓ} (n : ℕ) (x : A) (xs : List A) → 0 < n → take n (x ∷ xs) ≡ x ∷ take (n - 1) xs
take_one zero x xs h = absurd (omega arith)
take_one (suc n) x xs h = let e : suc n - 1 ≡ n = omega arith in rw e refl

pub nothing_more :
    (argv pre s rest : List ℕ) (words : Words) (result : Option (List ℕ × Words))
    → result ≡ some (argv, words)
    → line_buf words ≡ pre ++ rest
    → AreWords words
    → take (max_args - length argv) (words_of s) ≡ []
    → Parsed argv pre s words result
nothing_more argv pre s rest words result returns bytes widths strings = record {
  found = [];
  tail = rest;
  words = words;
  returns = rw append-nil returns;
  bytes = bytes;
  widths = widths;
  size = refl;
  strings = sym strings;
}

pub drop_behind :
    (n : ℕ) (pre ys : List ℕ) → drop (length pre + n) (pre ++ (replicate n b' ' ++ ys)) ≡ ys
drop_behind n pre ys =
    let place : length pre + n ≡ length (pre ++ replicate n b' ') =
      omega (arith, length-append pre (replicate n b' '), length-replicate {A = ℕ} n b' ') in
    rw (place, ← append_assoc pre (replicate n b' ') ys) (drop-append (pre ++ replicate n b' ') ys)
