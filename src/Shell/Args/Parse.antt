-- ===== src/Shell/Args/Parse.antt =====
-- What `parse_args` of 4-soc/csrc/shell.c finds.
use mycpu_4soc_game_port.Common.{
  ℕ, zero, suc, ◌+◌, ◌-◌, ◌≤◌, ◌<◌, ◌≡◌, refl, sym, ap, subst, ◌∙◌, arith, ltb, Bool-cases, inl,
  inr, Option, some, List, [], ◌∷◌, ◌++◌, map, length, take, replicate, length-append,
  length-replicate,
}
use mathlib.Core.List.{append-nil, append_assoc}
use mycpu_4soc_game_port.Shell.Buffer.{Words, line_buf}
use mycpu_4soc_game_port.Shell.Buffer.Write.{AreWords}
use mycpu_4soc_game_port.Shell.Args.{max_args, scan_fuel, args_loop, parse_args, drop, c_string}
use mycpu_4soc_game_port.Shell.Args.Split.{
  words_of, NoZero, NoSpace, StartsWord, EndsWord, spaces, cut_at_space, words_of-spaces,
  NoZero-append_left, NoZero-append_right,
}
use mycpu_4soc_game_port.Shell.Args.Scan.{get_or-drop, drop-append, skip_spaces_lem}
use mycpu_4soc_game_port.Shell.Args.Round.{
  stops, blank, Parsed, take-nil, nothing_more, drop_behind,
}
use mycpu_4soc_game_port.Shell.Args.Word.{after_word, written, written_bytes, last_word, inner_word}

-- The line holds no word any more.
blank_line :
    (fuel n : ℕ) (argv pre rest : List ℕ) (words : Words)
    → length argv < max_args
    → n < scan_fuel
    → AreWords words
    → line_buf words ≡ pre ++ (replicate n b' ' ++ (0 ∷ rest))
    → args_loop (suc fuel) argv (length pre) words ≡ some (argv, words)
blank_line fuel zero argv pre rest words room short widths line =
    stops fuel argv (length pre) words (
      inl (get_or-drop (length pre) (line_buf words) 0 rest (rw line (drop-append pre (0 ∷ rest)))))
blank_line fuel (suc n) argv pre rest words room short widths line =
    let at_idx : drop (length pre) (line_buf words) ≡ replicate (suc n) b' ' ++ (0 ∷ rest) =
      rw line (drop-append pre _) in
    let at_end : drop (length pre + suc n) (line_buf words) ≡ 0 ∷ rest =
      rw line (drop_behind (suc n) pre (0 ∷ rest)) in
    blank fuel argv (length pre) words (length pre + suc n)
      (ground (arith, get_or-drop (length pre) (line_buf words) b' ' _ at_idx)) room
      (skip_spaces_lem (suc n) scan_fuel (length pre) 0 (line_buf words) rest short (omega arith)
        at_idx)
      (get_or-drop (length pre + suc n) (line_buf words) 0 rest at_end)

-- The loop with this fuel finds the words of a line that ends within the buffer.
abbrev Finds : ℕ → Type 0
Finds fuel =
    (argv pre s rest : List ℕ) (words : Words)
    → length argv ≤ max_args
    → max_args < length argv + fuel
    → length s < scan_fuel
    → NoZero s
    → AreWords words
    → line_buf words ≡ pre ++ (s ++ (0 ∷ rest))
    → Parsed argv pre s words (args_loop fuel argv (length pre) words)

with_word :
    (fuel n c : ℕ) (argv pre w u rest : List ℕ) (words : Words)
    → Finds fuel
    → length argv < max_args
    → max_args < length argv + suc fuel
    → n + length (c ∷ w ++ u) < scan_fuel
    → NoSpace (c ∷ w)
    → EndsWord u
    → NoZero (c ∷ w ++ u)
    → AreWords words
    → line_buf words ≡ pre ++ (replicate n b' ' ++ (c ∷ w ++ (u ++ (0 ∷ rest))))
    → Parsed argv pre
        (replicate n b' ' ++ (c ∷ w ++ u))
        words
        (args_loop (suc fuel) argv (length pre) words)
with_word zero n c argv pre w [] rest words ih room enough short inside ends text widths line =
    absurd (omega arith)
with_word (suc fuel) n c argv pre w [] rest words ih room enough short inside ends text widths
      line =
    rw (append-nil (c ∷ w)) (
      last_word argv pre w rest c n 0 words (omega (arith, length-append (c ∷ w) [])) inside
        (NoZero-append_left (c ∷ w) [] text) line fuel room refl widths)
with_word fuel n c argv pre w (d ∷ s) rest words ih room enough short inside ends text widths line =
    let whole = NoZero-append_left (c ∷ w) (d ∷ s) text in
    let fits : n + length (c ∷ w) < scan_fuel = omega (arith, length-append (c ∷ w) (d ∷ s)) in
    let space : d ≡ b' ' = ends in
    let (bytes, widths') =
      written_bytes argv pre w (s ++ (0 ∷ rest)) c n d words fits inside whole line widths in
    let rest_of =
      ih (argv ++ ((length pre + n) ∷ []))
        (after_word argv pre w (s ++ (0 ∷ rest)) c n d words fits inside whole line) s rest
        (written argv pre w (s ++ (0 ∷ rest)) c n d words fits inside whole line)
        (omega (arith, length-append argv ((length pre + n) ∷ [])))
        (omega (arith, length-append argv ((length pre + n) ∷ [])))
        (omega (arith, length-append (c ∷ w) (d ∷ s))) (NoZero-append_right (c ∷ w) (d ∷ s) text).1
        widths' bytes in
    subst
      (λ k.
        Parsed argv pre (replicate n b' ' ++ (c ∷ w ++ (k ∷ s))) words
          (args_loop (suc fuel) argv (length pre) words))
      (sym space)
      (inner_word argv pre w (s ++ (0 ∷ rest)) c n d words fits inside whole line fuel s room space
        rest_of)

with_spaces :
    (fuel n : ℕ) (argv pre t rest : List ℕ) (words : Words)
    → Finds fuel
    → length argv < max_args
    → max_args < length argv + suc fuel
    → n + length t < scan_fuel
    → StartsWord t
    → NoZero t
    → AreWords words
    → line_buf words ≡ pre ++ (replicate n b' ' ++ (t ++ (0 ∷ rest)))
    → Parsed argv pre (replicate n b' ' ++ t) words (args_loop (suc fuel) argv (length pre) words)
with_spaces fuel n argv pre [] rest words ih room enough short starts text widths line =
    nothing_more argv pre (replicate n b' ' ++ []) (replicate n b' ' ++ (0 ∷ rest)) words _
      (blank_line fuel n argv pre rest words room (omega arith) widths line) line widths
      (rw (words_of-spaces n []) (take-nil _))
with_spaces fuel n argv pre (c ∷ t) rest words ih room enough short starts text widths line =
    let wd = cut_at_space t in
    let cut : c ∷ t ≡ c ∷ wd.word ++ wd.after = ap (◌∷◌ c) wd.cut in
    subst
      (λ k.
        Parsed argv pre (replicate n b' ' ++ k) words
          (args_loop (suc fuel) argv (length pre) words))
      (sym cut)
      (with_word fuel n c argv pre wd.word wd.after rest words ih room enough
        (omega (arith, ap length cut)) (starts, wd.inside) wd.ends (subst NoZero cut text) widths
        (line
          ∙ ap (λ k. pre ++ (replicate n b' ' ++ (k ++ (0 ∷ rest)))) cut
          ∙ ap (λ k. pre ++ (replicate n b' ' ++ k))
              (append_assoc (c ∷ wd.word) wd.after (0 ∷ rest))))

finds : (fuel : ℕ) → Finds fuel
finds zero argv pre s rest words count enough short text widths line = absurd (omega arith)
finds (suc fuel) argv pre s rest words count enough short text widths line =
    elim (Bool-cases (ltb (length argv) max_args)) [
      | inl room ↦
          let sp = spaces s in
          subst (λ k. Parsed argv pre k words (args_loop (suc fuel) argv (length pre) words))
            (sym sp.cut)
            (with_spaces fuel sp.count argv pre sp.after rest words (finds fuel) (ground arith)
              enough
              (omega (
                arith,
                ap length sp.cut,
                length-append (replicate sp.count b' ') sp.after,
                length-replicate {A = ℕ} sp.count b' ',
              ))
              sp.starts
              (NoZero-append_right (replicate sp.count b' ') sp.after (subst NoZero sp.cut text))
              widths
              (line
                ∙ ap (λ k. pre ++ (k ++ (0 ∷ rest))) sp.cut
                ∙ ap (λ k. pre ++ k) (append_assoc (replicate sp.count b' ') sp.after (0 ∷ rest))))
      | inr full ↦
          let none_left : max_args - length argv ≡ 0 = ground arith in
          nothing_more argv pre s (s ++ (0 ∷ rest)) words _
            (stops fuel argv (length pre) words (inr (ground arith))) line widths
            (rw none_left refl)
    ]

-- What `parse_args` returns for a line of text: pointers into the buffer that stand for its words.
pub record ArgsOf (s : List ℕ) (before : Words) (result : Option (List ℕ × Words)) : Type 0 where
  pub argv : List ℕ
  pub words : Words
  pub returns : result ≡ some (argv, words)
  pub widths : AreWords words
  pub size : length words ≡ length before
  pub strings : map (c_string (line_buf words)) argv ≡ take max_args (words_of s)

-- On a buffer of 32-bit words whose bytes start with a text of less than 84 bytes, none of them 0,
-- and a 0 behind it, `parse_args` returns, and the pointers that it returns stand for the first
-- eight words of the text in their order, cut at its spaces, in the buffer that it leaves.
pub parse_args-ArgsOf :
    (s rest : List ℕ) (words : Words)
    → length s < scan_fuel
    → NoZero s
    → AreWords words
    → line_buf words ≡ s ++ (0 ∷ rest)
    → ArgsOf s words (parse_args words)
unfolding parse_args
parse_args-ArgsOf s rest words short text widths line =
    let found =
      finds (suc max_args) [] [] s rest words (omega arith) (omega arith) short text widths line in
    record {
      argv = found.found;
      words = found.words;
      returns = found.returns;
      widths = found.widths;
      size = found.size;
      strings =
          subst (λ l. map (c_string l) found.found ≡ take max_args (words_of s)) (sym found.bytes)
            found.strings;
    }
