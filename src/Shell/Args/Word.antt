-- ===== src/Shell/Args/Word.antt =====
-- The rounds of the loop in `parse_args` that find a word.
use mycpu_4soc_game_port.Common.{
  set-append, ℕ, zero, suc, ◌+◌, ◌-◌, ◌<◌, ◌≡◌, ◌≢◌, refl, sym, ap, subst, ◌∙◌, arith, ◌⊎◌, inl,
  inr, some, List, [], ◌∷◌, ◌++◌, map, length, get_or, set, take, replicate, length-append,
  length-replicate,
}
use mathlib.Core.Path.{ap₂}
use mathlib.Core.List.{append-nil, append_assoc}
use mycpu_4soc_game_port.Shell.Buffer.{Words, line_buf, line_buf_write_byte}
use mycpu_4soc_game_port.Shell.Buffer.Write.{
  AreWords, line_buf_write_byte-Stores, length-line_buf_write_byte,
}
use mycpu_4soc_game_port.Shell.Args.{max_args, scan_fuel, end_arg, args_loop, drop, c_string}
use mycpu_4soc_game_port.Shell.Args.Split.{
  words_of, NoZero, NoSpace, words_of-spaces, words_of-last, words_of-inner,
}
use mycpu_4soc_game_port.Shell.Args.Scan.{
  get_or-drop, drop-append, skip_spaces_lem, find_end_lem, until_zero-append,
}
use mycpu_4soc_game_port.Shell.Args.Round.{stops, one_arg, Parsed, take-nil, take_one, drop_behind}

-- A word of the line behind some spaces, with the byte `x` behind it.
module _ (argv pre w rest : List ℕ) (c n x : ℕ) (words : Words)
    (short : n + length (c ∷ w) < scan_fuel) (inside : NoSpace (c ∷ w)) (text : NoZero (c ∷ w))
    (line : line_buf words ≡ pre ++ (replicate n b' ' ++ (c ∷ w ++ (x ∷ rest)))) where
  front : List ℕ
  front = pre ++ (replicate n b' ' ++ (c ∷ w))

  front_line : (ys : List ℕ) → front ++ ys ≡ pre ++ (replicate n b' ' ++ (c ∷ w ++ ys))
  unfolding front
  front_line ys = simp append_assoc

  length-front : length front ≡ length pre + n + length (c ∷ w)
  unfolding front
  length-front = omega (
    arith,
    length-append pre (replicate n b' ' ++ (c ∷ w)),
    length-append (replicate n b' ') (c ∷ w),
    length-replicate {A = ℕ} n b' ',
  )

  at_start : drop (length pre + n) (line_buf words) ≡ c ∷ w ++ (x ∷ rest)
  at_start = rw line (drop_behind n pre (c ∷ w ++ (x ∷ rest)))

  at_idx : drop (length pre) (line_buf words) ≡ replicate n b' ' ++ (c ∷ w ++ (x ∷ rest))
  at_idx = rw line (drop-append pre _)

  at_stop : drop (length pre + n + length (c ∷ w)) (line_buf words) ≡ x ∷ rest
  at_stop = rw (line, ← front_line (x ∷ rest), ← length-front) (drop-append front (x ∷ rest))

  here : (k : ℕ) → k ≡ n → get_or (line_buf words) (length pre) 0 ≢ 0
  here zero e =
      let first : drop (length pre) (line_buf words) ≡ c ∷ w ++ (x ∷ rest) =
        at_idx ∙ ap (λ m. replicate m b' ' ++ (c ∷ w ++ (x ∷ rest))) (sym e) in
      ground (arith, get_or-drop (length pre) (line_buf words) c (w ++ (x ∷ rest)) first)
  here (suc k) e =
      let first = at_idx ∙ ap (λ m. replicate m b' ' ++ (c ∷ w ++ (x ∷ rest))) (sym e) in
      ground (arith, get_or-drop (length pre) (line_buf words) b' ' _ first)

  word_round :
      (fuel : ℕ)
      → length argv < max_args
      → (x ≡ 0) ⊎ (x ≡ b' ')
      → args_loop (suc fuel) argv (length pre) words
        ≡ args_loop fuel
            (argv ++ ((length pre + n) ∷ []))
            (end_arg (length pre + n + length (c ∷ w)) words).0
            (end_arg (length pre + n + length (c ∷ w)) words).1
  word_round fuel room stop =
      one_arg fuel argv (length pre) words (length pre + n) (here n refl) room
        (skip_spaces_lem n scan_fuel (length pre) c (line_buf words) (w ++ (x ∷ rest)) (omega arith)
          inside.0 at_idx)
        (length pre + n + length (c ∷ w))
        (rw (get_or-drop (length pre + n) (line_buf words) c (w ++ (x ∷ rest)) at_start) text.0)
        (find_end_lem (c ∷ w) scan_fuel (length pre + n) x (line_buf words) rest (omega arith)
          inside text stop at_start)

  -- The pointer to the word, once the byte behind it is 0.
  points : (ys : List ℕ) → c_string (front ++ (0 ∷ ys)) (length pre + n) ≡ c ∷ w
  points ys =
      rw (front_line (0 ∷ ys), drop_behind n pre (c ∷ w ++ (0 ∷ ys)))
        (until_zero-append (c ∷ w) ys text)

  end_arg_zero :
      x ≡ 0
      → end_arg (length pre + n + length (c ∷ w)) words ≡ (length pre + n + length (c ∷ w), words)
  unfolding end_arg
  end_arg_zero e =
      rw (get_or-drop (length pre + n + length (c ∷ w)) (line_buf words) x rest at_stop, e) refl

  end_arg_space :
      x ≡ b' '
      → end_arg (length pre + n + length (c ∷ w)) words ≡ (
        length pre + n + length (c ∷ w) + 1,
        line_buf_write_byte (length pre + n + length (c ∷ w)) 0 words,
      )
  unfolding end_arg
  end_arg_space e =
      rw (get_or-drop (length pre + n + length (c ∷ w)) (line_buf words) x rest at_stop, e) refl

  pub last_word :
      (fuel : ℕ)
      → length argv < max_args
      → x ≡ 0
      → AreWords words
      → Parsed argv pre
          (replicate n b' ' ++ (c ∷ w))
          words
          (args_loop (suc (suc fuel)) argv (length pre) words)
  last_word fuel room e widths = record {
    found = (length pre + n) ∷ [];
    tail = replicate n b' ' ++ (c ∷ w ++ (0 ∷ rest));
    words = words;
    returns =
        word_round (suc fuel) room (inl e)
        ∙ ap (λ p. args_loop (suc fuel) (argv ++ ((length pre + n) ∷ [])) p.0 p.1) (end_arg_zero e)
        ∙ stops fuel (argv ++ ((length pre + n) ∷ [])) (length pre + n + length (c ∷ w)) words (
            inl
              (get_or-drop (length pre + n + length (c ∷ w)) (line_buf words) x rest at_stop ∙ e));
    bytes = rw (← e) line;
    widths = widths;
    size = refl;
    strings =
        rw (← front_line (0 ∷ rest), points rest, words_of-spaces n (c ∷ w), alone)
          (sym (
            take_one (max_args - length argv) (c ∷ w) [] (omega arith)
            ∙ ap (◌∷◌ (c ∷ w)) (take-nil _)));
  }
    where
      alone : words_of (c ∷ w) ≡ (c ∷ w) ∷ []
      alone = rw append-nil at (words_of-last (c ∷ w) inside (cc))

  -- The line behind the word, once the byte behind it is 0.
  unfoldable pub after_word : List ℕ
  unfolding front
  after_word = front ++ (0 ∷ [])

  unfoldable pub written : Words
  written = line_buf_write_byte (length pre + n + length (c ∷ w)) 0 words

  pub written_bytes : AreWords words → (line_buf written ≡ after_word ++ rest) × AreWords written
  unfolding written after_word
  written_bytes widths =
      let (stored, widths') =
        line_buf_write_byte-Stores (length pre + n + length (c ∷ w)) 0 words (omega arith) widths in
      let split : line_buf words ≡ front ++ (x ∷ rest) = rw (front_line (x ∷ rest)) line in
      let put : set (line_buf words) (length pre + n + length (c ∷ w)) 0 ≡ front ++ (0 ∷ rest) =
        rw (split, ← length-front) (set-append front rest x 0) in
      (rw (append_assoc front (0 ∷ []) rest) (stored ∙ put), widths')

  pub inner_word :
      (fuel : ℕ) (s : List ℕ)
      → length argv < max_args
      → x ≡ b' '
      → Parsed
          (argv ++ ((length pre + n) ∷ []))
          after_word
          s
          written
          (args_loop fuel (argv ++ ((length pre + n) ∷ [])) (length after_word) written)
      → Parsed argv pre
          (replicate n b' ' ++ (c ∷ w ++ (b' ' ∷ s)))
          words
          (args_loop (suc fuel) argv (length pre) words)
  unfolding after_word written
  inner_word fuel s room e rest_of = record {
    found = (length pre + n) ∷ rest_of.found;
    tail = replicate n b' ' ++ (c ∷ w ++ (0 ∷ rest_of.tail));
    words = rest_of.words;
    returns =
        word_round fuel room (inr e)
        ∙ ap (λ p. args_loop fuel (argv ++ ((length pre + n) ∷ [])) p.0 p.1) (end_arg_space e)
        ∙ ap (λ k. args_loop fuel (argv ++ ((length pre + n) ∷ [])) k written) place
        ∙ rest_of.returns
        ∙ ap (λ f. some (f, rest_of.words))
            (append_assoc argv ((length pre + n) ∷ []) rest_of.found);
    bytes = rest_of.bytes ∙ whole rest_of.tail;
    widths = rest_of.widths;
    size = rest_of.size ∙ length-line_buf_write_byte (length pre + n + length (c ∷ w)) 0 words;
    strings =
        rw (words_of-spaces n (c ∷ w ++ (b' ' ∷ s)), words_of-inner (c ∷ w) s inside (cc))
          (ap₂ ◌∷◌ first later
            ∙ sym (take_one (max_args - length argv) (c ∷ w) (words_of s) (omega arith)));
  }
    where
      place : length pre + n + length (c ∷ w) + 1 ≡ length (front ++ (0 ∷ []))
      place = omega (arith, length-append front (0 ∷ []), length-front)

      whole :
          (ys : List ℕ)
          → (front ++ (0 ∷ [])) ++ ys ≡ pre ++ (replicate n b' ' ++ (c ∷ w ++ (0 ∷ ys)))
      whole ys = append_assoc front (0 ∷ []) ys ∙ front_line (0 ∷ ys)

      fewer :
          take (max_args - length (argv ++ ((length pre + n) ∷ []))) (words_of s)
          ≡ take (max_args - length argv - 1) (words_of s)
      fewer =
          let e : max_args - length (argv ++ ((length pre + n) ∷ [])) ≡ max_args - length argv - 1 =
            omega (arith, length-append argv ((length pre + n) ∷ [])) in
          ap (λ k. take k (words_of s)) e

      line_end : List ℕ
      line_end = pre ++ (replicate n b' ' ++ (c ∷ w ++ (0 ∷ rest_of.tail)))

      first : c_string line_end (length pre + n) ≡ c ∷ w
      first =
          subst (λ l. c_string l (length pre + n) ≡ c ∷ w) (front_line (0 ∷ rest_of.tail))
            (points rest_of.tail)

      later : map (c_string line_end) rest_of.found ≡ take (max_args - length argv - 1) (words_of s)
      later =
          subst
            (λ l. map (c_string l) rest_of.found ≡ take (max_args - length argv - 1) (words_of s))
            (whole rest_of.tail) (rest_of.strings ∙ fewer)
