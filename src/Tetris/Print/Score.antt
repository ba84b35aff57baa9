-- ===== src/Tetris/Print/Score.antt =====
-- When the score is printed.
use mycpu_4soc_game_port.Common.{ℕ, ◌≡◌, ◌⊎◌, refl, arith, ◌&&◌, ◌==◌, Bool-cases, inl, inr, ◌++◌}
use mycpu_4soc_game_port.Tetris.Print.{Terminal, score_line, print_score_to_terminal}

-- The terminal shows these three numbers.
pub record Shows (score lines level : ℕ) (t : Terminal) : Type 0 where
  pub score_shown : t.score ≡ score
  pub lines_shown : t.lines ≡ lines
  pub level_shown : t.level ≡ level

-- After a call the terminal shows the three numbers; if it showed them already nothing was sent,
-- and otherwise exactly one line with them was.
pub print_score-Shows :
    (score lines level : ℕ) (t : Terminal)
    → Shows score lines level (print_score_to_terminal score lines level t)
      × (Shows score lines level t × ((print_score_to_terminal score lines level t).sent ≡ t.sent)
          ⊎ ¬ Shows score lines level t
            × ((print_score_to_terminal score lines level t).sent
                ≡ t.sent ++ score_line score lines level))
unfolding print_score_to_terminal
print_score-Shows score lines level t =
    elim (Bool-cases (score == t.score && lines == t.lines && level == t.level)) [
      | inl e ↦
          let same : Shows score lines level t = record {
            score_shown = ground arith;
            lines_shown = ground arith;
            level_shown = ground arith;
          } in
          rw e (same, inl (same, refl))
      | inr e ↦ rw e (
        record { score_shown = refl; lines_shown = refl; level_shown = refl },
        inr (λ s. absurd (ground (arith, s.score_shown, s.lines_shown, s.level_shown)), refl),
      )
    ]
