-- ===== src/Tetris/Lines/Scan.antt =====
-- The loop of `grid_clear_lines` and its fuel.
use mycpu_4soc_game_port.Common.{
  ℕ, zero, suc, ◌+◌, ◌≤◌, ◌<◌, ◌≡◌, refl, sym, ap, subst, ◌∙◌, arith, true, false, ltb, lt→ltb,
  ltb→lt, Bool-cases, inl, inr, Option, some, List, [], ◌∷◌, ◌++◌, length, length-append, get_or,
}
use mathlib.Core.List.{append_assoc}
use mycpu_4soc_game_port.Common.Int.{pos}
use mycpu_4soc_game_port.Common.Pull.{get_or-append_at, drop_at-append}
use mycpu_4soc_game_port.Tetris.Types.{Grid}
use mycpu_4soc_game_port.Tetris.Grid.{row, grid_row_full}
use mycpu_4soc_game_port.Tetris.Grid.Inv.{IsGrid, IsGrid-IsSized}
use mycpu_4soc_game_port.Tetris.Grid.Erase.{grid_row_full_lem}
use mycpu_4soc_game_port.Tetris.Grid.Reset.{black_row}
use mycpu_4soc_game_port.Tetris.Lines.{remove_row, clear_loop, clear_fuel}
use mycpu_4soc_game_port.Tetris.Lines.Remove.{remove_row_lem, remove_row-IsGrid}
use mycpu_4soc_game_port.Tetris.Lines.Keep.{
  is_full, full_count, settle, settle-append_zero, full_count-append_zero,
}

-- The grid with its full rows gone and the others settled.
abbrev pub settled : Grid → Grid
settled g = record g { rows = settle g.rows g.rows 0; colors = settle g.rows g.colors black_row }

-- Where the scan stands: `y` rows are passed, and those of `rs` are to come, with their colors.
record Split (g : Grid) (y : ℕ) (ds rs : List ℕ) (dcs cs : List (List ℕ)) : Type 0 where
  rows : g.rows ≡ ds ++ rs
  colors : g.colors ≡ dcs ++ cs
  passed : length ds ≡ y
  passed_colors : length dcs ≡ y
  alike : length rs ≡ length cs

-- What the scan makes of it.
abbrev goal : Grid → List ℕ → List ℕ → List (List ℕ) → List (List ℕ) → Grid
goal g ds rs dcs cs = record g {
  rows = ds ++ settle rs rs 0;
  colors = dcs ++ settle rs cs black_row;
}

Split-total :
    {g : Grid} {y : ℕ} {ds rs : List ℕ} {dcs cs : List (List ℕ)}
    → IsGrid g
    → Split g y ds rs dcs cs
    → y + length rs ≡ 18
Split-total {ds = ds} {rs = rs} ok s =
    omega (arith, ok.rows_length, s.passed, length-append ds rs, ap length s.rows)

Split-remove :
    {g : Grid} {y r : ℕ} {ds rs : List ℕ} {dcs cs : List (List ℕ)} {c : List ℕ}
    → IsGrid g
    → y < 18
    → Split g y ds (r ∷ rs) dcs (c ∷ cs)
    → Split (remove_row y g) y ds (rs ++ (0 ∷ [])) dcs (cs ++ (black_row ∷ []))
Split-remove {g} {y} {r} {ds} {rs} {dcs} {cs} {c} ok hy s = record {
  rows =
      rw (remove_row_lem y g (IsGrid-IsSized ok) hy)
        (rw (s.rows, drop_at-append ds r rs y s.passed) (append_assoc ds rs (0 ∷ [])));
  colors = rw (remove_row_lem y g (IsGrid-IsSized ok) hy) (
      rw (s.colors, drop_at-append dcs c cs y s.passed_colors)
        (append_assoc dcs cs (black_row ∷ [])));
  passed = s.passed;
  passed_colors = s.passed_colors;
  alike = omega (arith, s.alike, length-append rs (0 ∷ []), length-append cs (black_row ∷ []));
}

Split-pass :
    {g : Grid} {y r : ℕ} {ds rs : List ℕ} {dcs cs : List (List ℕ)} {c : List ℕ}
    → Split g y ds (r ∷ rs) dcs (c ∷ cs)
    → Split g (y + 1) (ds ++ (r ∷ [])) rs (dcs ++ (c ∷ [])) cs
Split-pass {g} {y} {r} {ds} {rs} {dcs} {cs} {c} s = record {
  rows = s.rows ∙ sym (append_assoc ds (r ∷ []) rs);
  colors = s.colors ∙ sym (append_assoc dcs (c ∷ []) cs);
  passed = omega (arith, s.passed, length-append ds (r ∷ []));
  passed_colors = omega (arith, s.passed_colors, length-append dcs (c ∷ []));
  alike = omega (arith, s.alike);
}

module _ (fuel y cleared : ℕ) (g : Grid) where
  loop_ends : ltb y 18 ≡ false → clear_loop (suc fuel) y cleared g ≡ some (cleared, g)
  unfolding clear_loop
  loop_ends e = rw e

  loop_removes :
      y < 18
      → grid_row_full g (pos y) ≡ true
      → clear_loop (suc fuel) y cleared g ≡ clear_loop fuel y (cleared + 1) (remove_row y g)
  unfolding clear_loop
  loop_removes h full = rw (lt→ltb y 18 h, full)

  loop_passes :
      y < 18
      → grid_row_full g (pos y) ≡ false
      → clear_loop (suc fuel) y cleared g ≡ clear_loop fuel (y + 1) cleared g
  unfolding clear_loop
  loop_passes h other = rw (lt→ltb y 18 h, other)

abbrev pub result : ℕ → Grid → Option (ℕ × Grid)
result n g = some (n, g)

pub same_result : {a b : ℕ} {g h : Grid} → a ≡ b → g ≡ h → result a g ≡ result b h
same_result p q = λ i. result (p i) (q i)

same_grid : {a b : ℕ} {g h : Grid} → result a g ≡ result b h → g ≡ h
same_grid e = cc

goal-nil :
    {g : Grid} {y : ℕ} {ds : List ℕ} {dcs : List (List ℕ)}
    → Split g y ds [] dcs []
    → g ≡ goal g ds [] dcs []
goal-nil {g} s = λ i. record g { rows = s.rows i; colors = s.colors i }

goal-full :
    {g : Grid} {y r : ℕ} {ds rs : List ℕ} {dcs cs : List (List ℕ)} {c : List ℕ}
    → IsGrid g
    → y < 18
    → Split g y ds (r ∷ rs) dcs (c ∷ cs)
    → is_full r ≡ true
    → goal (remove_row y g) ds (rs ++ (0 ∷ [])) dcs (cs ++ (black_row ∷ []))
      ≡ goal g ds (r ∷ rs) dcs (c ∷ cs)
goal-full {g} {y} {rs = rs} {cs = cs} ok hy s full =
    let alike : length rs ≡ length cs = omega (arith, s.alike) in
    rw (remove_row_lem y g (IsGrid-IsSized ok) hy)
      (rw (settle-append_zero rs rs 0 refl, settle-append_zero rs cs black_row alike, full) refl)

goal-pass :
    {g : Grid} {y r : ℕ} {ds rs : List ℕ} {dcs cs : List (List ℕ)} {c : List ℕ}
    → Split g y ds (r ∷ rs) dcs (c ∷ cs)
    → is_full r ≡ false
    → goal g (ds ++ (r ∷ [])) rs (dcs ++ (c ∷ [])) cs ≡ goal g ds (r ∷ rs) dcs (c ∷ cs)
goal-pass {g} {y} {r} {ds} {rs} {dcs} {cs} {c} s other = rw other (
    rw
      (
        append_assoc ds (r ∷ []) (settle rs rs 0),
        append_assoc dcs (c ∷ []) (settle rs cs black_row),
      )
      refl)

clear_loop_lem :
    (fuel y cleared : ℕ) (g : Grid) (ds rs : List ℕ) (dcs cs : List (List ℕ))
    → IsGrid g
    → Split g y ds rs dcs cs
    → length rs + full_count rs < fuel
    → clear_loop fuel y cleared g ≡ some (cleared + full_count rs, goal g ds rs dcs cs)
clear_loop_lem zero y cleared g ds rs dcs cs ok s h = absurd (omega arith)
clear_loop_lem (suc fuel) y cleared g ds [] dcs [] ok s h =
    loop_ends fuel y cleared g (ground (arith, Split-total ok s))
    ∙ same_result (omega arith) (goal-nil s)
clear_loop_lem (suc fuel) y cleared g ds [] dcs (c ∷ cs) ok s h = absurd (omega (arith, s.alike))
clear_loop_lem (suc fuel) y cleared g ds (r ∷ rs) dcs [] ok s h = absurd (omega (arith, s.alike))
clear_loop_lem (suc fuel) y cleared g ds (r ∷ rs) dcs (c ∷ cs) ok s h =
    let hy : y < 18 = omega (arith, Split-total ok s) in
    let at_y : row g y ≡ r =
      ap (λ xs. get_or xs y 0) s.rows ∙ get_or-append_at ds r rs y 0 s.passed in
    let test : grid_row_full g (pos y) ≡ is_full r =
      grid_row_full_lem g y (ok.narrow y) hy ∙ ap is_full at_y in
    elim (Bool-cases (is_full r)) [
      | inl full ↦
          loop_removes fuel y cleared g hy (test ∙ full)
          ∙ clear_loop_lem fuel y (cleared + 1) (remove_row y g) ds (rs ++ (0 ∷ [])) dcs
              (cs ++ (black_row ∷ [])) (remove_row-IsGrid y g ok hy) (Split-remove ok hy s)
              (ground (arith, full_count-append_zero rs, length-append rs (0 ∷ [])))
          ∙ same_result (ground (arith, full_count-append_zero rs)) (goal-full ok hy s full)
      | inr other ↦
          loop_passes fuel y cleared g hy (test ∙ other)
          ∙ clear_loop_lem fuel (y + 1) cleared g (ds ++ (r ∷ [])) rs (dcs ++ (c ∷ [])) cs ok
              (Split-pass s) (ground arith)
          ∙ same_result (ground arith) (goal-pass s other)
    ]

full_count-le : (rs : List ℕ) → full_count rs ≤ length rs
full_count-le [] = omega arith
full_count-le (r ∷ rs) = ground (arith, full_count-le rs)

-- From a well-formed grid the loop ends within its fuel, with the number of full rows and the grid
-- from which exactly those are gone.
pub clear_loop_settles :
    (g : Grid) → IsGrid g → clear_loop clear_fuel 0 0 g ≡ some (full_count g.rows, settled g)
clear_loop_settles g ok =
    clear_loop_lem clear_fuel 0 0 g [] g.rows [] g.colors ok
      (record {
        rows = refl;
        colors = refl;
        passed = refl;
        passed_colors = refl;
        alike = ok.rows_length ∙ sym ok.colors_length;
      })
      (omega (arith, ok.rows_length, full_count-le g.rows))
    ∙ same_result (omega arith) refl

-- Whatever the loop returns, the grid is well formed.
pub clear_loop-IsGrid :
    (fuel y cleared : ℕ) (g : Grid) {n : ℕ} {out : Grid}
    → IsGrid g
    → clear_loop fuel y cleared g ≡ result n out
    → IsGrid out
clear_loop-IsGrid zero y cleared g ok e = absurd (unfold clear_loop in cc)
clear_loop-IsGrid (suc fuel) y cleared g ok e = elim (Bool-cases (ltb y 18)) [
  | inl within ↦ elim (Bool-cases (grid_row_full g (pos y))) [
    | inl full ↦
        clear_loop-IsGrid fuel y (cleared + 1) (remove_row y g)
          (remove_row-IsGrid y g ok (ltb→lt y 18 within))
          (sym (loop_removes fuel y cleared g (ltb→lt y 18 within) full) ∙ e)
    | inr other ↦
        clear_loop-IsGrid fuel (y + 1) cleared g ok
          (sym (loop_passes fuel y cleared g (ltb→lt y 18 within) other) ∙ e)
  ]
  | inr past ↦ subst IsGrid (same_grid (sym (loop_ends fuel y cleared g past) ∙ e)) ok
]

pub settled-IsGrid : (g : Grid) → IsGrid g → IsGrid (settled g)
settled-IsGrid g ok = clear_loop-IsGrid clear_fuel 0 0 g ok (clear_loop_settles g ok)
