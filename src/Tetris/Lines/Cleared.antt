-- ===== src/Tetris/Lines/Cleared.antt =====
-- What `grid_clear_lines` does to the cells, the colors and the heights of a grid.
use mycpu_4soc_game_port.Common.{
  ℕ, zero, suc, ◌+◌, ◌<◌, ◌≡◌, ◌⊎◌, refl, sym, ap, ◌∙◌, arith, ltb, lt→ltb, u16, u32, get_or, ◌*◌,
  if◌then◌else◌, Bool-cases, inl, inr, Option, some, List, [], ◌∷◌, ◌++◌, length, replicate,
}
use mycpu_4soc_game_port.Tetris.Types.{Grid}
use mycpu_4soc_game_port.Tetris.Grid.Inv.{IsGrid, IsTopped}
use mycpu_4soc_game_port.Tetris.Grid.Reset.{black_row}
use mycpu_4soc_game_port.Tetris.Lines.{
  clear_loop, clear_fuel, reward, grid_clear_lines, level_of, score_table,
}
use mycpu_4soc_game_port.Tetris.Lines.Keep.{is_full, keep, full_count, settle, full_count-keep}
use mycpu_4soc_game_port.Tetris.Lines.Scan.{
  settled, clear_loop_settles, settled-IsGrid, same_result,
}
use mycpu_4soc_game_port.Tetris.Lines.Relief.{
  recalc_relief_lem, recalc_relief-IsGrid, recalc_relief-IsTopped,
}

-- What a call of `grid_clear_lines` on `g` should return.
pub record Clears (g : Grid) (r : Option (ℕ × Grid)) : Type 0 where
  pub count : ℕ
  pub out : Grid
  pub returns : r ≡ some (count, out)
  pub rows : out.rows ≡ settle g.rows g.rows 0
  pub colors : out.colors ≡ settle g.rows g.colors black_row
  pub none_left : full_count out.rows ≡ 0
  pub valid : IsGrid out
  pub tops : IsTopped out

full_count-append : (xs ys : List ℕ) → full_count (xs ++ ys) ≡ full_count xs + full_count ys
full_count-append [] ys = omega arith
full_count-append (x ∷ xs) ys = ground (arith, full_count-append xs ys)

full_count-replicate : (n : ℕ) → full_count (replicate n 0) ≡ 0
full_count-replicate zero = refl
full_count-replicate (suc n) = ground (arith, full_count-replicate n)

full_count-settle : (rs : List ℕ) → full_count (settle rs rs 0) ≡ 0
full_count-settle rs = omega (
  arith,
  full_count-append (keep rs rs) (replicate (full_count rs) 0),
  full_count-keep rs,
  full_count-replicate (full_count rs),
)

-- With no full row there is nothing to settle.
settle_idle :
    {A : Type 0} (rs : List ℕ) (xs : List A) (z : A)
    → length rs ≡ length xs
    → full_count rs ≡ 0
    → settle rs xs z ≡ xs
settle_idle [] [] z e n = refl
settle_idle [] (x ∷ xs) z e n = absurd (omega arith)
settle_idle (r ∷ rs) [] z e n = absurd (omega arith)
settle_idle (r ∷ rs) (x ∷ xs) z e n = elim (Bool-cases (is_full r)) [
  | inl f ↦ absurd (ground arith)
  | inr f ↦ rw f (ap (◌∷◌ x) (settle_idle rs xs z (omega arith) (ground arith)))
]

settled_idle : (g : Grid) → IsGrid g → full_count g.rows ≡ 0 → settled g ≡ g
settled_idle g ok n =
    let rows = settle_idle g.rows g.rows 0 refl n in
    let colors = settle_idle g.rows g.colors black_row (ok.rows_length ∙ sym ok.colors_length) n in
    λ i. record g { rows = rows i; colors = colors i }

pub clears_none : (g : Grid) → IsGrid g → full_count g.rows ≡ 0 → grid_clear_lines g ≡ some (0, g)
unfolding grid_clear_lines
clears_none g ok n =
    let e : clear_loop clear_fuel 0 0 g ≡ some (0, g) =
      clear_loop_settles g ok ∙ same_result n (settled_idle g ok n) in
    rw (e, grid_clear_lines)

pub clears_some :
    (g : Grid)
    → IsGrid g
    → 0 < full_count g.rows
    → grid_clear_lines g ≡ some (reward (full_count g.rows) (settled g))
unfolding grid_clear_lines
clears_some g ok n =
    rw (clear_loop_settles g ok, grid_clear_lines) (rw (lt→ltb 0 (full_count g.rows) n))

-- The counters are no part of what makes a grid well formed.
pub IsGrid-counters :
    {g : Grid} (lines score level : ℕ)
    → IsGrid g
    → IsGrid (record g { lines_cleared = lines; score = score; level = level })
IsGrid-counters lines score level ok = record {
  rows_length = ok.rows_length;
  colors_length = ok.colors_length;
  color_row_length = ok.color_row_length;
  relief_length = ok.relief_length;
  narrow = ok.narrow;
  black = ok.black;
}

reward-Clears :
    (n : ℕ) (g : Grid)
    → IsGrid g
    → ((reward n g).1.rows ≡ g.rows)
      × ((reward n g).1.colors ≡ g.colors)
      × IsGrid (reward n g).1
      × IsTopped (reward n g).1
unfolding reward
reward-Clears n g ok =
    let counted = record g {
      lines_cleared = u16 (g.lines_cleared + n);
      score = u32 (g.score + get_or score_table (if ltb 4 n then 4 else n) 0 * g.level);
      level = level_of (u16 (g.lines_cleared + n));
    } in
    let ok' : IsGrid counted = IsGrid-counters _ _ _ ok in
    (
      rw (recalc_relief_lem counted),
      rw (recalc_relief_lem counted),
      recalc_relief-IsGrid counted ok',
      recalc_relief-IsTopped counted ok',
    )

zero_or_more : (n : ℕ) → (n ≡ 0) ⊎ (0 < n)
zero_or_more n = omega arith

-- On a well-formed grid with exact heights `grid_clear_lines` returns; its grid holds the rows that
-- were not full, with their colors, in the same order from the bottom, and empty black rows on
-- top; no row of it is full, it is well formed and its heights are exact.
pub grid_clear_lines-Clears : (g : Grid) → IsGrid g → IsTopped g → Clears g (grid_clear_lines g)
grid_clear_lines-Clears g ok tops = elim (zero_or_more (full_count g.rows)) [
  | inl n ↦ record {
    count = 0;
    out = g;
    returns = clears_none g ok n;
    rows = sym (settle_idle g.rows g.rows 0 refl n);
    colors = sym (settle_idle g.rows g.colors black_row (ok.rows_length ∙ sym ok.colors_length) n);
    none_left = n;
    valid = ok;
    tops = tops;
  }
  | inr n ↦
      let (rows, colors, valid, exact) =
        reward-Clears (full_count g.rows) (settled g) (settled-IsGrid g ok) in
      record {
        count = (reward (full_count g.rows) (settled g)).0;
        out = (reward (full_count g.rows) (settled g)).1;
        returns = clears_some g ok n;
        rows = rows;
        colors = colors;
        none_left = ap full_count rows ∙ full_count-settle g.rows;
        valid = valid;
        tops = exact;
      }
]
