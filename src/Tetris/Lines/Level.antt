-- ===== src/Tetris/Lines/Level.antt =====
-- The score, the line count and the level after `grid_clear_lines`.
use mycpu_4soc_game_port.Common.{
  ℕ, zero, suc, ◌+◌, ◌*◌, ◌/◌, ◌^◌, ◌≤◌, ◌<◌, min, ◌≡◌, ◌⊎◌, refl, arith, ltb, if◌then◌else◌, inl,
  inr, Option, some, get_or, u16, u32,
}
use mycpu_4soc_game_port.Tetris.Types.{Grid}
use mycpu_4soc_game_port.Tetris.Grid.Inv.{IsGrid}
use mycpu_4soc_game_port.Tetris.Lines.{level_of, reward, score_table, grid_clear_lines}
use mycpu_4soc_game_port.Tetris.Lines.Keep.{full_count}
use mycpu_4soc_game_port.Tetris.Lines.Scan.{settled}
use mycpu_4soc_game_port.Tetris.Lines.Relief.{recalc_relief_lem}
use mycpu_4soc_game_port.Tetris.Lines.Cleared.{clears_none, clears_some}

-- The points for `n` lines at once, per level: 40, 100 and 300 for up to three, 1200 for more.
abbrev pub points : ℕ → ℕ
points zero = 0
points (suc zero) = 40
points (suc (suc zero)) = 100
points (suc (suc (suc zero))) = 300
points (suc (suc (suc (suc n)))) = 1200

points-table : (n : ℕ) → get_or score_table (if ltb 4 n then 4 else n) 0 ≡ points n
points-table zero = refl
points-table (suc zero) = refl
points-table (suc (suc zero)) = refl
points-table (suc (suc (suc zero))) = refl
points-table (suc (suc (suc (suc zero)))) = refl
points-table (suc (suc (suc (suc (suc n))))) = ground arith

-- The counters of the grid that a clear of `n` full rows leaves.
pub record Counts (n : ℕ) (g : Grid) (r : Option (ℕ × Grid)) : Type 0 where
  pub count : ℕ
  pub out : Grid
  pub returns : r ≡ some (count, out)
  pub capped : count ≡ min n 4
  pub lines : out.lines_cleared ≡ u16 (g.lines_cleared + n)
  pub score : out.score ≡ u32 (g.score + points n * g.level)
  pub level : (n ≡ 0) × (out.level ≡ g.level) ⊎ (0 < n) × (out.level ≡ level_of out.lines_cleared)

reward-Counts : (n : ℕ) (g : Grid) → 0 < n → Counts n g (some (reward n g))
unfolding reward
reward-Counts n g h = record {
  count = (reward n g).0;
  out = (reward n g).1;
  returns = refl;
  capped = ground arith;
  lines = rw recalc_relief_lem;
  score = rw recalc_relief_lem (rw (points-table n));
  level = inr (h, rw recalc_relief_lem);
}

-- On a well-formed grid whose counters fit their types, `grid_clear_lines` with `n` full rows returns
-- the smaller of `n` and 4, adds `n` to the lines, and adds to the score the points for `n` lines
-- times the level before the clear, each modulo the range of its type; the level is that of the new
-- line count, or unchanged if `n` is 0.
pub grid_clear_lines-Counts :
    (g : Grid)
    → IsGrid g
    → g.lines_cleared < 2 ^ 16
    → g.score < 2 ^ 32
    → Counts (full_count g.rows) g (grid_clear_lines g)
grid_clear_lines-Counts g ok hl hs = elim (zero_or_more (full_count g.rows)) [
  | inl n ↦ record {
    count = 0;
    out = g;
    returns = clears_none g ok n;
    capped = omega arith;
    lines = omega arith;
    score = rw n (omega arith);
    level = inl (n, refl);
  }
  | inr n ↦ rw (clears_some g ok n) (settled_counts n)
]
  where
    zero_or_more : (n : ℕ) → (n ≡ 0) ⊎ (0 < n)
    zero_or_more n = omega arith

    settled_counts :
        0 < full_count g.rows
        → Counts (full_count g.rows) g (some (reward (full_count g.rows) (settled g)))
    settled_counts n =
        let c = reward-Counts (full_count g.rows) (settled g) n in
        record {
          count = c.count;
          out = c.out;
          returns = c.returns;
          capped = c.capped;
          lines = c.lines;
          score = c.score;
          level = c.level;
        }

-- The level of a line count below 2550 is one more than its tens, cut to 20, and from 2560 lines on
-- it is again from 0 to 20; but from 2550 to 2559 lines the cut to eight bits makes it 0.
pub level_of_lem :
    (lines : ℕ)
    → (lines < 2550) × (level_of lines ≡ min (1 + lines / 10) 20)
      ⊎ (2550 ≤ lines) × (lines < 2560) × (level_of lines ≡ 0)
      ⊎ (2560 ≤ lines) × (level_of lines ≤ 20)
unfolding level_of
level_of_lem lines = ground arith
