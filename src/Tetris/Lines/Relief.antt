-- ===== src/Tetris/Lines/Relief.antt =====
-- `recalc_relief`, in 4-soc/csrc/tetris/tetris_grid.c.
use mycpu_4soc_game_port.Common.{
  ℕ, zero, suc, ◌+◌, ◌≤◌, ◌<◌, ◌≡◌, ◌⊎◌, ◌≢◌, subst, refl, ap, ◌∙◌, arith, false, Bool-cases, inl,
  inr, for_range, get_or-past,
}
use mycpu_4soc_game_port.Common.Int.{pos, negsuc, ◌≤ℤ◌}
use mycpu_4soc_game_port.Common.Bits.{bit, bit-zero}
use mycpu_4soc_game_port.Common.Fill.{fill, length-fill, get_or-fill}
use mycpu_4soc_game_port.Tetris.Types.{Grid}
use mycpu_4soc_game_port.Tetris.Grid.{row, relief_at, set_relief, has_bit}
use mycpu_4soc_game_port.Tetris.Grid.Inv.{cell, IsGrid, IsTop, IsTopped, has_bit_lem}
use mycpu_4soc_game_port.Tetris.Grid.Reset.{put_relief}
use mycpu_4soc_game_port.Tetris.Lines.{column_top, recalc_relief}

-- Nothing is taken above the grid.
cell_within : (g : Grid) (x y : ℕ) → IsGrid g → cell g x y ≡ 1 → y < 18
cell_within g x y ok taken = elim (places y) [
  | inl h ↦ h
  | inr h ↦ absurd (omega (arith, bit-zero x, no_bit h))
]
  where
    places : (y : ℕ) → (y < 18) ⊎ (18 ≤ y)
    places y = omega arith

    no_bit : 18 ≤ y → cell g x y ≡ bit 0 x
    no_bit h = ap (λ r. bit r x) (get_or-past g.rows y 0 (omega (arith, ok.rows_length)))

no_bit_here : (r x : ℕ) → has_bit r x ≡ false → bit r x ≢ 1
no_bit_here r x e = ground (arith, has_bit_lem r x)

column_top_lem :
    (g : Grid) (x n : ℕ)
    → ((y : ℕ) → y < n → cell g x y ≡ 1 → pos y ≤ℤ column_top g x n)
      × ((column_top g x n ≡ negsuc 0) ⊎ ((t : ℕ) × (column_top g x n ≡ pos t) × (cell g x t ≡ 1)))
unfolding column_top
column_top_lem g x zero = (λ y h taken. absurd (omega arith), inl refl)
column_top_lem g x (suc n) = elim (Bool-cases (has_bit (row g n) x)) [
  | inl e ↦ rw e (λ y h taken. omega arith, inr (n, refl, ground (arith, has_bit_lem (row g n) x)))
  | inr e ↦
      let (above, attained) = column_top_lem g x n in
      let apart : (y : ℕ) → cell g x y ≡ 1 → y ≢ n =
        λ y taken p. no_bit_here (row g n) x e (subst (λ k. cell g x k ≡ 1) p taken) in
      rw e (λ y h taken. above y (omega (arith, apart y taken)) taken, attained)
]

column_top-IsTop : (g : Grid) (x : ℕ) → IsGrid g → IsTop g x (column_top g x 18)
column_top-IsTop g x ok =
    let (above, attained) = column_top_lem g x 18 in
    record { above = λ y taken. above y (cell_within g x y ok taken) taken; attained = attained }

-- The rows are not touched, so each round reads the same grid.
recalc_rounds :
    (n i : ℕ) (g : Grid)
    → for_range n i (λ x g. set_relief x (column_top g x 18) g) g
      ≡ put_relief (fill n i (λ x. column_top g x 18) g.relief) g
unfolding for_range column_top
recalc_rounds zero i g = refl
recalc_rounds (suc n) i g = recalc_rounds n (i + 1) (set_relief i (column_top g i 18) g)

pub recalc_relief_lem :
    (g : Grid) → recalc_relief g ≡ put_relief (fill 10 0 (λ x. column_top g x 18) g.relief) g
unfolding recalc_relief
recalc_relief_lem g = recalc_rounds 10 0 g

pub recalc_relief-IsTopped : (g : Grid) → IsGrid g → IsTopped (recalc_relief g)
recalc_relief-IsTopped g ok x hx =
    let here : relief_at (put_relief (fill 10 0 (λ x. column_top g x 18) g.relief) g) x
        ≡ column_top g x 18 =
      ground (
        arith,
        get_or-fill 10 0 x (λ x. column_top g x 18) g.relief (pos 0)
            (omega (arith, ok.relief_length)),
      ) in
    let top = column_top-IsTop g x ok in
    rw (recalc_relief_lem g)
      (record { above = λ y taken. rw here (top.above y taken); attained = rw here top.attained })

pub recalc_relief-IsGrid : (g : Grid) → IsGrid g → IsGrid (recalc_relief g)
recalc_relief-IsGrid g ok = rw (recalc_relief_lem g) (record {
  rows_length = ok.rows_length;
  colors_length = ok.colors_length;
  color_row_length = ok.color_row_length;
  relief_length = length-fill 10 0 (λ x. column_top g x 18) g.relief ∙ ok.relief_length;
  narrow = ok.narrow;
  black = ok.black;
})
