-- ===== src/Tetris/Draw/Cells.antt =====
-- What `draw_grid` shows.
use mycpu_4soc_game_port.Common.{
  ℕ, zero, suc, ◌+◌, ◌-◌, ◌*◌, ◌/◌, ◌<◌, ◌≡◌, refl, sym, ap, ◌∙◌, arith, Bool, true, false, ◌&&◌,
  ltb, leb, if◌then◌else◌, Bool-cases, inl, inr, for_range,
}
use mycpu_4soc_game_port.Common.Int.{pos, +ℤ_parts}
use mycpu_4soc_game_port.Tetris.Types.{Grid}
use mycpu_4soc_game_port.Tetris.Grid.{row, color_at, has_bit}
use mycpu_4soc_game_port.Tetris.Draw.{Frame, draw_cell, draw_grid}
use mycpu_4soc_game_port.Tetris.Draw.Paint.{Paints, Paints-same, Paints-for_range, over}
use mycpu_4soc_game_port.Tetris.Draw.Rects.{is_inside, fb_rect-Paints}

-- A loop whose test can hold in one round only, `m`.
one_round :
    (n k m : ℕ) (test : ℕ → Bool) (color : ℕ → ℕ) (p : ℕ)
    → ((x : ℕ) → x < k + n → test x ≡ true → x ≡ m)
    → for_range n k (λ x p. if test x then color x else p) p
      ≡ (if leb k m && ltb m (k + n) && test m then color m else p)
unfolding for_range
one_round zero k m test color p only = ground arith
one_round (suc n) k m test color p only = elim (Bool-cases (test k)) [
  | inl e ↦
      let here : k ≡ m = only k (omega arith) e in
      rw e (
        one_round n (k + 1) m test color (color k) (λ x h. only x (omega arith))
        ∙ ground (arith, here, sym (ap test here) ∙ e, ap color here))
  | inr e ↦
      let off : k ≡ m → test m ≡ false = λ here. sym (ap test here) ∙ e in
      rw e (one_round n (k + 1) m test color p (λ x h. only x (omega arith)) ∙ ground (arith, off))
]

abbrev covers : ℕ → ℕ → ℕ → ℕ → Bool
covers x y i j = is_inside (pos (2 + x * 3)) (pos (5 + (17 - y) * 3)) 3 3 i j

Paints-if :
    (b : Bool) (op : Frame → Frame) (test : ℕ → ℕ → Bool) (color : ℕ)
    → Paints op (over test color)
    → Paints (λ fb. if b then op fb else fb) (over (λ i j. b && test i j) color)
Paints-if true op test color h = h
Paints-if false op test color h = record { size = λ fb n. n; pixel = λ fb i j n hi hj. refl }

draw_cell-Paints :
    (g : Grid) (y x : ℕ)
    → Paints
        (draw_cell g y x)
        (λ i j p. if has_bit (row g y) x && covers x y i j then color_at g x y else p)
unfolding draw_cell
draw_cell-Paints g y x =
    Paints-if (has_bit (row g y) x) _ (covers x y) (color_at g x y)
      (fb_rect-Paints (pos (2 + x * 3)) (pos (5 + (17 - y) * 3)) 3 3 (color_at g x y))

-- The column and the row of the grid that the pixel (i, j) belongs to.
abbrev pub column_of : ℕ → ℕ
column_of i = (i - 2) / 3

abbrev pub row_of : ℕ → ℕ
row_of j = 17 - (j - 5) / 3

-- `(i, j)` is on the picture of the grid.
abbrev pub on_board : ℕ → ℕ → Bool
on_board i j = leb 2 i && ltb i 32 && leb 5 j && ltb j 59

-- What the pixel shows of the grid, on top of `p`.
abbrev pub shown : Grid → ℕ → ℕ → ℕ → ℕ
shown g i j p =
    if on_board i j && has_bit (row g (row_of j)) (column_of i)
    then color_at g (column_of i) (row_of j)
    else p

covers_column : (x y i j : ℕ) → covers x y i j ≡ true → x ≡ column_of i
covers_column x y i j h = ground (arith, +ℤ_parts (pos (2 + x * 3)) (pos 3))

covers_row : (x y i j : ℕ) → y < 18 → covers x y i j ≡ true → y ≡ row_of j
covers_row x y i j b h = ground (arith, +ℤ_parts (pos (5 + (17 - y) * 3)) (pos 3))

same_rounds :
    (n k : ℕ) (f f' : ℕ → ℕ → ℕ) (p : ℕ)
    → ((k p : ℕ) → f k p ≡ f' k p)
    → for_range n k f p ≡ for_range n k f' p
unfolding for_range
same_rounds zero k f f' p e = refl
same_rounds (suc n) k f f' p e =
    ap (for_range n (k + 1) f) (e k p) ∙ same_rounds n (k + 1) f f' (f' k p) e

and_second : (a b : Bool) → (a && b) ≡ true → b ≡ true
and_second a b h = ground arith

-- Of the cells of row `y` only that in the column of the pixel can show.
row_shows :
    (g : Grid) (y i j p : ℕ)
    → for_range 10 0
        (λ x. over (λ i j. has_bit (row g y) x && covers x y i j) (color_at g x y) i j)
        p
      ≡ (if ltb (column_of i) 10 && (has_bit (row g y) (column_of i) && covers (column_of i) y i j)
          then color_at g (column_of i) y
          else p)
row_shows g y i j p =
    one_round 10 0 (column_of i) (λ x. has_bit (row g y) x && covers x y i j) (λ x. color_at g x y)
      p (λ x h t. covers_column x y i j (and_second _ _ t))
    ∙ ground arith

covers_board :
    (i j : ℕ)
    → (ltb (row_of j) 18 && (ltb (column_of i) 10 && covers (column_of i) (row_of j) i j))
      ≡ on_board i j
covers_board i j = ground (
  arith,
  +ℤ_parts (pos (2 + column_of i * 3)) (pos 3),
  +ℤ_parts (pos (5 + (17 - row_of j) * 3)) (pos 3),
)

-- And of the rows only that of the pixel.
all_rows_show :
    (g : Grid) (i j p : ℕ)
    → for_range 18 0
        (λ y p.
          if ltb (column_of i) 10 && (has_bit (row g y) (column_of i) && covers (column_of i) y i j)
          then color_at g (column_of i) y
          else p)
        p
      ≡ shown g i j p
all_rows_show g i j p =
    one_round 18 0 (row_of j)
      (λ y. ltb (column_of i) 10 && (has_bit (row g y) (column_of i) && covers (column_of i) y i j))
      (λ y. color_at g (column_of i) y) p
      (λ y h t. covers_row (column_of i) y i j (omega arith) (and_second _ _ (and_second _ _ t)))
    ∙ ground (arith, covers_board i j)

-- After `draw_grid` each pixel of the picture of the grid, which takes 30 by 54 pixels from (2, 5) on
-- with row 0 at the bottom, has the color of its cell if the cell is taken; every other pixel is as
-- it was.
pub draw_grid-Paints : (g : Grid) → Paints (draw_grid g) (shown g)
unfolding draw_grid
draw_grid-Paints g =
    Paints-same _ _ _
      (Paints-for_range 18 0 (λ y. for_range 10 0 (λ x. draw_cell g y x)) _
        (λ y. Paints-for_range 10 0 (λ x. draw_cell g y x) _ (draw_cell-Paints g y)))
      (λ i j p. same_rounds 18 0 _ _ p (λ y q. row_shows g y i j q) ∙ all_rows_show g i j p)
