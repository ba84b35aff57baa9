-- ===== src/Tetris/Draw/Rects.antt =====
-- What the rectangles of the frame buffer cover.
use mycpu_4soc_game_port.Common.{ℕ, zero, suc, ◌+◌, ◌≡◌, ◌∙◌, arith, Bool, ◌&&◌, for_range}
use mycpu_4soc_game_port.Common.Int.{ℤ, pos, ◌+ℤ◌, leb_ℤ, ltb_ℤ, +ℤ_parts}
use mycpu_4soc_game_port.Tetris.Draw.{fb_pixel, fb_rect}
use mycpu_4soc_game_port.Tetris.Draw.Paint.{
  Paints-same, Paints, Paints-for_range, over, is_pixel, fb_pixel-Paints,
}

-- `(i, j)` is one of the `w` by `h` pixels from (x, y) on.
abbrev pub is_inside : ℤ → ℤ → ℕ → ℕ → ℕ → ℕ → Bool
is_inside x y w h i j =
    leb_ℤ x (pos i) && ltb_ℤ (pos i) (x +ℤ pos w) && leb_ℤ y (pos j) && ltb_ℤ (pos j) (y +ℤ pos h)

-- `a ≤ i < b` and a test, over a range of numbers.
abbrev in_row : ℤ → ℤ → ℕ → ℕ → ℕ → ℕ → Bool
in_row x y n k i j =
    leb_ℤ (x +ℤ pos k) (pos i)
    && ltb_ℤ (pos i) (x +ℤ pos (k + n))
    && leb_ℤ y (pos j)
    && leb_ℤ (pos j) y

row_lem :
    (n k : ℕ) (x y : ℤ) (color i j p : ℕ)
    → for_range n k (λ dx. over (is_pixel (x +ℤ pos dx) y) color i j) p
      ≡ over (in_row x y n k) color i j p
unfolding for_range
row_lem zero k x y color i j p = ground (arith, +ℤ_parts x (pos k), +ℤ_parts x (pos (k + 0)))
row_lem (suc n) k x y color i j p = ground (
  arith,
  +ℤ_parts x (pos k),
  +ℤ_parts x (pos (k + 1)),
  +ℤ_parts x (pos (k + suc n)),
  +ℤ_parts x (pos (k + 1 + n)),
  row_lem n (k + 1) x y color i j (over (is_pixel (x +ℤ pos k) y) color i j p),
)

-- The pixels of one row of a rectangle.
abbrev in_line : ℤ → ℤ → ℕ → ℕ → ℕ → Bool
in_line x y w i j =
    leb_ℤ x (pos i) && ltb_ℤ (pos i) (x +ℤ pos w) && leb_ℤ y (pos j) && leb_ℤ (pos j) y

line-Paints :
    (x y : ℤ) (w color : ℕ)
    → Paints (for_range w 0 (λ dx. fb_pixel (x +ℤ pos dx) y color)) (over (in_line x y w) color)
line-Paints x y w color =
    Paints-same _ _ _
      (Paints-for_range w 0 (λ dx. fb_pixel (x +ℤ pos dx) y color) _
        (λ dx. fb_pixel-Paints (x +ℤ pos dx) y color))
      (λ i j p. row_lem w 0 x y color i j p ∙ from_start i j p)
  where
    from_start : (i j p : ℕ) → over (in_row x y w 0) color i j p ≡ over (in_line x y w) color i j p
    from_start i j p =
        ground (arith, +ℤ_parts x (pos 0), +ℤ_parts x (pos w), +ℤ_parts x (pos (0 + w)))

abbrev in_lines : ℤ → ℤ → ℕ → ℕ → ℕ → ℕ → ℕ → Bool
in_lines x y w n k i j =
    leb_ℤ x (pos i)
    && ltb_ℤ (pos i) (x +ℤ pos w)
    && leb_ℤ (y +ℤ pos k) (pos j)
    && ltb_ℤ (pos j) (y +ℤ pos (k + n))

lines_lem :
    (n k : ℕ) (x y : ℤ) (w color i j p : ℕ)
    → for_range n k (λ dy. over (in_line x (y +ℤ pos dy) w) color i j) p
      ≡ over (in_lines x y w n k) color i j p
unfolding for_range
lines_lem zero k x y w color i j p = ground (arith, +ℤ_parts y (pos k), +ℤ_parts y (pos (k + 0)))
lines_lem (suc n) k x y w color i j p = ground (
  arith,
  +ℤ_parts y (pos k),
  +ℤ_parts y (pos (k + 1)),
  +ℤ_parts y (pos (k + suc n)),
  +ℤ_parts y (pos (k + 1 + n)),
  lines_lem n (k + 1) x y w color i j (over (in_line x (y +ℤ pos k) w) color i j p),
)

-- For any place and size, on the screen or not, `fb_rect` gives the color to exactly the pixels of
-- the screen inside the rectangle, and leaves every other pixel as it was.
pub fb_rect-Paints :
    (x y : ℤ) (w h color : ℕ) → Paints (fb_rect x y w h color) (over (is_inside x y w h) color)
unfolding fb_rect
fb_rect-Paints x y w h color =
    Paints-same _ _ _
      (Paints-for_range h 0 (λ dy. for_range w 0 (λ dx. fb_pixel (x +ℤ pos dx) (y +ℤ pos dy) color))
        _ (λ dy. line-Paints x (y +ℤ pos dy) w color))
      (λ i j p. lines_lem h 0 x y w color i j p ∙ from_start i j p)
  where
    from_start :
        (i j p : ℕ) → over (in_lines x y w h 0) color i j p ≡ over (is_inside x y w h) color i j p
    from_start i j p =
        ground (arith, +ℤ_parts y (pos 0), +ℤ_parts y (pos h), +ℤ_parts y (pos (0 + h)))
