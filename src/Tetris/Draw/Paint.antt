-- ===== src/Tetris/Draw/Paint.antt =====
-- Drawing pixel by pixel: an operation on the frame that is a function of each old pixel.
use mycpu_4soc_game_port.Common.{
  ℕ, zero, suc, ◌+◌, ◌*◌, ◌<◌, ◌≡◌, refl, ap, ◌∙◌, arith, Bool, ◌&&◌, if◌then◌else◌, get_or, length,
  get_or-set, length-set, for_range,
}
use mycpu_4soc_game_port.Common.Int.{ℤ, pos, pos_part, leb_ℤ}
use mycpu_4soc_game_port.Tetris.Draw.{Frame, fb_pixel}

abbrev pub pixel_at : Frame → ℕ → ℕ → ℕ
pixel_at fb i j = get_or fb (j * 64 + i) 0

-- On a frame of the full size, each pixel (i, j) becomes `f i j` of what it was.
pub record Paints (op : Frame → Frame) (f : ℕ → ℕ → ℕ → ℕ) : Type 0 where
  pub size : (fb : Frame) → length fb ≡ 4096 → length (op fb) ≡ 4096
  pub pixel :
      (fb : Frame) (i j : ℕ)
      → length fb ≡ 4096
      → i < 64
      → j < 64
      → pixel_at (op fb) i j ≡ f i j (pixel_at fb i j)

pub Paints-then :
    (op op' : Frame → Frame) (f f' : ℕ → ℕ → ℕ → ℕ)
    → Paints op f
    → Paints op' f'
    → Paints (λ fb. op' (op fb)) (λ i j p. f' i j (f i j p))
Paints-then op op' f f' h h' = record {
  size = λ fb e. h'.size (op fb) (h.size fb e);
  pixel = λ fb i j e hi hj.
      h'.pixel (op fb) i j (h.size fb e) hi hj ∙ ap (f' i j) (h.pixel fb i j e hi hj);
}

pub Paints-same :
    (op : Frame → Frame) (f f' : ℕ → ℕ → ℕ → ℕ)
    → Paints op f
    → ((i j p : ℕ) → f i j p ≡ f' i j p)
    → Paints op f'
Paints-same op f f' h e = record {
  size = h.size;
  pixel = λ fb i j n hi hj. h.pixel fb i j n hi hj ∙ e i j (pixel_at fb i j);
}

-- A loop of such operations works on each pixel alone.
pub Paints-for_range :
    (n k : ℕ) (op : ℕ → Frame → Frame) (f : ℕ → ℕ → ℕ → ℕ → ℕ)
    → ((k : ℕ) → Paints (op k) (f k))
    → Paints (for_range n k op) (λ i j. for_range n k (λ k. f k i j))
unfolding for_range
Paints-for_range zero k op f h = record { size = λ fb e. e; pixel = λ fb i j e hi hj. refl }
Paints-for_range (suc n) k op f h =
    Paints-then (op k) (for_range n (k + 1) op) (f k) (λ i j. for_range n (k + 1) (λ k. f k i j))
      (h k) (Paints-for_range n (k + 1) op f h)

-- The color where a test holds, the old pixel elsewhere.
abbrev pub over : (ℕ → ℕ → Bool) → ℕ → ℕ → ℕ → ℕ → ℕ
over test color i j p = if test i j then color else p

-- `(i, j)` is the pixel (x, y).
abbrev pub is_pixel : ℤ → ℤ → ℕ → ℕ → Bool
is_pixel x y i j = leb_ℤ x (pos i) && leb_ℤ (pos i) x && leb_ℤ y (pos j) && leb_ℤ (pos j) y

same_index : (i j x y : ℕ) → i < 64 → x < 64 → j * 64 + i ≡ y * 64 + x → (i ≡ x) × (j ≡ y)
same_index i j x y hi hx e = omega arith

pub fb_pixel-Paints :
    (x y : ℤ) (color : ℕ) → Paints (fb_pixel x y color) (over (is_pixel x y) color)
unfolding fb_pixel
fb_pixel-Paints x y color = record {
  size = λ fb e. ground (arith, length-set fb (pos_part y * 64 + pos_part x) color);
  pixel = λ fb i j e hi hj. ground (
    arith,
    get_or-set fb (pos_part y * 64 + pos_part x) (j * 64 + i) color 0,
    same_index i j (pos_part x) (pos_part y) hi,
  );
}
