-- ===== src/Tetris/Grid/Inv.antt =====
-- What holds of every grid of the game, and how the single stores read back.
use mycpu_4soc_game_port.Common.{
  ℕ, ◌*◌, ◌^◌, ◌<◌, ◌==◌, ◌&&◌, if◌then◌else◌, [], get_or, set, length, get_or-set, ◌≡◌, ◌⊎◌, inl,
  inr, ap, arith,
}
use mycpu_4soc_game_port.Common.Int.{ℤ, pos, negsuc, ◌≤ℤ◌}
use mycpu_4soc_game_port.Common.Bits.{bit, bit-lt, bit_and-power}
use mycpu_4soc_game_port.Tetris.Types.{Grid}
use mycpu_4soc_game_port.Tetris.Grid.{row, color_at, relief_at, set_row, set_color, has_bit}
use native.Mathlib.Nat.{one-le-pow}

-- 1 for a taken cell and 0 for a free one.
abbrev pub cell : Grid → ℕ → ℕ → ℕ
cell g x y = bit (row g y) x

-- The arrays have their declared sizes.
pub record IsSized (g : Grid) : Type 0 where
  pub rows_length : length g.rows ≡ 18
  pub colors_length : length g.colors ≡ 18
  pub color_row_length : (y : ℕ) → y < 18 → length (get_or g.colors y []) ≡ 10
  pub relief_length : length g.relief ≡ 10

-- The arrays have their sizes, no row has a bit past its ten columns, and a free cell is black.
pub record IsGrid (g : Grid) : Type 0 where
  pub rows_length : length g.rows ≡ 18
  pub colors_length : length g.colors ≡ 18
  pub color_row_length : (y : ℕ) → y < 18 → length (get_or g.colors y []) ≡ 10
  pub relief_length : length g.relief ≡ 10
  pub narrow : (y : ℕ) → row g y < 2 ^ 10
  pub black : (x y : ℕ) → x < 10 → y < 18 → cell g x y ≡ 0 → color_at g x y ≡ 0

pub IsGrid-IsSized : {g : Grid} → IsGrid g → IsSized g
IsGrid-IsSized ok = record {
  rows_length = ok.rows_length;
  colors_length = ok.colors_length;
  color_row_length = ok.color_row_length;
  relief_length = ok.relief_length;
}

-- `z` is the highest taken row of column `x`, or -1.
pub record IsTop (g : Grid) (x : ℕ) (z : ℤ) : Type 0 where
  pub above : (y : ℕ) → cell g x y ≡ 1 → pos y ≤ℤ z
  pub attained : (z ≡ negsuc 0) ⊎ ((t : ℕ) × (z ≡ pos t) × (cell g x t ≡ 1))

-- The `relief` array holds the height of each column.
abbrev pub IsTopped : Grid → Type 0
IsTopped g = (x : ℕ) → x < 10 → IsTop g x (relief_at g x)

pub has_bit_lem : (r x : ℕ) → has_bit r x ≡ (bit r x == 1)
unfolding has_bit
has_bit_lem r x = elim (digit (bit r x) (bit-lt r x)) [
  | inl e ↦ ground (arith, bit_and-power r x, ap (λ (t : ℕ). t * 2 ^ x) e)
  | inr e ↦
      ground (arith, bit_and-power r x, ap (λ (t : ℕ). t * 2 ^ x) e, one-le-pow x 2 (omega arith))
]
  where
    digit : (d : ℕ) → d < 2 → (d ≡ 0) ⊎ (d ≡ 1)
    digit d h = omega arith

pub row-set_row :
    (g : Grid) (y j v : ℕ)
    → y < length g.rows
    → row (set_row y v g) j ≡ (if j == y then v else row g j)
row-set_row g y j v h = get_or-set g.rows y j v 0 h

pub color_at-set_color :
    (g : Grid) (y x v i j : ℕ)
    → y < length g.colors
    → x < length (get_or g.colors y [])
    → color_at (set_color y x v g) i j ≡ (if j == y && i == x then v else color_at g i j)
color_at-set_color g y x v i j hy hx = ground (
  arith,
  get_or-set g.colors y j (set (get_or g.colors y []) x v) [] hy,
  get_or-set (get_or g.colors y []) x i v 0 hx,
)
