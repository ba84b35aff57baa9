-- ===== src/Tetris/Block/Fits.antt =====
-- `grid_block_collides`, in 4-soc/csrc/tetris/tetris_grid.c, and where a block fits.
use mycpu_4soc_game_port.Common.{ℕ, zero, suc, ◌<◌, ◌≡◌, ◌↔◌, arith, Bool, false, ◌||◌}
use mycpu_4soc_game_port.Common.Int.{ℤ, pos, ◌≤ℤ◌, ◌<ℤ◌, int_laws}
use mycpu_4soc_game_port.Tetris.Types.{Grid, Block}
use mycpu_4soc_game_port.Tetris.Shape.{shape_get_cells, shape_get_width, shape_get_height}
use mycpu_4soc_game_port.Tetris.Shape.Tables.{IsBoxed, lowest_met, shape_get_cells-IsBoxed}
use mycpu_4soc_game_port.Tetris.Grid.{grid_cell_occupied}
use mycpu_4soc_game_port.Tetris.Block.{check_cell_collision, block_cell, grid_block_collides}

-- A cell between the side walls, not below the floor, and free if it is on the grid.
pub record IsFree (g : Grid) (c : ℤ × ℤ) : Type 0 where
  pub left : pos 0 ≤ℤ c.0
  pub right : c.0 <ℤ pos 10
  pub floor : pos 0 ≤ℤ c.1
  pub open_cell : c.1 <ℤ pos 18 → grid_cell_occupied g c.0 c.1 ≡ false

-- Each of the four cells of the block is free.
pub record Fits (g : Grid) (b : Block) : Type 0 where
  pub cells : (i : ℕ) → i < 4 → IsFree g (block_cell b i)

check_cell_iff :
    (g : Grid) (x y : ℤ)
    → (check_cell_collision g (x, y) ≡ false → IsFree g (x, y))
      × (IsFree g (x, y) → check_cell_collision g (x, y) ≡ false)
unfolding check_cell_collision grid_cell_occupied
check_cell_iff g x y = (
  λ e. record {
    left = ground arith;
    right = ground arith;
    floor = ground arith;
    open_cell = λ h. ground arith;
  },
  λ f. ground (arith, f.left, f.right, f.floor, f.open_cell),
)

no_test :
    (a b c d : Bool)
    → (a || b || c || d) ≡ false
    → (a ≡ false) × (b ≡ false) × (c ≡ false) × (d ≡ false)
no_test a b c d e = ground arith

one_of_four {ℓ} : (P : ℕ → Type ℓ) → P 0 → P 1 → P 2 → P 3 → (i : ℕ) → i < 4 → P i
one_of_four P a b c d zero h = a
one_of_four P a b c d (suc zero) h = b
one_of_four P a b c d (suc (suc zero)) h = c
one_of_four P a b c d (suc (suc (suc zero))) h = d
one_of_four P a b c d (suc (suc (suc (suc i)))) h = absurd (omega arith)

-- `grid_block_collides` is false exactly for a block each of whose four cells lies between the walls
-- and above the floor and is not taken on the grid; cells above the grid are free.
pub grid_block_collides_iff : (g : Grid) (b : Block) → (grid_block_collides g b ≡ false) ↔ Fits g b
unfolding grid_block_collides
grid_block_collides_iff g b = (
  λ e.
      let (e₀, e₁, e₂, e₃) = no_test _ _ _ _ e in
      record {
        cells =
            one_of_four (λ i. IsFree g (block_cell b i)) (free 0 e₀) (free 1 e₁) (free 2 e₂)
              (free 3 e₃);
      },
  λ f. rw (
    taken f 0 (omega arith),
    taken f 1 (omega arith),
    taken f 2 (omega arith),
    taken f 3 (omega arith),
  ),
)
  where
    free : (i : ℕ) → check_cell_collision g (block_cell b i) ≡ false → IsFree g (block_cell b i)
    free i = (check_cell_iff g (block_cell b i).0 (block_cell b i).1).0

    taken : Fits g b → (i : ℕ) → i < 4 → check_cell_collision g (block_cell b i) ≡ false
    taken f i h = (check_cell_iff g (block_cell b i).0 (block_cell b i).1).1 (f.cells i h)

-- Where the corner of a block that fits can be.
pub record IsInside (b : Block) : Type 0 where
  pub left : pos 0 ≤ℤ b.x
  pub right : b.x <ℤ pos 10
  pub floor : pos 0 ≤ℤ b.y

pub Fits-IsInside : (g : Grid) (b : Block) → Fits g b → IsInside b
unfolding block_cell
Fits-IsInside g b f = record { left = left; right = right; floor = floor }
  where
    boxed :
        IsBoxed
          (shape_get_cells b.shape b.rot)
          (shape_get_width b.shape b.rot)
          (shape_get_height b.shape b.rot)
    boxed = shape_get_cells-IsBoxed b.shape b.rot

    left : pos 0 ≤ℤ b.x
    left =
        let (i, hi, z) =
          lowest_met 4 (λ c. c.0) (shape_get_cells b.shape b.rot) (omega arith) boxed.left in
        omega (int_laws, (f.cells i (omega (arith, boxed.four))).left)

    right : b.x <ℤ pos 10
    right = omega (int_laws, (f.cells 0 (omega arith)).right)

    floor : pos 0 ≤ℤ b.y
    floor =
        let (i, hi, z) =
          lowest_met 4 (λ c. c.1) (shape_get_cells b.shape b.rot) (omega arith) boxed.bottom in
        omega (int_laws, (f.cells i (omega (arith, boxed.four))).floor)
