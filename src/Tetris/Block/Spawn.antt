-- ===== src/Tetris/Block/Spawn.antt =====
-- `grid_block_spawn`, in 4-soc/csrc/tetris/tetris_grid.c.
use mycpu_4soc_game_port.Common.{
  ℕ, zero, suc, ◌+◌, ◌-◌, ◌/◌, ◌≤◌, ◌<◌, ◌≡◌, ◌⊎◌, ◌↔◌, refl, arith, false, inl, inr, get_or, List,
  [], ◌∷◌, length,
}
use mycpu_4soc_game_port.Common.Int.{ℤ, pos, negsuc, ◌+ℤ◌, ◌≤ℤ◌, ◌<ℤ◌, wrap8, wrap8_fits, int_laws}
use mycpu_4soc_game_port.Tetris.Types.{Grid, Block}
use mycpu_4soc_game_port.Tetris.Shape.{shape_get_cells, shape_get_width, shape_get_height}
use mycpu_4soc_game_port.Tetris.Shape.Tables.{Cell, extent, IsBoxed, shape_get_cells-IsBoxed}
use mycpu_4soc_game_port.Tetris.Grid.{grid_cell_occupied}
use mycpu_4soc_game_port.Tetris.Block.{block_cell, grid_block_spawn}
use mycpu_4soc_game_port.Tetris.Block.Fits.{Fits}

-- Where a new block stands: on the grid, in its top rows, and in the middle of it up to one
-- column.
pub record IsSpawned (b : Block) : Type 0 where
  pub left : pos 0 ≤ℤ b.x
  pub bottom : pos 0 ≤ℤ b.y
  pub top : b.y +ℤ pos (shape_get_height b.shape b.rot) ≡ pos 18
  pub middle :
      let w = shape_get_width b.shape b.rot in
      (b.x +ℤ b.x +ℤ pos w ≡ pos 10) ⊎ (b.x +ℤ b.x +ℤ pos w ≡ pos 9)

small_box :
    (s : ℕ)
    → (0 < shape_get_width s 0)
      × (shape_get_width s 0 ≤ 4)
      × (0 < shape_get_height s 0)
      × (shape_get_height s 0 ≤ 2)
unfolding shape_get_width shape_get_height
small_box s = ground arith

-- For any shape number, `grid_block_spawn` gives a block with that shape, not turned, whose box is
-- at the top of the grid and in the middle of it (half a column to the left if its width is odd).
pub grid_block_spawn-IsSpawned :
    (g : Grid) (b : Block) (shape : ℕ)
    → IsSpawned (grid_block_spawn g b shape)
      × ((grid_block_spawn g b shape).shape ≡ shape)
      × ((grid_block_spawn g b shape).rot ≡ 0)
unfolding grid_block_spawn
grid_block_spawn-IsSpawned g b s = (
  record {
    left = rw column (omega (int_laws));
    bottom = rw height (omega (int_laws));
    top = rw height (omega (int_laws, small_box s));
    middle = rw column (middle);
  },
  refl,
  refl,
)
  where
    column : wrap8 (pos ((10 - shape_get_width s 0) / 2)) ≡ pos ((10 - shape_get_width s 0) / 2)
    column = wrap8_fits _ (omega (int_laws, small_box s))

    height : wrap8 (pos (18 - shape_get_height s 0)) ≡ pos (18 - shape_get_height s 0)
    height = wrap8_fits _ (omega (int_laws, small_box s))

    halves : (w : ℕ) → w ≤ 4 → let k = (10 - w) / 2 in (k + k + w ≡ 10) ⊎ (k + k + w ≡ 9)
    halves w h = omega arith

    middle :
        let k = pos ((10 - shape_get_width s 0) / 2) in
        let w = pos (shape_get_width s 0) in (k +ℤ k +ℤ w ≡ pos 10) ⊎ (k +ℤ k +ℤ w ≡ pos 9)
    middle = elim (halves (shape_get_width s 0) (omega (arith, small_box s))) [
      | inl e ↦ inl (omega (int_laws))
      | inr e ↦ inr (omega (int_laws))
    ]

extent-bound :
    (f : Cell → ℕ) (cs : List Cell) (i : ℕ) → i < length cs → f (get_or cs i (0, 0)) < extent f cs
extent-bound f [] i h = absurd (omega arith)
extent-bound f (c ∷ cs) zero h = omega arith
extent-bound f (c ∷ cs) (suc i) h = omega (arith, extent-bound f cs i (omega arith))

-- All four cells of a block that has just been spawned are on the grid.
pub IsSpawned-on_grid :
    (b : Block) (i : ℕ)
    → IsSpawned b
    → i < 4
    → let c = block_cell b i in (pos 0 ≤ℤ c.0) × (c.0 <ℤ pos 10) × (pos 0 ≤ℤ c.1) × (c.1 <ℤ pos 18)
unfolding block_cell
IsSpawned-on_grid b i at h = (
  omega (int_laws),
  omega (int_laws, wide, width),
  omega (int_laws),
  omega (int_laws, tall, height),
)
  where
    boxed :
        IsBoxed
          (shape_get_cells b.shape b.rot)
          (shape_get_width b.shape b.rot)
          (shape_get_height b.shape b.rot)
    boxed = shape_get_cells-IsBoxed b.shape b.rot

    wide : (get_or (shape_get_cells b.shape b.rot) i (0, 0)).0 < shape_get_width b.shape b.rot
    wide =
        omega
          (arith, boxed.wide, boxed.four, extent-bound (λ c. c.0) (shape_get_cells b.shape b.rot) i)

    tall : (get_or (shape_get_cells b.shape b.rot) i (0, 0)).1 < shape_get_height b.shape b.rot
    tall =
        omega
          (arith, boxed.tall, boxed.four, extent-bound (λ c. c.1) (shape_get_cells b.shape b.rot) i)

    height : b.y +ℤ pos (shape_get_height b.shape b.rot) ≤ℤ pos 18
    height = rw at.top (omega arith)

    width : b.x +ℤ b.x +ℤ pos (shape_get_width b.shape b.rot) ≤ℤ pos 10
    width = elim at.middle [ inl e ↦ rw e (omega arith) | inr e ↦ rw e (omega arith) ]

-- A block that has just been spawned fits exactly if none of its four cells is taken on the grid.
pub IsSpawned-Fits :
    (g : Grid) (b : Block)
    → IsSpawned b
    → Fits g b
      ↔ ((i : ℕ) → i < 4 → grid_cell_occupied g (block_cell b i).0 (block_cell b i).1 ≡ false)
IsSpawned-Fits g b at = (
  λ f i h. (f.cells i h).open_cell (IsSpawned-on_grid b i at h).3,
  λ free. record {
    cells = λ i h.
        let (left, right, floor, top) = IsSpawned-on_grid b i at h in
        record { left = left; right = right; floor = floor; open_cell = λ _. free i h };
  },
)

on_grid : (x : ℤ) (n : ℕ) → pos 0 ≤ℤ x → x <ℤ pos n → (i : ℕ) × (x ≡ pos i) × (i < n)
on_grid (pos i) n h h' = (i, refl, omega arith)
on_grid (negsuc i) n h h' = absurd (omega arith)

-- In particular it fits a grid with no taken cell.
pub IsSpawned-empty :
    (g : Grid) (b : Block)
    → IsSpawned b
    → ((x y : ℕ) → x < 10 → y < 18 → grid_cell_occupied g (pos x) (pos y) ≡ false)
    → Fits g b
IsSpawned-empty g b at none = (IsSpawned-Fits g b at).1 (λ i h.
    let (left, right, floor, top) = IsSpawned-on_grid b i at h in
    let (x, ex, hx) = on_grid (block_cell b i).0 10 left right in
    let (y, ey, hy) = on_grid (block_cell b i).1 18 floor top in rw (ex, ey) (none x y hx hy))
