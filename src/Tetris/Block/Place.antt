-- ===== src/Tetris/Block/Place.antt =====
-- The cells of a block, and `grid_block_add` in 4-soc/csrc/tetris/tetris_grid.c.
use mycpu_4soc_game_port.Common.{ℕ, ◌≡◌, arith, Bool, ◌||◌}
use mycpu_4soc_game_port.Common.Int.{ℤ}
use mycpu_4soc_game_port.Tetris.Types.{Grid, Block}
use mycpu_4soc_game_port.Tetris.Grid.{grid_cell_occupied, grid_set_cell}
use mycpu_4soc_game_port.Tetris.Grid.Inv.{IsGrid, IsTopped}
use mycpu_4soc_game_port.Tetris.Grid.Cells.{
  same_cell, grid_cell_occupied-grid_set_cell, grid_set_cell-IsGrid,
}
use mycpu_4soc_game_port.Tetris.Block.{block_cell, add_cell, grid_block_add}

-- The guard is the one that `grid_set_cell` has itself.
add_cell_lem :
    (color : ℕ) (x y : ℤ) (g : Grid) → add_cell color (x, y) g ≡ grid_set_cell g x y color
unfolding add_cell grid_set_cell
add_cell_lem color x y g = ground arith

-- One of the four cells of the block.
abbrev pub is_cell : Block → ℤ → ℤ → Bool
is_cell b x y =
    same_cell (block_cell b 0).0 (block_cell b 0).1 x y
    || same_cell (block_cell b 1).0 (block_cell b 1).1 x y
    || same_cell (block_cell b 2).0 (block_cell b 2).1 x y
    || same_cell (block_cell b 3).0 (block_cell b 3).1 x y

module _ (color : ℕ) (g : Grid) (ok : IsGrid g) (tops : IsTopped g) (c : ℤ × ℤ) where
  add_cell-IsGrid : IsGrid (add_cell color c g) × IsTopped (add_cell color c g)
  add_cell-IsGrid = rw (add_cell_lem color c.0 c.1 g) (grid_set_cell-IsGrid g c.0 c.1 color ok tops)

  occupied-add_cell :
      (x y : ℤ)
      → grid_cell_occupied (add_cell color c g) x y
        ≡ (same_cell c.0 c.1 x y || grid_cell_occupied g x y)
  occupied-add_cell x y =
      rw (add_cell_lem color c.0 c.1 g) (grid_cell_occupied-grid_set_cell g c.0 c.1 color x y ok)

-- On a well-formed grid with exact heights, after `grid_block_add` a place is taken exactly if it
-- was taken before or is one of the four cells of the block (whether or not these are on the
-- grid), and the grid is again well formed with exact heights.
pub grid_cell_occupied-grid_block_add :
    (g : Grid) (b : Block)
    → IsGrid g
    → IsTopped g
    → ((x y : ℤ)
        → grid_cell_occupied (grid_block_add g b) x y ≡ (is_cell b x y || grid_cell_occupied g x y))
      × IsGrid (grid_block_add g b)
      × IsTopped (grid_block_add g b)
unfolding grid_block_add
grid_cell_occupied-grid_block_add g b ok tops =
    let c = block_cell b in
    let k = b.color in
    let (ok₀, tops₀) = add_cell-IsGrid k g ok tops (c 0) in
    let (ok₁, tops₁) = add_cell-IsGrid k _ ok₀ tops₀ (c 1) in
    let (ok₂, tops₂) = add_cell-IsGrid k _ ok₁ tops₁ (c 2) in
    let (ok₃, tops₃) = add_cell-IsGrid k _ ok₂ tops₂ (c 3) in
    (
      λ x y.
          reorder _ _ _ _ _ _ _ _ _ (occupied-add_cell k g ok tops (c 0) x y)
            (occupied-add_cell k _ ok₀ tops₀ (c 1) x y) (occupied-add_cell k _ ok₁ tops₁ (c 2) x y)
            (occupied-add_cell k _ ok₂ tops₂ (c 3) x y),
      ok₃,
      tops₃,
    )
  where
    reorder :
        (s₀ s₁ s₂ s₃ o o₀ o₁ o₂ o₃ : Bool)
        → o₀ ≡ (s₀ || o)
        → o₁ ≡ (s₁ || o₀)
        → o₂ ≡ (s₂ || o₁)
        → o₃ ≡ (s₃ || o₂)
        → o₃ ≡ (s₀ || s₁ || s₂ || s₃ || o)
    reorder s₀ s₁ s₂ s₃ o o₀ o₁ o₂ o₃ e₀ e₁ e₂ e₃ = ground arith
