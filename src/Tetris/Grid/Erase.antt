-- ===== src/Tetris/Grid/Erase.antt =====
-- `grid_clear_cell` and `grid_row_full`, cell by cell.
use mycpu_4soc_game_port.Common.{
  ℕ, ◌-◌, ◌^◌, ◌<◌, bit_and, true, not, ◌==◌, ==_iff, ◌&&◌, ◌||◌, if◌then◌else◌, all_below,
  all_below_sound, [], get_or, set, length, get_or-set, length-set, ◌≡◌, ◌↔◌, inl, inr, refl, arith,
  u16,
}
use mycpu_4soc_game_port.Common.Int.{ℤ, pos}
use mycpu_4soc_game_port.Common.Bits.{bit, bit-lt, bit-bit_and, bit_and-lt, bit_ext}
use mycpu_4soc_game_port.Tetris.Types.{Grid}
use mycpu_4soc_game_port.Tetris.Grid.{
  row, color_at, off_grid, grid_cell_occupied, grid_clear_cell, grid_row_full,
}
use mycpu_4soc_game_port.Tetris.Grid.Inv.{cell, IsGrid, row-set_row, color_at-set_color}
use mycpu_4soc_game_port.Tetris.Grid.Cells.{same_cell, off_grid-cases, occupied_off, occupied_on}

-- The digits of `~(1u << i)`.
mask_table :
    all_below 10 (λ i. all_below 10 (λ k. bit (2 ^ 32 - 1 - 2 ^ i) k == (if k == i then 0 else 1)))
    ≡ true
unfolding all_below
mask_table = refl

bit-mask : (i k : ℕ) → i < 10 → k < 10 → bit (2 ^ 32 - 1 - 2 ^ i) k ≡ (if k == i then 0 else 1)
bit-mask i k hi hk = (==_iff _ _).0 (
    all_below_sound 10 (λ k. bit (2 ^ 32 - 1 - 2 ^ i) k == (if k == i then 0 else 1)) k
      (all_below_sound 10
        (λ i. all_below 10 (λ k. bit (2 ^ 32 - 1 - 2 ^ i) k == (if k == i then 0 else 1))) i
        mask_table hi)
      hk)

erased_bit :
    (r i k : ℕ)
    → i < 10
    → k < 10
    → bit (bit_and r (2 ^ 32 - 1 - 2 ^ i)) k ≡ (if k == i then 0 else bit r k)
erased_bit r i k hi hk =
    ground (arith, bit-bit_and r (2 ^ 32 - 1 - 2 ^ i) k, bit-mask i k hi hk, bit-lt r k)

module _ (g : Grid) (ok : IsGrid g) (i j : ℕ) (hi : i < 10) (hj : j < 18) where
  abbrev erased : Grid
  erased = grid_clear_cell g (pos i) (pos j)

  abbrev erased_word : ℕ
  erased_word = bit_and (row g j) (2 ^ 32 - 1 - 2 ^ i)

  erased_word-lt : erased_word < 2 ^ 10
  erased_word-lt = bit_and-lt 10 (row g j) (2 ^ 32 - 1 - 2 ^ i) (ok.narrow j)

  erased-row : (y : ℕ) → row erased y ≡ (if y == j then erased_word else row g y)
  unfolding grid_clear_cell
  erased-row y =
      ground
        (arith, row-set_row g j y (u16 erased_word) (omega (arith, ok.rows_length)), erased_word-lt)

  erased-cell : (x y : ℕ) → x < 10 → cell erased x y ≡ (if x == i && y == j then 0 else cell g x y)
  erased-cell x y hx = rw (erased-row y) (ground (arith, erased_bit (row g j) i x hi hx))

  erased-color : (x y : ℕ) → color_at erased x y ≡ (if y == j && x == i then 0 else color_at g x y)
  unfolding grid_clear_cell
  erased-color x y = ground (
    arith,
    color_at-set_color g j i 0 x y (omega (arith, ok.colors_length))
        (omega (arith, ok.color_row_length j hj)),
  )

  erased_lengths :
      (length erased.rows ≡ 18) × (length erased.colors ≡ 18) × (length erased.relief ≡ 10)
  unfolding grid_clear_cell
  erased_lengths = ground (
    arith,
    ok.rows_length,
    ok.colors_length,
    ok.relief_length,
    length-set g.rows j (u16 erased_word),
    length-set g.colors j (set (get_or g.colors j []) i 0),
  )

  erased-color_row : (y : ℕ) → y < 18 → length (get_or erased.colors y []) ≡ 10
  unfolding grid_clear_cell
  erased-color_row y hy = ground (
    arith,
    ok.colors_length,
    ok.color_row_length y hy,
    get_or-set g.colors j y (set (get_or g.colors j []) i 0) [],
    length-set (get_or g.colors j []) i 0,
  )

  erased-IsGrid : IsGrid erased
  erased-IsGrid = record {
    rows_length = erased_lengths.0;
    colors_length = erased_lengths.1;
    color_row_length = erased-color_row;
    relief_length = erased_lengths.2;
    narrow = λ y. rw (erased-row y) (ground (arith, erased_word-lt, ok.narrow y));
    black = λ x y hx hy. ground (arith, erased-cell x y hx, erased-color x y, ok.black x y hx hy);
  }

grid_clear_cell_off : (g : Grid) (x y : ℤ) → off_grid x y ≡ true → grid_clear_cell g x y ≡ g
unfolding grid_clear_cell
grid_clear_cell_off g x y e = rw e

erased_occupied :
    (g : Grid) (i j : ℕ) (x' y' : ℤ)
    → IsGrid g
    → i < 10
    → j < 18
    → grid_cell_occupied (grid_clear_cell g (pos i) (pos j)) x' y'
      ≡ (grid_cell_occupied g x' y' && not (same_cell (pos i) (pos j) x' y'))
erased_occupied g i j x' y' ok hi hj = elim (off_grid-cases x' y') [
  | inl e ↦
      ground
        (arith, occupied_off g x' y' e, occupied_off (grid_clear_cell g (pos i) (pos j)) x' y' e)
  | inr (i', j', ex, ey, hi', hj') ↦
      rw (ex, ey)
        (ground (
          arith,
          occupied_on g i' j' hi' hj',
          occupied_on (grid_clear_cell g (pos i) (pos j)) i' j' hi' hj',
          erased-cell g ok i j hi hj i' j' hi',
          bit-lt (row g j') i',
        ))
]

-- On a well-formed grid, whatever the two pairs of integers, `grid_clear_cell` keeps the grid well
-- formed, and a cell is taken after it exactly if it was taken before and is not the cell that
-- was cleared (off the grid, where every cell counts as taken, nothing is cleared).
pub grid_cell_occupied-grid_clear_cell :
    (g : Grid) (x y x' y' : ℤ)
    → IsGrid g
    → IsGrid (grid_clear_cell g x y)
      × (grid_cell_occupied (grid_clear_cell g x y) x' y'
          ≡ (grid_cell_occupied g x' y' && (off_grid x y || not (same_cell x y x' y'))))
grid_cell_occupied-grid_clear_cell g x y x' y' ok = elim (off_grid-cases x y) [
  | inl e ↦ rw (grid_clear_cell_off g x y e) (ok, ground arith)
  | inr (i, j, ex, ey, hi, hj) ↦
      rw (ex, ey)
        (erased-IsGrid g ok i j hi hj, ground (arith, erased_occupied g i j x' y' ok hi hj))
]

masked_table : all_below 1024 (λ r. bit_and r 1023 == r) ≡ true
unfolding all_below
masked_table = refl

ones_table : all_below 10 (λ x. bit 1023 x == 1) ≡ true
unfolding all_below
ones_table = refl

bit-ones : (x : ℕ) → x < 10 → bit 1023 x ≡ 1
bit-ones x h = (==_iff _ _).0 (all_below_sound 10 (λ x. bit 1023 x == 1) x ones_table h)

-- On a grid row the mask of the test changes nothing.
pub grid_row_full_lem :
    (g : Grid) (y : ℕ) → row g y < 1024 → y < 18 → grid_row_full g (pos y) ≡ (row g y == 1023)
unfolding grid_row_full
grid_row_full_lem g y narrow hy =
    let same : bit_and (row g y) 1023 ≡ row g y =
      (==_iff _ _).0
        (all_below_sound 1024 (λ r. bit_and r 1023 == r) (row g y) masked_table narrow) in
    ground arith

-- On a well-formed grid, for a row of the grid, `grid_row_full` holds exactly if each of the ten
-- cells of the row is taken.
pub grid_row_full_iff :
    (g : Grid) (y : ℕ)
    → IsGrid g
    → y < 18
    → (grid_row_full g (pos y) ≡ true)
      ↔ ((x : ℕ) → x < 10 → grid_cell_occupied g (pos x) (pos y) ≡ true)
grid_row_full_iff g y ok hy = (
  λ full x hx.
      let e : row g y ≡ 1023 = ground (arith, grid_row_full_lem g y (ok.narrow y) hy) in
      rw (occupied_on g x y hx hy, e, bit-ones x hx),
  λ taken.
      let ones : row g y ≡ 1023 =
        bit_ext 10 (row g y) 1023 (ok.narrow y) (omega arith)
          (λ x hx. ground (arith, taken x hx, occupied_on g x y hx hy, bit-ones x hx)) in
      rw (grid_row_full_lem g y (ok.narrow y) hy, ones),
)
