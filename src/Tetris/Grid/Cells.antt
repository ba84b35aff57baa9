-- ===== src/Tetris/Grid/Cells.antt =====
-- `grid_set_cell` and `grid_clear_cell`, and the grid's invariant.
use mycpu_4soc_game_port.Common.{
  ℕ, ◌^◌, ◌<◌, bit_or, Bool, true, ◌==◌, ltb, ◌&&◌, ◌||◌, if◌then◌else◌, Bool-cases, all_below,
  all_below_sound, ltb→lt, [], get_or, set, length, get_or-set, length-set, ◌≡◌, ◌⊎◌, inl, inr,
  refl, arith, u16,
}
use mycpu_4soc_game_port.Common.Int.{ℤ, pos, negsuc, leb_ℤ, ltb_ℤ, wrap8, wrap8_fits}
use mycpu_4soc_game_port.Common.Bits.{bit, bit-lt, bit-bit_or, bit-power, bit_or-lt}
use mycpu_4soc_game_port.Tetris.Types.{Grid}
use mycpu_4soc_game_port.Tetris.Grid.{
  row, color_at, relief_at, off_grid, grid_cell_occupied, grid_set_cell,
}
use mycpu_4soc_game_port.Tetris.Grid.Inv.{
  cell, IsGrid, IsTopped, has_bit_lem, row-set_row, color_at-set_color,
}

powers_table : all_below 10 (λ x. ltb (2 ^ x) (2 ^ 10)) ≡ true
powers_table = unfold all_below in refl

power-lt : (x : ℕ) → x < 10 → 2 ^ x < 2 ^ 10
power-lt x h = ltb→lt _ _ (all_below_sound 10 (λ x. ltb (2 ^ x) (2 ^ 10)) x powers_table h)

bit-marked : (r i x : ℕ) → bit (bit_or r (2 ^ i)) x ≡ (if x == i then 1 else bit r x)
bit-marked r i x = ground (arith, bit-bit_or r (2 ^ i) x, bit-power i x, bit-lt r x)

-- The row that `|=` stores.
pub marked_row : (r x : ℕ) → r < 2 ^ 10 → x < 10 → u16 (bit_or r (2 ^ x)) ≡ bit_or r (2 ^ x)
marked_row r x hr hx = omega (arith, bit_or-lt 10 r (2 ^ x) hr (power-lt x hx))

module _ (g : Grid) (ok : IsGrid g) (i j : ℕ) (hi : i < 10) (hj : j < 18) (color : ℕ) where
  abbrev placed : Grid
  placed = grid_set_cell g (pos i) (pos j) color

  narrow_row : bit_or (row g j) (2 ^ i) < 2 ^ 10
  narrow_row = bit_or-lt 10 (row g j) (2 ^ i) (ok.narrow j) (power-lt i hi)

  placed-row : (y : ℕ) → row placed y ≡ (if y == j then bit_or (row g j) (2 ^ i) else row g y)
  unfolding grid_set_cell
  placed-row y = ground (
    arith,
    row-set_row g j y (u16 (bit_or (row g j) (2 ^ i))) (omega (arith, ok.rows_length)),
    marked_row (row g j) i (ok.narrow j) hi,
  )

  placed-cell : (x y : ℕ) → cell placed x y ≡ (if x == i && y == j then 1 else cell g x y)
  placed-cell x y = rw (placed-row y) (ground (arith, bit-marked (row g j) i x))

  placed-color :
      (x y : ℕ) → color_at placed x y ≡ (if y == j && x == i then color else color_at g x y)
  unfolding grid_set_cell
  placed-color x y = ground (
    arith,
    color_at-set_color g j i color x y (omega (arith, ok.colors_length))
        (omega (arith, ok.color_row_length j hj)),
  )

  placed-relief :
      (x : ℕ)
      → relief_at placed x
        ≡ (if x == i && ltb_ℤ (relief_at g i) (pos j) then pos j else relief_at g x)
  unfolding grid_set_cell
  placed-relief x = ground (
    arith,
    get_or-set g.relief i x (wrap8 (pos j)) (pos 0) (omega (arith, ok.relief_length)),
    wrap8_fits (pos j),
  )

  placed_lengths :
      (length placed.rows ≡ 18) × (length placed.colors ≡ 18) × (length placed.relief ≡ 10)
  unfolding grid_set_cell
  placed_lengths = ground (
    arith,
    ok.rows_length,
    ok.colors_length,
    ok.relief_length,
    length-set g.rows j (u16 (bit_or (row g j) (2 ^ i))),
    length-set g.colors j (set (get_or g.colors j []) i color),
    length-set g.relief i (wrap8 (pos j)),
  )

  placed-color_row : (y : ℕ) → y < 18 → length (get_or placed.colors y []) ≡ 10
  unfolding grid_set_cell
  placed-color_row y hy = ground (
    arith,
    ok.colors_length,
    ok.color_row_length y hy,
    get_or-set g.colors j y (set (get_or g.colors j []) i color) [],
    length-set (get_or g.colors j []) i color,
  )

  placed-IsGrid : IsGrid placed
  placed-IsGrid = record {
    rows_length = placed_lengths.0;
    colors_length = placed_lengths.1;
    color_row_length = placed-color_row;
    relief_length = placed_lengths.2;
    narrow = λ y. rw (placed-row y) (ground (arith, narrow_row, ok.narrow y));
    black = λ x y hx hy. ground (arith, placed-cell x y, placed-color x y, ok.black x y hx hy);
  }

  placed-IsTopped : IsTopped g → IsTopped placed
  placed-IsTopped tops x hx = record {
    above = λ y taken.
        ground (arith, placed-cell x y, placed-relief x, (tops x hx).above y, (tops i hi).above y);
    attained = elim (Bool-cases (x == i && ltb_ℤ (relief_at g i) (pos j))) [
      | inl e ↦ inr (j, rw (placed-relief x, e), ground (arith, placed-cell x j))
      | inr e ↦ elim (tops x hx).attained [
        | inl empty ↦ inl (rw (placed-relief x, e) empty)
        | inr (t, high, taken) ↦
            inr (t, rw (placed-relief x, e) high, ground (arith, placed-cell x t))
      ]
    ];
  }

-- `x == x' && y == y'` on integers.
abbrev pub same_cell : ℤ → ℤ → ℤ → ℤ → Bool
same_cell x y x' y' = leb_ℤ x x' && leb_ℤ x' x && leb_ℤ y y' && leb_ℤ y' y

-- Two integers are off the grid, or are the indices of a cell.
pub off_grid-cases :
    (x y : ℤ)
    → (off_grid x y ≡ true) ⊎ ((i : ℕ) × (j : ℕ) × (x ≡ pos i) × (y ≡ pos j) × (i < 10) × (j < 18))
off_grid-cases (pos i) (pos j) = elim (Bool-cases (off_grid (pos i) (pos j))) [
  | inl e ↦ inl e
  | inr e ↦ inr (i, j, refl, refl, ground arith, ground arith)
]
off_grid-cases (negsuc i) y = inl (ground arith)
off_grid-cases (pos i) (negsuc j) = inl (ground arith)

pub occupied_off : (g : Grid) (x y : ℤ) → off_grid x y ≡ true → grid_cell_occupied g x y ≡ true
unfolding grid_cell_occupied
occupied_off g x y e = rw e

pub occupied_on :
    (g : Grid) (i j : ℕ)
    → i < 10
    → j < 18
    → grid_cell_occupied g (pos i) (pos j) ≡ (cell g i j == 1)
unfolding grid_cell_occupied
occupied_on g i j hi hj = ground (arith, has_bit_lem (row g j) i)

same_cell_off :
    (x y x' y' : ℤ) → off_grid x y ≡ true → same_cell x y x' y' ≡ true → off_grid x' y' ≡ true
same_cell_off x y x' y' off same = ground arith

pub grid_set_cell_off :
    (g : Grid) (x y : ℤ) (color : ℕ) → off_grid x y ≡ true → grid_set_cell g x y color ≡ g
unfolding grid_set_cell
grid_set_cell_off g x y color e = rw e

-- On a well-formed grid, whatever the two pairs of integers and the color, a cell is taken after
-- `grid_set_cell` exactly if it was taken before or is the one that was set (a cell off the grid
-- counts as taken, and setting one changes nothing).
pub grid_cell_occupied-grid_set_cell :
    (g : Grid) (x y : ℤ) (color : ℕ) (x' y' : ℤ)
    → IsGrid g
    → grid_cell_occupied (grid_set_cell g x y color) x' y'
      ≡ (same_cell x y x' y' || grid_cell_occupied g x' y')
grid_cell_occupied-grid_set_cell g x y color x' y' ok = elim (off_grid-cases x y) [
  | inl e ↦
      ground
        (arith, grid_set_cell_off g x y color e, same_cell_off x y x' y' e, occupied_off g x' y')
  | inr (i, j, ex, ey, hi, hj) ↦ elim (off_grid-cases x' y') [
    | inl e ↦
        ground (arith, occupied_off g x' y' e, occupied_off (grid_set_cell g x y color) x' y' e)
    | inr (i', j', ex', ey', hi', hj') ↦
        rw (ex, ey, ex', ey')
          (ground (
            arith,
            occupied_on g i' j' hi' hj',
            occupied_on (grid_set_cell g (pos i) (pos j) color) i' j' hi' hj',
            placed-cell g ok i j hi hj color i' j',
          ))
  ]
]

-- Setting any cell, on the grid or not, keeps a grid well formed and its `relief` exact.
pub grid_set_cell-IsGrid :
    (g : Grid) (x y : ℤ) (color : ℕ)
    → IsGrid g
    → IsTopped g
    → IsGrid (grid_set_cell g x y color) × IsTopped (grid_set_cell g x y color)
grid_set_cell-IsGrid g x y color ok tops = elim (off_grid-cases x y) [
  | inl e ↦ rw (grid_set_cell_off g x y color e) (ok, tops)
  | inr (i, j, ex, ey, hi, hj) ↦
      rw (ex, ey) (placed-IsGrid g ok i j hi hj color, placed-IsTopped g ok i j hi hj color tops)
]
