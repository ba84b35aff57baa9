-- ===== src/Tetris/Shape/Tables.antt =====
-- The three shape tables, side by side.
use mycpu_4soc_game_port.Common.{
  ℕ, zero, suc, ◌+◌, ◌-◌, ◌%◌, ◌<◌, min, max, ◌≡◌, ◌≢◌, refl, ◌↔◌, ◌⊎◌, inl, inr, bit_and,
  Bool-cases, leb, arith, List, [], ◌∷◌, map, length, get_or,
}
use mycpu_4soc_game_port.Common.Bits.{bit_and_three}
use mycpu_4soc_game_port.Tetris.Shape.{
  shape_get_cells, shape_get_width, shape_get_height, shape_num_rotations,
}

abbrev pub Cell : Type 0
Cell = ℕ × ℕ

-- One past the largest of a coordinate, and the smallest (`top` for no cell).
abbrev pub extent : (Cell → ℕ) → List Cell → ℕ
extent f [] = 0
extent f (c ∷ cs) = max (f c + 1) (extent f cs)

abbrev pub lowest : ℕ → (Cell → ℕ) → List Cell → ℕ
lowest top f [] = top
lowest top f (c ∷ cs) = min (f c) (lowest top f cs)

-- The smallest coordinate is that of one of the cells.
pub lowest_met :
    (top : ℕ) (f : Cell → ℕ) (cs : List Cell)
    → 0 < top
    → lowest top f cs ≡ 0
    → (i : ℕ) × (i < length cs) × (f (get_or cs i (0, 0)) ≡ 0)
lowest_met top f [] h e = absurd (omega arith)
lowest_met top f (c ∷ cs) h e = elim (zero_or_pos (f c)) [
  | inl z ↦ (0, omega arith, z)
  | inr p ↦ let (i, hi, z) = lowest_met top f cs h (omega arith) in (suc i, omega arith, z)
]
  where
    zero_or_pos : (n : ℕ) → (n ≡ 0) ⊎ (0 < n)
    zero_or_pos n = omega arith

infix 40 ◌∈◌
abbrev pub ◌∈◌ : Cell → List Cell → Type 0
c ∈ [] = ⊥
c ∈ d ∷ ds = (c.0 ≡ d.0) × (c.1 ≡ d.1) ⊎ (c ∈ ds)

abbrev IsDistinct : List Cell → Type 0
IsDistinct [] = Unit {0}
IsDistinct (c ∷ cs) = ¬ (c ∈ cs) × IsDistinct cs

-- Four different cells whose bounding box is `w` by `h`, from the corner (0, 0).
pub record IsBoxed (cells : List Cell) (w h : ℕ) : Type 0 where
  pub left : lowest 4 (λ c. c.0) cells ≡ 0
  pub bottom : lowest 4 (λ c. c.1) cells ≡ 0
  pub wide : extent (λ c. c.0) cells ≡ w
  pub tall : extent (λ c. c.1) cells ≡ h
  pub four : length cells ≡ 4
  pub distinct : IsDistinct cells

-- A family that holds at each number below `n`, as a tuple.
abbrev AllBelow {ℓ} : ℕ → (ℕ → Type ℓ) → Type ℓ
AllBelow zero P = Unit
AllBelow (suc n) P = P n × AllBelow n P

at_below {ℓ} : (n : ℕ) (P : ℕ → Type ℓ) → AllBelow n P → (x : ℕ) → x < n → P x
at_below zero P h x p = absurd (omega arith)
at_below (suc n) P h x p = elim (below_or_last n x p) [
  | inl lt ↦ at_below n P h.1 x lt
  | inr e ↦ rw e h.0
]
  where
    below_or_last : (n x : ℕ) → x < suc n → (x < n) ⊎ (x ≡ n)
    below_or_last n x p = omega arith

abbrev BoxedAt : ℕ → ℕ → Type 0
BoxedAt s r = IsBoxed (shape_get_cells s r) (shape_get_width s r) (shape_get_height s r)

boxed_table : AllBelow 7 (λ s. AllBelow 4 (BoxedAt s))
unfolding shape_get_cells shape_get_width shape_get_height
boxed_table = ground arith

-- Only the two low bits of a rotation are read.
read_mod_four :
    (s r : ℕ)
    → (shape_get_cells s r ≡ shape_get_cells s (r % 4))
      × (shape_get_width s r ≡ shape_get_width s (r % 4))
      × (shape_get_height s r ≡ shape_get_height s (r % 4))
unfolding shape_get_cells shape_get_width shape_get_height
read_mod_four s r =
    let e : bit_and r 3 ≡ bit_and (r % 4) 3 =
      omega (arith, bit_and_three r, bit_and_three (r % 4)) in
    rw e (refl, refl, refl)

-- A shape number past the tables reads as the square.
abbrev SquareTable : Type 0
SquareTable = AllBelow 4 (λ r. IsBoxed (shape_get_cells 0 r) 2 2)

square_boxed : SquareTable
unfolding shape_get_cells
square_boxed = ground arith

boxed_mod_four : (s r : ℕ) → r < 4 → BoxedAt s r
unfolding shape_get_cells shape_get_width shape_get_height
boxed_mod_four s r p = elim (Bool-cases (leb 7 s)) [
  | inl e ↦ rw e (at_below 4 (λ r. IsBoxed (shape_get_cells 0 r) 2 2) square_boxed r p)
  | inr e ↦
      at_below 4 (BoxedAt s) (at_below 7 (λ s. AllBelow 4 (BoxedAt s)) boxed_table s (ground arith))
        r p
]

-- At any shape and rotation number, the cells of the table are four different cells, and the
-- width and height that the second table gives are exactly those of the box around them, which
-- has its corner at (0, 0).
pub shape_get_cells-IsBoxed :
    (shape rot : ℕ)
    → IsBoxed (shape_get_cells shape rot) (shape_get_width shape rot) (shape_get_height shape rot)
shape_get_cells-IsBoxed s r =
    let (cells, width, height) = read_mod_four s r in
    rw (cells, width, height) (boxed_mod_four s (r % 4) (omega arith))

-- The rotations of a shape that have the same cells.
abbrev PeriodAt : ℕ → ℕ → ℕ → Type 0
PeriodAt s r t =
    (shape_get_cells s r ≡ shape_get_cells s t)
    ↔ (r % shape_num_rotations s ≡ t % shape_num_rotations s)

period_table : AllBelow 7 (λ s. AllBelow 4 (λ r. AllBelow 4 (PeriodAt s r)))
unfolding shape_get_cells shape_num_rotations
period_table = ground arith

rotations_divide : (s r : ℕ) → s < 7 → r % 4 % shape_num_rotations s ≡ r % shape_num_rotations s
rotations_divide s r p =
    at_below 7 (λ s. r % 4 % shape_num_rotations s ≡ r % shape_num_rotations s)
      (unfold shape_num_rotations in omega arith) s p

-- Two rotations of one of the seven shapes have the same cells in the table exactly when they
-- agree modulo the number of rotations that the third table gives.
pub shape_num_rotations_exact :
    (shape rot rot' : ℕ)
    → shape < 7
    → (shape_get_cells shape rot ≡ shape_get_cells shape rot')
      ↔ (rot % shape_num_rotations shape ≡ rot' % shape_num_rotations shape)
shape_num_rotations_exact s r t p =
    let table =
      at_below 4 (PeriodAt s (r % 4))
        (at_below 4 (λ r. AllBelow 4 (PeriodAt s r))
          (at_below 7 (λ s. AllBelow 4 (λ r. AllBelow 4 (PeriodAt s r))) period_table s p) (r % 4)
          (omega arith))
        (t % 4) (omega arith) in
    rw
      (
        (read_mod_four s r).0,
        (read_mod_four s t).0,
        ← rotations_divide s r p,
        ← rotations_divide s t p,
      )
      table

-- A quarter turn of a box `w` by `h`, each way, with the corner put back to (0, 0). Up is up.
abbrev pub turn_left : ℕ → Cell → Cell
turn_left h (x, y) = (h - 1 - y, x)

abbrev pub turn_right : ℕ → Cell → Cell
turn_right w (x, y) = (y, w - 1 - x)

abbrev AllIn : List Cell → List Cell → Type 0
AllIn [] ds = Unit {0}
AllIn (c ∷ cs) ds = (c ∈ ds) × AllIn cs ds

abbrev pub SameCells : List Cell → List Cell → Type 0
SameCells cs ds = AllIn cs ds × AllIn ds cs

abbrev pub TurnsLeft : ℕ → ℕ → Type 0
TurnsLeft s r =
    SameCells (shape_get_cells s (r + 1))
      (map (turn_left (shape_get_height s r)) (shape_get_cells s r))

abbrev pub TurnsRight : ℕ → ℕ → Type 0
TurnsRight s r =
    SameCells (shape_get_cells s (r + 1))
      (map (turn_right (shape_get_width s r)) (shape_get_cells s r))

left_table : AllBelow 7 (λ s. s ≢ 1 → AllBelow 4 (TurnsLeft s))
unfolding shape_get_cells shape_get_width shape_get_height
left_table = ground arith

right_table : AllBelow 4 (TurnsRight 1)
unfolding shape_get_cells shape_get_width shape_get_height
right_table = ground arith

next_mod_four : (s r : ℕ) → shape_get_cells s (r + 1) ≡ shape_get_cells s (r % 4 + 1)
unfolding shape_get_cells
next_mod_four s r =
    let e : bit_and (r + 1) 3 ≡ bit_and (r % 4 + 1) 3 =
      omega (arith, bit_and_three (r + 1), bit_and_three (r % 4 + 1)) in
    rw e

-- One rotation step is a quarter turn to the left for every shape but shape 1 (the T), and a
-- quarter turn to the right for that one, in each case with the corner of the box kept.
pub shape_turns :
    (shape rot : ℕ)
    → shape < 7
    → (shape ≢ 1) × TurnsLeft shape rot ⊎ (shape ≡ 1) × TurnsRight shape rot
shape_turns s r p =
    let (cells, width, height) = read_mod_four s r in
    elim (one_or_not s) [
      | inl ne ↦ inl (
        ne,
        rw (next_mod_four s r, cells, height)
            (at_below 4 (TurnsLeft s)
              (at_below 7 (λ s. s ≢ 1 → AllBelow 4 (TurnsLeft s)) left_table s p ne) (r % 4)
              (omega arith)),
      )
      | inr e ↦ inr (
        e,
        rw (next_mod_four s r, cells, width)
            (rw e (at_below 4 (TurnsRight 1) right_table (r % 4) (omega arith))),
      )
    ]
  where
    one_or_not : (s : ℕ) → (s ≢ 1) ⊎ (s ≡ 1)
    one_or_not s = omega arith
