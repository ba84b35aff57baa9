-- ===== src/Tetris/Shape.antt =====
-- The shape tables of 4-soc/csrc/tetris/tetris_shape.c and the functions that read them.
pub mod Tables
use package.mycpu_4soc_game_port.Common.{ℕ, List, [], ◌∷◌, leb, if◌then◌else◌, get_or, bit_and}
use package.mycpu_4soc_game_port.Tetris.Types.{num_shapes}

-- `SHAPES[shape][rotation][i]` is the cell (x, y) of block `i`.
abbrev pub shapes : List (List (List (ℕ × ℕ)))
shapes =
    (((0, 0) ∷ (1, 0) ∷ (0, 1) ∷ (1, 1) ∷ [])
      ∷ ((0, 0) ∷ (1, 0) ∷ (0, 1) ∷ (1, 1) ∷ [])
      ∷ ((0, 0) ∷ (1, 0) ∷ (0, 1) ∷ (1, 1) ∷ [])
      ∷ ((0, 0) ∷ (1, 0) ∷ (0, 1) ∷ (1, 1) ∷ [])
      ∷ [])
    ∷ (((0, 1) ∷ (1, 1) ∷ (2, 1) ∷ (1, 0) ∷ [])
        ∷ ((1, 0) ∷ (1, 1) ∷ (1, 2) ∷ (0, 1) ∷ [])
        ∷ ((0, 0) ∷ (1, 0) ∷ (2, 0) ∷ (1, 1) ∷ [])
        ∷ ((0, 0) ∷ (0, 1) ∷ (0, 2) ∷ (1, 1) ∷ [])
        ∷ [])
    ∷ (((0, 0) ∷ (1, 0) ∷ (2, 0) ∷ (3, 0) ∷ [])
        ∷ ((0, 0) ∷ (0, 1) ∷ (0, 2) ∷ (0, 3) ∷ [])
        ∷ ((0, 0) ∷ (1, 0) ∷ (2, 0) ∷ (3, 0) ∷ [])
        ∷ ((0, 0) ∷ (0, 1) ∷ (0, 2) ∷ (0, 3) ∷ [])
        ∷ [])
    ∷ (((0, 0) ∷ (0, 1) ∷ (1, 0) ∷ (2, 0) ∷ [])
        ∷ ((0, 0) ∷ (1, 0) ∷ (1, 1) ∷ (1, 2) ∷ [])
        ∷ ((0, 1) ∷ (1, 1) ∷ (2, 1) ∷ (2, 0) ∷ [])
        ∷ ((0, 0) ∷ (0, 1) ∷ (0, 2) ∷ (1, 2) ∷ [])
        ∷ [])
    ∷ (((0, 0) ∷ (1, 0) ∷ (2, 0) ∷ (2, 1) ∷ [])
        ∷ ((0, 2) ∷ (1, 0) ∷ (1, 1) ∷ (1, 2) ∷ [])
        ∷ ((0, 0) ∷ (0, 1) ∷ (1, 1) ∷ (2, 1) ∷ [])
        ∷ ((0, 0) ∷ (0, 1) ∷ (0, 2) ∷ (1, 0) ∷ [])
        ∷ [])
    ∷ (((0, 0) ∷ (1, 0) ∷ (1, 1) ∷ (2, 1) ∷ [])
        ∷ ((0, 1) ∷ (0, 2) ∷ (1, 0) ∷ (1, 1) ∷ [])
        ∷ ((0, 0) ∷ (1, 0) ∷ (1, 1) ∷ (2, 1) ∷ [])
        ∷ ((0, 1) ∷ (0, 2) ∷ (1, 0) ∷ (1, 1) ∷ [])
        ∷ [])
    ∷ (((0, 1) ∷ (1, 1) ∷ (1, 0) ∷ (2, 0) ∷ [])
        ∷ ((0, 0) ∷ (0, 1) ∷ (1, 1) ∷ (1, 2) ∷ [])
        ∷ ((0, 1) ∷ (1, 1) ∷ (1, 0) ∷ (2, 0) ∷ [])
        ∷ ((0, 0) ∷ (0, 1) ∷ (1, 1) ∷ (1, 2) ∷ [])
        ∷ [])
    ∷ []

abbrev pub shape_num_rotations_table : List ℕ
shape_num_rotations_table = 1 ∷ 4 ∷ 2 ∷ 4 ∷ 4 ∷ 2 ∷ 2 ∷ []

-- `SHAPE_DIMENSIONS[shape][rotation]` is (width, height).
abbrev pub shape_dimensions : List (List (ℕ × ℕ))
shape_dimensions =
    ((2, 2) ∷ (2, 2) ∷ (2, 2) ∷ (2, 2) ∷ [])
    ∷ ((3, 2) ∷ (2, 3) ∷ (3, 2) ∷ (2, 3) ∷ [])
    ∷ ((4, 1) ∷ (1, 4) ∷ (4, 1) ∷ (1, 4) ∷ [])
    ∷ ((3, 2) ∷ (2, 3) ∷ (3, 2) ∷ (2, 3) ∷ [])
    ∷ ((3, 2) ∷ (2, 3) ∷ (3, 2) ∷ (2, 3) ∷ [])
    ∷ ((3, 2) ∷ (2, 3) ∷ (3, 2) ∷ (2, 3) ∷ [])
    ∷ ((3, 2) ∷ (2, 3) ∷ (3, 2) ∷ (2, 3) ∷ [])
    ∷ []

-- The four cells at indices that may be out of range, as `shape_get_cells` and the functions on
-- blocks read them: a wrong shape reads as shape 0, and a rotation is cut to two bits.
unfoldable pub shape_get_cells : ℕ → ℕ → List (ℕ × ℕ)
shape_get_cells shape rot =
    get_or (get_or shapes (if leb num_shapes shape then 0 else shape) []) (bit_and rot 3) []

unfoldable pub shape_get_width : ℕ → ℕ → ℕ
shape_get_width shape rot =
    if leb num_shapes shape
    then 2
    else (get_or (get_or shape_dimensions shape []) (bit_and rot 3) (0, 0)).0

unfoldable pub shape_get_height : ℕ → ℕ → ℕ
shape_get_height shape rot =
    if leb num_shapes shape
    then 2
    else (get_or (get_or shape_dimensions shape []) (bit_and rot 3) (0, 0)).1

unfoldable pub shape_num_rotations : ℕ → ℕ
shape_num_rotations shape =
    if leb num_shapes shape then 1 else get_or shape_num_rotations_table shape 0
