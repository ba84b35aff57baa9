-- ===== src/Tests/Shapes.antt =====
-- The theorems on the tables, the generator and the bag at concrete inputs.
use mycpu_4soc_game_port.Common.{ℕ, ◌≡◌, ◌≢◌, ◌⊎◌, inl, refl, arith}
use mycpu_4soc_game_port.Tetris.Shape.{shape_get_cells, shape_get_width, shape_get_height}
use mycpu_4soc_game_port.Tetris.Shape.Tables.{
  IsBoxed, TurnsLeft, TurnsRight, shape_get_cells-IsBoxed, shape_turns,
}
use mycpu_4soc_game_port.Tetris.Bag.{shuffle_bag}
use mycpu_4soc_game_port.Tetris.Bag.Deal.{IsFull, IsDealt, deal, deal-IsFull}
use mycpu_4soc_game_port.Tests.Data.{dealt_random, dealt_random-IsDealt}

shape_get_cells-IsBoxed_example :
    IsBoxed (shape_get_cells 9 6) (shape_get_width 9 6) (shape_get_height 9 6)
shape_get_cells-IsBoxed_example = shape_get_cells-IsBoxed 9 6

abbrev ell : ℕ
ell = 3

shape_turns_example : (ell ≢ 1) × TurnsLeft ell 2 ⊎ (ell ≡ 1) × TurnsRight ell 2
shape_turns_example = shape_turns ell 2 (omega arith)

deal-IsFull_example :
    IsFull (deal 7 dealt_random).0
    × IsDealt (deal 7 dealt_random).1
    × ((deal 7 dealt_random).1.bag_pos ≡ 7)
deal-IsFull_example =
    deal-IsFull dealt_random dealt_random-IsDealt (inl (unfold shuffle_bag in refl))
