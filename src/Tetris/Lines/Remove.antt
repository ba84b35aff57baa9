-- ===== src/Tetris/Lines/Remove.antt =====
-- `remove_row`, in 4-soc/csrc/tetris/tetris_grid.c: the rows and the colors.
use mycpu_4soc_game_port.Common.{
  ℕ, zero, suc, ◌+◌, ◌-◌, ◌<◌, ◌≡◌, refl, ap, ◌∙◌, arith, List, [], ◌∷◌, ◌++◌, length, get_or, set,
  length-set, get_or-set, for_range, for_range_field, ltb, ◌==◌, if◌then◌else◌, length-append,
  get_or-replicate,
}
use mycpu_4soc_game_port.Common.Fill.{for_range_copy, fill-copy}
use mycpu_4soc_game_port.Common.Pull.{
  drop_at, pull, length-pull, get_or-pull, set-pull, length-drop_at, get_or-drop_at,
  get_or-append_one,
}
use mycpu_4soc_game_port.Tetris.Types.{Grid}
use mycpu_4soc_game_port.Tetris.Grid.{row, set_row}
use mycpu_4soc_game_port.Tetris.Grid.Inv.{IsSized, IsGrid, IsGrid-IsSized}
use mycpu_4soc_game_port.Tetris.Grid.Reset.{black_row, put_colors, blacken_row_lem}
use mycpu_4soc_game_port.Tetris.Lines.{copy_colors, remove_row}

copy_colors_lem :
    (y : ℕ) (g : Grid)
    → y < length g.colors
    → length (get_or g.colors y []) ≡ 10
    → length (get_or g.colors (y + 1) []) ≡ 10
    → copy_colors y g ≡ put_colors (set g.colors y (get_or g.colors (y + 1) [])) g
unfolding copy_colors
copy_colors_lem y g hy here next =
    for_range_field (λ r. r.colors) put_colors (λ t r. refl) (λ t u r. refl) (λ r. refl)
      (λ x cs. set cs y (set (get_or cs y []) x (get_or (get_or cs (y + 1) []) x 0))) 10 0 g
    ∙ ap (λ cs. put_colors cs g)
        (for_range_copy y (y + 1) (λ e. absurd (omega arith)) 0 10 0 g.colors hy
          ∙ ap (set g.colors y)
              (fill-copy 0 10 (get_or g.colors (y + 1) []) (get_or g.colors y []) next here))

-- The move of the rows and colors from `i` on, one down.
pull_rows :
    (n i : ℕ) (g : Grid)
    → i + n < length g.colors
    → ((y : ℕ) → y < length g.colors → length (get_or g.colors y []) ≡ 10)
    → for_range n i (λ y g. copy_colors y (set_row y (row g (y + 1)) g)) g
      ≡ record g { rows = pull n i 0 g.rows; colors = pull n i [] g.colors }
unfolding for_range
pull_rows zero i g h wide = refl
pull_rows (suc n) i g h wide =
    let cs = get_or g.colors (i + 1) [] in
    rw
      (copy_colors_lem i (set_row i (row g (i + 1)) g) (omega arith) (wide i (omega arith))
        (wide (i + 1) (omega arith)))
      (pull_rows n (i + 1)
        (record g { rows = set g.rows i (row g (i + 1)); colors = set g.colors i cs })
        (omega (arith, length-set g.colors i cs))
        (λ y hy.
          ground
            (arith, length-set g.colors i cs, get_or-set g.colors i y cs [], wide y, wide (i + 1))))

-- In a grid with arrays of the declared sizes, `remove_row` at a row of the grid takes that row
-- and its colors out, moves those above it one down, and leaves an empty black row on top.
pub remove_row_lem :
    (r : ℕ) (g : Grid)
    → IsSized g
    → r < 18
    → remove_row r g ≡ record g {
      rows = drop_at r g.rows ++ (0 ∷ []);
      colors = drop_at r g.colors ++ (black_row ∷ []);
    }
unfolding remove_row
remove_row_lem r g h hr =
    rw
      (
        pull_rows (17 - r) r g (omega (arith, h.colors_length))
            (λ y hy. h.color_row_length y (omega (arith, h.colors_length))),
        blacken_row_lem 17
            (record g {
              rows = set (pull (17 - r) r 0 g.rows) 17 0;
              colors = pull (17 - r) r [] g.colors;
            })
            (omega (arith, length-pull (17 - r) r [] g.colors, h.colors_length)) top_width,
        set-pull 17 r 0 0 g.rows h.rows_length (omega arith),
        set-pull 17 r black_row [] g.colors h.colors_length (omega arith),
      )
      refl
  where
    top_width : length (get_or (pull (17 - r) r [] g.colors) 17 []) ≡ 10
    top_width = ground (
      arith,
      get_or-pull (17 - r) r 17 [] g.colors (omega (arith, h.colors_length)),
      h.color_row_length 17 (omega arith),
    )

-- The places of an array of 18 after one is taken out and `z` is put on top.
removed_at :
    {A : Type 0} (r j : ℕ) (xs : List A) (z d : A)
    → length xs ≡ 18
    → r < 18
    → get_or (drop_at r xs ++ (z ∷ [])) j d ≡ (
        if ltb j 17
        then (if ltb j r then get_or xs j d else get_or xs (suc j) d)
        else if j == 17
        then z
        else d)
removed_at r j xs z d e h = ground (
  arith,
  length-drop_at r xs (omega arith),
  get_or-append_one (drop_at r xs) z j d,
  get_or-drop_at r j xs d,
)

black_row_black : (x : ℕ) → get_or black_row x 0 ≡ 0
black_row_black x = get_or-replicate 10 x 0

module _ (r : ℕ) (g : Grid) (ok : IsGrid g) (hr : r < 18) where
  removed_row :
      (y : ℕ)
      → row (remove_row r g) y
        ≡ (if ltb y 17 then (if ltb y r then row g y else row g (suc y)) else 0)
  removed_row y =
      rw (remove_row_lem r g (IsGrid-IsSized ok) hr)
        (ground (arith, removed_at r y g.rows 0 0 ok.rows_length hr))

  removed_colors :
      (y : ℕ)
      → y < 18
      → get_or (remove_row r g).colors y [] ≡ (
          if ltb y 17
          then (if ltb y r then get_or g.colors y [] else get_or g.colors (suc y) [])
          else black_row)
  removed_colors y hy =
      rw (remove_row_lem r g (IsGrid-IsSized ok) hr)
        (ground (arith, removed_at r y g.colors black_row [] ok.colors_length hr))

  removed_lengths : (length (remove_row r g).rows ≡ 18) × (length (remove_row r g).colors ≡ 18)
  removed_lengths = rw (remove_row_lem r g (IsGrid-IsSized ok) hr) (
      omega (
        arith,
        ok.rows_length,
        ok.colors_length,
        length-append (drop_at r g.rows) (0 ∷ []),
        length-append (drop_at r g.colors) (black_row ∷ []),
        length-drop_at r g.rows (omega (arith, ok.rows_length)),
        length-drop_at r g.colors (omega (arith, ok.colors_length)),
      ))

  pub remove_row-IsGrid : IsGrid (remove_row r g)
  remove_row-IsGrid = record {
    rows_length = removed_lengths.0;
    colors_length = removed_lengths.1;
    color_row_length = λ y hy.
        ground (arith, removed_colors y hy, ok.color_row_length y, ok.color_row_length (suc y));
    relief_length = rw (remove_row_lem r g (IsGrid-IsSized ok) hr) ok.relief_length;
    narrow = λ y. rw (removed_row y) (ground (arith, ok.narrow y, ok.narrow (suc y)));
    black = λ x y hx hy.
        rw (removed_row y, removed_colors y hy)
          (ground (arith, ok.black x y hx hy, ok.black x (suc y) hx, black_row_black x));
  }
