-- ===== src/Tetris/Block/Drop.antt =====
-- The loop of `grid_block_drop`, in 4-soc/csrc/tetris/tetris_grid.c.
use mycpu_4soc_game_port.Common.{
  ℕ, zero, suc, ◌+◌, ◌≤◌, ◌≡◌, ◌⊎◌, subst, ◌∙◌, arith, Bool-cases, inl, inr, Option, some,
}
use mycpu_4soc_game_port.Common.Int.{pos, negsuc, ◌+ℤ◌, ◌-ℤ◌, ◌≤ℤ◌, ◌<ℤ◌, int_laws}
use mycpu_4soc_game_port.Tetris.Types.{Grid, Block}
use mycpu_4soc_game_port.Tetris.Block.{
  grid_block_collides, shift, drop_loop, drop_fuel, grid_block_drop,
}
use mycpu_4soc_game_port.Tetris.Block.Fits.{IsInside, Fits, Fits-IsInside}
use mycpu_4soc_game_port.Tetris.Block.Steer.{shift-moved, free-Fits, collides-Fits}

-- The block `n` rows further down.
abbrev pub fallen : ℕ → Block → Block
fallen n b = record b { y = b.y -ℤ pos n }

-- The result of a drop: the block falls by `fall` rows, fits at every row on the way, and would
-- not fit one row further down.
pub record Drops (g : Grid) (b : Block) (r : Option (ℕ × Block)) : Type 0 where
  pub fall : ℕ
  pub result : r ≡ some (fall, fallen fall b)
  pub way : (k : ℕ) → k ≤ fall → Fits g (fallen k b)
  pub rests : ¬ Fits g (fallen (suc fall) b)

pub at_zero : (b : Block) → fallen 0 b ≡ b
at_zero b = let e : b.y -ℤ pos 0 ≡ b.y = omega (int_laws) in rw e

pub lowered :
    (b : Block) (n : ℕ)
    → IsInside (fallen n b)
    → b.y ≤ℤ pos 127
    → shift (pos 0) (negsuc 0) (fallen n b) ≡ fallen (suc n) b
lowered b n inside low =
    let same : b.x +ℤ pos 0 ≡ b.x = omega (int_laws) in
    let down : b.y -ℤ pos n +ℤ negsuc 0 ≡ b.y -ℤ pos (suc n) = omega (int_laws) in
    shift-moved (pos 0) (negsuc 0) (fallen n b) (omega (int_laws, inside))
      (omega (int_laws, inside))
    ∙ rw (same, down)

pub raised :
    (b : Block) (n : ℕ)
    → IsInside (fallen n b)
    → b.y ≤ℤ pos 127
    → shift (pos 0) (pos 1) (fallen (suc n) b) ≡ fallen n b
raised b n inside low =
    let same : b.x +ℤ pos 0 ≡ b.x = omega (int_laws) in
    let up : b.y -ℤ pos (suc n) +ℤ pos 1 ≡ b.y -ℤ pos n = omega (int_laws) in
    shift-moved (pos 0) (pos 1) (fallen (suc n) b) (omega (int_laws, inside))
      (omega (int_laws, inside))
    ∙ rw (same, up)

next : (n : ℕ) → n + 1 ≡ suc n
next n = omega arith

drop_loop_lem :
    (fuel : ℕ) (g : Grid) (b : Block) (n : ℕ)
    → b.y ≤ℤ pos 127
    → b.y <ℤ pos (fuel + n)
    → ((k : ℕ) → k ≤ n → Fits g (fallen k b))
    → Drops g b (drop_loop fuel g n (fallen n b))
unfolding drop_loop
drop_loop_lem zero g b n low enough way =
    let inside = Fits-IsInside g (fallen n b) (way n (omega arith)) in
    absurd (omega (int_laws, inside))
drop_loop_lem (suc fuel) g b n low enough way =
    let inside = Fits-IsInside g (fallen n b) (way n (omega arith)) in
    elim (Bool-cases (grid_block_collides g (fallen (suc n) b))) [
      | inl e ↦ record {
        fall = n;
        result = rw (lowered b n inside low, e, raised b n inside low);
        way = way;
        rests = collides-Fits g (fallen (suc n) b) e;
      }
      | inr e ↦
          let rest =
            drop_loop_lem fuel g b (suc n) low (omega arith)
              (further (free-Fits g (fallen (suc n) b) e)) in
          record {
            fall = rest.fall;
            result = rw (lowered b n inside low, e, next n) rest.result;
            way = rest.way;
            rests = rest.rests;
          }
    ]
  where
    split : (k : ℕ) → k ≤ suc n → (k ≤ n) ⊎ (k ≡ suc n)
    split k h = omega arith

    further : Fits g (fallen (suc n) b) → (k : ℕ) → k ≤ suc n → Fits g (fallen k b)
    further last k h = elim (split k h) [ inl lt ↦ way k lt | inr e ↦ rw e last ]

-- A drop of a block that fits, from row 127 or below, always ends: it moves the block straight
-- down, through places where it fits, to the last one before a place where it does not, and
-- returns the number of rows.
pub grid_block_drop-Drops :
    (g : Grid) (b : Block) → Fits g b → b.y ≤ℤ pos 127 → Drops g b (grid_block_drop g b)
unfolding grid_block_drop
grid_block_drop-Drops g b f low =
    subst (λ c. Drops g b (drop_loop drop_fuel g 0 c)) (at_zero b)
      (drop_loop_lem drop_fuel g b 0 low (omega arith) start)
  where
    start : (k : ℕ) → k ≤ 0 → Fits g (fallen k b)
    start k h = let e : k ≡ 0 = omega arith in rw (e, at_zero b) f
