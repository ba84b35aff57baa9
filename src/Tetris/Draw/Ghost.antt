-- ===== src/Tetris/Draw/Ghost.antt =====
-- The ghost of the moving block, in 4-soc/csrc/tetris/tetris_draw.c.
use mycpu_4soc_game_port.Common.{
  ℕ, zero, suc, ◌+◌, ◌≤◌, ◌≡◌, refl, subst, arith, true, false, Bool-cases, inl, inr, some,
}
use mycpu_4soc_game_port.Common.Int.{pos, ◌≤ℤ◌, int_laws}
use mycpu_4soc_game_port.Tetris.Types.{Grid, Block}
use mycpu_4soc_game_port.Tetris.Block.{grid_block_collides, grid_block_drop}
use mycpu_4soc_game_port.Tetris.Block.Fits.{Fits, Fits-IsInside, grid_block_collides_iff}
use mycpu_4soc_game_port.Tetris.Block.Drop.{fallen, at_zero, lowered, raised, grid_block_drop-Drops}
use mycpu_4soc_game_port.Tetris.Draw.{ghost_loop, ghost_fuel, ghost_of}

free_here : (g : Grid) (b : Block) → Fits g b → grid_block_collides g b ≡ false
free_here g b f = (grid_block_collides_iff g b).1 f

blocked_here : (g : Grid) (b : Block) → ¬ Fits g b → grid_block_collides g b ≡ true
blocked_here g b no_fit = elim (Bool-cases (grid_block_collides g b)) [
  | inl e ↦ e
  | inr e ↦ absurd (no_fit ((grid_block_collides_iff g b).0 e))
]

-- From a block that has fallen `n` rows, with `left` more to go.
ghost_loop_lem :
    (left n fall fuel : ℕ) (g : Grid) (b : Block)
    → n + left ≡ fall
    → left + 2 ≤ fuel
    → b.y ≤ℤ pos 127
    → ((k : ℕ) → k ≤ fall → Fits g (fallen k b))
    → ¬ Fits g (fallen (suc fall) b)
    → ghost_loop fuel g (fallen n b) ≡ some (fallen (suc fall) b)
unfolding ghost_loop
ghost_loop_lem left n fall zero g b e enough low way rests = absurd (omega arith)
ghost_loop_lem left n fall (suc zero) g b e enough low way rests = absurd (omega arith)
ghost_loop_lem zero n fall (suc (suc fuel)) g b e enough low way rests =
    let last : n ≡ fall = omega arith in
    rw
      (
        last,
        free_here g (fallen fall b) (way fall (omega arith)),
        lowered b fall (Fits-IsInside g (fallen fall b) (way fall (omega arith))) low,
        blocked_here g (fallen (suc fall) b) rests,
      )
      refl
ghost_loop_lem (suc left) n fall (suc (suc fuel)) g b e enough low way rests =
    let fits = way n (omega arith) in
    rw (free_here g (fallen n b) fits, lowered b n (Fits-IsInside g (fallen n b) fits) low)
      (ghost_loop_lem left (suc n) fall (suc fuel) g b (omega arith) (omega arith) low way rests)

-- For a block that fits, from row 127 or below, the loop of `draw_ghost` ends and its ghost is the
-- block as `grid_block_drop` would leave it.
pub ghost_of-grid_block_drop :
    (g : Grid) (b : Block)
    → Fits g b
    → b.y ≤ℤ pos 127
    → (n : ℕ) × (ghost : Block) × (grid_block_drop g b ≡ some (n, ghost))
      × (ghost_of g b ≡ some ghost)
unfolding ghost_of
ghost_of-grid_block_drop g b f low =
    let d = grid_block_drop-Drops g b f low in
    let inside = Fits-IsInside g (fallen d.fall b) (d.way d.fall (omega arith)) in
    let ends =
      subst (λ c. ghost_loop ghost_fuel g c ≡ some (fallen (suc d.fall) b)) (at_zero b)
        (ghost_loop_lem d.fall 0 d.fall ghost_fuel g b (omega arith) (omega (int_laws, inside)) low
          d.way d.rests) in
    (d.fall, fallen d.fall b, d.result, rw (ends, ghost_of, raised b d.fall inside low) refl)
