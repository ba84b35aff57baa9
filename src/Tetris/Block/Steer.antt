-- ===== src/Tetris/Block/Steer.antt =====
-- `grid_block_move` and `grid_block_rotate`, in 4-soc/csrc/tetris/tetris_grid.c.
use mycpu_4soc_game_port.Common.{
  ℕ, ◌+◌, ◌-◌, ◌%◌, ◌^◌, ◌<◌, ◌≡◌, ◌⊎◌, ◌∙◌, arith, Bool, true, false, not, if◌then◌else◌,
  Bool-cases, inl, inr, u8, u32,
}
use mycpu_4soc_game_port.Common.Int.{
  ℤ, pos, negsuc, pos_part, neg_part, ◌+ℤ◌, ◌≤ℤ◌, ◌<ℤ◌, IsInt8, wrap8_fits, int_laws,
}
use mycpu_4soc_game_port.Tetris.Types.{Grid, Block, Direction}
use mycpu_4soc_game_port.Tetris.Shape.{shape_num_rotations}
use mycpu_4soc_game_port.Tetris.Block.{
  grid_block_collides, shift, step_of, grid_block_move, turn, grid_block_rotate,
}
use mycpu_4soc_game_port.Tetris.Block.Fits.{IsInside, Fits, grid_block_collides_iff, Fits-IsInside}

pub collides-Fits : (g : Grid) (b : Block) → grid_block_collides g b ≡ true → ¬ Fits g b
collides-Fits g b e f = cc ((grid_block_collides_iff g b).1 f)

pub free-Fits : (g : Grid) (b : Block) → grid_block_collides g b ≡ false → Fits g b
free-Fits g b = (grid_block_collides_iff g b).0

-- The block moved by whole steps, with no wrap.
abbrev pub moved : ℤ → ℤ → Block → Block
moved dx dy b = record b { x = b.x +ℤ dx; y = b.y +ℤ dy }

pub shift-moved :
    (dx dy : ℤ) (b : Block)
    → IsInt8 (b.x +ℤ dx)
    → IsInt8 (b.y +ℤ dy)
    → shift dx dy b ≡ moved dx dy b
unfolding shift
shift-moved dx dy b hx hy = rw (wrap8_fits (b.x +ℤ dx) hx, wrap8_fits (b.y +ℤ dy) hy)

-- What a move in a direction should return.
abbrev pub Moves : Grid → Block → Direction → Bool × Block → Type 0
Moves g b dir r =
    let target = moved (step_of dir).0 (step_of dir).1 b in
    Fits g target × (r ≡ (true, target)) ⊎ ¬ Fits g target × (r ≡ (false, b))

step_small :
    (dir : Direction)
    → let d = step_of dir in (negsuc 0 ≤ℤ d.0) × (d.0 ≤ℤ pos 1) × (negsuc 0 ≤ℤ d.1) × (d.1 ≤ℤ pos 1)
unfolding step_of
step_small dir = ground arith

pub grid_block_move-Moves :
    (g : Grid) (b : Block) (dir : Direction)
    → Fits g b
    → b.y <ℤ pos 127
    → Moves g b dir (grid_block_move g b dir)
grid_block_move-Moves g b dir f low = elim (Bool-cases (grid_block_collides g target)) [
  | inl e ↦ inr (collides-Fits g target e, unfold grid_block_move in rw (exact, e))
  | inr e ↦ inl (free-Fits g target e, unfold grid_block_move in rw (exact, e))
]
  where
    inside : IsInside b
    inside = Fits-IsInside g b f

    target : Block
    target = moved (step_of dir).0 (step_of dir).1 b

    exact : shift (step_of dir).0 (step_of dir).1 b ≡ target
    exact =
        shift-moved (step_of dir).0 (step_of dir).1 b (omega (int_laws, step_small dir, inside))
          (omega (int_laws, step_small dir, inside))

-- The block turned by one rotation step and moved sideways.
abbrev pub kicked : ℤ → Block → Block
kicked d b = record b { rot = (b.rot + 1) % shape_num_rotations b.shape; x = b.x +ℤ d }

few_rotations : (s : ℕ) → let n = shape_num_rotations s in (n ≡ 1) ⊎ (n ≡ 2) ⊎ (n ≡ 4)
unfolding shape_num_rotations
few_rotations s = ground arith

next_rotation :
    (r n : ℕ)
    → r < 256
    → (n ≡ 1) ⊎ (n ≡ 2) ⊎ (n ≡ 4)
    → let sum = pos r +ℤ pos 1 +ℤ pos n in
      u8 (u32 (pos_part sum + 2 ^ 32 - neg_part sum % 2 ^ 32) % n) ≡ (r + 1) % n
unfolding ◌+ℤ◌
next_rotation r n h (inl e) = ground arith
next_rotation r n h (inr (inl e)) = rw e (ground arith)
next_rotation r n h (inr (inr e)) = rw e (ground arith)

turn_one : (b : Block) → b.rot < 256 → turn (pos 1) b ≡ kicked (pos 0) b
unfolding turn
turn_one b h =
    rw (next_rotation b.rot (shape_num_rotations b.shape) h (few_rotations b.shape), stay b.x)
  where
    stay : (z : ℤ) → z +ℤ pos 0 ≡ z
    stay z = omega (int_laws)

kick :
    (b : Block) (d e to : ℤ)
    → IsInside b
    → b.y ≤ℤ pos 127
    → b.x +ℤ e +ℤ d ≡ b.x +ℤ to
    → (negsuc 0 ≤ℤ to) × (to ≤ℤ pos 1)
    → shift d (pos 0) (kicked e b) ≡ kicked to b
kick b d e to inside low sum small =
    let level : b.y +ℤ pos 0 ≡ b.y = omega (int_laws) in
    shift-moved d (pos 0) (kicked e b) (rw sum (omega (int_laws, inside)))
      (omega (int_laws, inside))
    ∙ rw (sum, level)

-- What a rotation by one step should return: the first place that fits of the block's own, one
-- to the left and one to the right; and the block as it was if none fits.
abbrev pub Rotates : Grid → Block → Bool × Block → Type 0
Rotates g b r =
    Fits g (kicked (pos 0) b) × (r ≡ (true, kicked (pos 0) b))
    ⊎ ¬ Fits g (kicked (pos 0) b)
      × (Fits g (kicked (negsuc 0) b) × (r ≡ (true, kicked (negsuc 0) b))
          ⊎ ¬ Fits g (kicked (negsuc 0) b)
            × (Fits g (kicked (pos 1) b) × (r ≡ (true, kicked (pos 1) b))
                ⊎ ¬ Fits g (kicked (pos 1) b) × (r ≡ (false, b))))

-- A block that fits is turned by one rotation step if it then fits in place, or else one column
-- to the left, or else one column to the right, tried in this order; if it fits at none of them
-- it stays as it was. The code says which of the two it did.
pub grid_block_rotate-Rotates :
    (g : Grid) (b : Block)
    → Fits g b
    → b.y ≤ℤ pos 127
    → b.rot < 256
    → Rotates g b (grid_block_rotate g b (pos 1))
unfolding grid_block_rotate
grid_block_rotate-Rotates g b f low h = rw (turn_one b h, to_left, to_right, back) choose
  where
    inside : IsInside b
    inside = Fits-IsInside g b f

    to_left : shift (negsuc 0) (pos 0) (kicked (pos 0) b) ≡ kicked (negsuc 0) b
    to_left =
        kick b (negsuc 0) (pos 0) (negsuc 0) inside low (omega (int_laws))
          (omega (int_laws, inside))

    to_right : shift (pos 2) (pos 0) (kicked (negsuc 0) b) ≡ kicked (pos 1) b
    to_right =
        kick b (pos 2) (negsuc 0) (pos 1) inside low (omega (int_laws)) (omega (int_laws, inside))

    back : shift (negsuc 0) (pos 0) (kicked (pos 1) b) ≡ kicked (pos 0) b
    back =
        kick b (negsuc 0) (pos 1) (pos 0) inside low (omega (int_laws)) (omega (int_laws, inside))

    home : b.x +ℤ pos 0 ≡ b.x
    home = omega (int_laws)

    choose : Rotates g b (
        if not (grid_block_collides g (kicked (pos 0) b))
        then (true, kicked (pos 0) b)
        else if not (grid_block_collides g (kicked (negsuc 0) b))
        then (true, kicked (negsuc 0) b)
        else if not (grid_block_collides g (kicked (pos 1) b))
        then (true, kicked (pos 1) b)
        else (false, record (kicked (pos 0) b) { rot = b.rot }))
    choose = elim (Bool-cases (grid_block_collides g (kicked (pos 0) b))) [
      | inr e ↦ inl (free-Fits g _ e, rw e)
      | inl e ↦ inr (
        collides-Fits g _ e,
        elim (Bool-cases (grid_block_collides g (kicked (negsuc 0) b))) [
          | inr e' ↦ inl (free-Fits g _ e', rw (e, e'))
          | inl e' ↦ inr (
            collides-Fits g _ e',
            elim (Bool-cases (grid_block_collides g (kicked (pos 1) b))) [
              | inr e'' ↦ inl (free-Fits g _ e'', rw (e, e', e''))
              | inl e'' ↦ inr (collides-Fits g _ e'', rw (e, e', e'', home))
            ],
          )
        ],
      )
    ]
