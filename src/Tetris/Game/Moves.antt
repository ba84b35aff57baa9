-- ===== src/Tetris/Game/Moves.antt =====
-- The moves of the player and of gravity, and the game's invariant.
use mycpu_4soc_game_port.Common.{
  ℕ, ◌<◌, ◌+◌, ◌*◌, ◌%◌, ◌≡◌, ◌≢◌, ◌⊎◌, refl, arith, Bool-cases, inl, inr, u32,
}
use mycpu_4soc_game_port.Common.Int.{ℤ, pos, negsuc, ◌≤ℤ◌, int_laws}
use mycpu_4soc_game_port.Common.Outcome.{Returns, gives, then_gives}
use mycpu_4soc_game_port.Tetris.Types.{Grid, Block, Direction, GameState}
use mycpu_4soc_game_port.Tetris.Grid.{grid_cell_occupied}
use mycpu_4soc_game_port.Tetris.Lines.Cleared.{IsGrid-counters}
use mycpu_4soc_game_port.Tetris.Shape.{shape_num_rotations}
use mycpu_4soc_game_port.Tetris.Block.{
  step_of, grid_block_move, grid_block_rotate, grid_block_collides, shift, turn,
}
use mycpu_4soc_game_port.Tetris.Block.Fits.{Fits}
use mycpu_4soc_game_port.Tetris.Block.Steer.{
  grid_block_move-Moves, kicked, grid_block_rotate-Rotates,
}
use mycpu_4soc_game_port.Tetris.Block.Drop.{fallen, grid_block_drop-Drops}
use mycpu_4soc_game_port.Tetris.Game.{Game, move_down, add_score, hard_drop}
use mycpu_4soc_game_port.Tetris.Game.Board.{IsBoard, IsPlayable, IsGame}
use mycpu_4soc_game_port.Tetris.Game.Lock.{lock-IsGame}

pub over_or_not : (t : GameState) → (t ≡ GameState.over) ⊎ (t ≢ GameState.over)
over_or_not GameState.over = inl refl
over_or_not GameState.playing = inr (λ e. absurd (ground arith))
over_or_not GameState.paused = inr (λ e. absurd (ground arith))

abbrev pub put_block : Game → Block → Game
put_block s b = record s { current_block = b }

pub put_block-IsBoard : (s : Game) (b : Block) → IsBoard s → b.shape < 7 → IsBoard (put_block s b)
put_block-IsBoard s b h shape = record {
  grid_ok = h.grid_ok;
  tops = h.tops;
  current_shape = shape;
  next_shape = h.next_shape;
  dealt = h.dealt;
  timed = h.timed;
}

-- The board is the same in every state of the game.
pub state-IsBoard : (t : GameState) (s : Game) → IsBoard s → IsBoard (record s { game_state = t })
state-IsBoard t s h = record {
  grid_ok = h.grid_ok;
  tops = h.tops;
  current_shape = h.current_shape;
  next_shape = h.next_shape;
  dealt = h.dealt;
  timed = h.timed;
}

-- The counters of the grid are no part of the invariant.
pub score-IsBoard : (n : ℕ) (s : Game) → IsBoard s → IsBoard (add_score n s)
score-IsBoard n s h = record {
  grid_ok = IsGrid-counters s.grid.lines_cleared (u32 (s.grid.score + n)) s.grid.level h.grid_ok;
  tops = λ x p. record { above = (h.tops x p).above; attained = (h.tops x p).attained };
  current_shape = h.current_shape;
  next_shape = h.next_shape;
  dealt = h.dealt;
  timed = h.timed;
}

score-Fits : (g : Grid) (n : ℕ) (b : Block) → Fits g b → Fits (record g { score = n }) b
unfolding grid_cell_occupied
score-Fits g n b f = record {
  cells = λ i h.
      let c = f.cells i h in
      record { left = c.left; right = c.right; floor = c.floor; open_cell = c.open_cell };
}

pub score-IsGame : (n : ℕ) (s : Game) → IsGame s → IsGame (add_score n s)
score-IsGame n s h = record {
  board = score-IsBoard n s h.board;
  playable = λ ne.
      let p = h.playable ne in
      record {
        fits = score-Fits s.grid (u32 (s.grid.score + n)) s.current_block p.fits;
        low = p.low;
        turns = p.turns;
      };
}

-- Nor are the clocks and the number of reads.
pub clocks-IsGame :
    (s : Game) (last reads tick : ℕ)
    → IsGame s
    → IsGame (record s { last_drop_time = last; reads = reads; soft_tick = tick })
clocks-IsGame s last reads tick h = record {
  board = record {
    grid_ok = h.board.grid_ok;
    tops = h.board.tops;
    current_shape = h.board.current_shape;
    next_shape = h.board.next_shape;
    dealt = h.board.dealt;
    timed = h.board.timed;
  };
  playable = λ ne. let p = h.playable ne in record { fits = p.fits; low = p.low; turns = p.turns };
}

pub quit-IsGame : (s : Game) → IsGame s → IsGame (record s { game_state = GameState.over })
quit-IsGame s h = record {
  board = state-IsBoard GameState.over s h.board;
  playable = λ ne. absurd (ne refl);
}

pub move-shape :
    (g : Grid) (b : Block) (dir : Direction) → (grid_block_move g b dir).1.shape ≡ b.shape
unfolding grid_block_move shift
move-shape g b dir =
    elim (Bool-cases (grid_block_collides g (shift (step_of dir).0 (step_of dir).1 b))) [
      | inl e ↦ rw e
      | inr e ↦ rw e
    ]

-- A move that is not up keeps the block playable.
move-IsPlayable :
    (s : Game) (dir : Direction)
    → IsPlayable s
    → (step_of dir).1 ≤ℤ pos 0
    → IsPlayable (put_block s (grid_block_move s.grid s.current_block dir).1)
move-IsPlayable s dir p down =
    elim (grid_block_move-Moves s.grid s.current_block dir p.fits (omega arith)) [
      | inl (fits, r) ↦ rw r (record { fits = fits; low = omega (int_laws); turns = p.turns })
      | inr (blocked, r) ↦ rw r (record { fits = p.fits; low = p.low; turns = p.turns })
    ]

pub move-IsGame :
    (s : Game) (dir : Direction)
    → IsGame s
    → (step_of dir).1 ≤ℤ pos 0
    → IsGame (put_block s (grid_block_move s.grid s.current_block dir).1)
move-IsGame s dir h down = record {
  board =
      put_block-IsBoard s _ h.board
        (rw (move-shape s.grid s.current_block dir) h.board.current_shape);
  playable = λ ne. move-IsPlayable s dir (h.playable ne) down;
}

pub move_down-IsGame : (s : Game) → IsGame s → Returns IsGame (move_down s)
unfolding move_down
move_down-IsGame s h = elim (Bool-cases (grid_block_move s.grid s.current_block Direction.down).0) [
  | inl e ↦ rw e (gives _ lowered)
  | inr e ↦ rw e (lock-IsGame _ lowered.board)
]
  where
    lowered : IsGame (put_block s (grid_block_move s.grid s.current_block Direction.down).1)
    lowered = move-IsGame s Direction.down h (unfold step_of in omega arith)

rotate-shape : (g : Grid) (b : Block) (n : ℤ) → (grid_block_rotate g b n).1.shape ≡ b.shape
unfolding grid_block_rotate shift turn
rotate-shape g b n = ground arith

rotation_small : (r s : ℕ) → r % shape_num_rotations s < 256
unfolding shape_num_rotations
rotation_small r s = ground arith

rotate-IsPlayable :
    (s : Game)
    → IsPlayable s
    → IsPlayable (put_block s (grid_block_rotate s.grid s.current_block (pos 1)).1)
rotate-IsPlayable s p =
    elim (grid_block_rotate-Rotates s.grid s.current_block p.fits (omega arith) p.turns) [
      | inl (fits, r) ↦ rw r (turned (pos 0) fits)
      | inr (_, inl (fits, r)) ↦ rw r (turned (negsuc 0) fits)
      | inr (_, inr (_, inl (fits, r))) ↦ rw r (turned (pos 1) fits)
      | inr (_, inr (_, inr (_, r))) ↦ rw r (record { fits = p.fits; low = p.low; turns = p.turns })
    ]
  where
    turned :
        (d : ℤ)
        → Fits s.grid (kicked d s.current_block)
        → IsPlayable (put_block s (kicked d s.current_block))
    turned d fits = record {
      fits = fits;
      low = p.low;
      turns = rotation_small (s.current_block.rot + 1) s.current_block.shape;
    }

pub rotate-IsGame :
    (s : Game)
    → IsGame s
    → s.game_state ≢ GameState.over
    → IsGame (put_block s (grid_block_rotate s.grid s.current_block (pos 1)).1)
rotate-IsGame s h ne = record {
  board =
      put_block-IsBoard s _ h.board
        (rw (rotate-shape s.grid s.current_block (pos 1)) h.board.current_shape);
  playable = λ _. rotate-IsPlayable s (h.playable ne);
}

pub hard_drop-IsGame :
    (s : Game) → IsGame s → s.game_state ≢ GameState.over → Returns IsGame (hard_drop s)
unfolding hard_drop
hard_drop-IsGame s h ne =
    let d =
      grid_block_drop-Drops s.grid s.current_block (h.playable ne).fits
        (omega (arith, h.playable ne)) in
    rw d.result (
      then_gives _ _
        (lock-IsGame _ (
          score-IsBoard (d.fall * 2) (put_block s (fallen d.fall s.current_block))
            (put_block-IsBoard s (fallen d.fall s.current_block) h.board h.board.current_shape)))
        (λ x ok. gives _ (clocks-IsGame x x.soft_tick x.reads x.soft_tick ok)))
