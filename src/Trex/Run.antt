-- ===== src/Trex/Run.antt =====
-- Rounds of the dinosaur game, and the places of its two figures.
use mycpu_4soc_game_port.Common.{
  ℕ, zero, suc, ◌+◌, ◌≤◌, ◌<◌, ◌≡◌, ◌⊎◌, refl, arith, bit_and, Bool, true, false, ◌&&◌, ◌||◌, ◌==◌,
  ltb, ◌++◌, if◌then◌else◌, Bool-cases, inl, inr,
}
use mycpu_4soc_game_port.Common.Int.{
  ℤ, pos, negsuc, neg_part, ◌+ℤ◌, ◌-ℤ◌, ◌≤ℤ◌, ltb_ℤ, leb_ℤ, int_laws,
}
use mycpu_4soc_game_port.Common.Outcome.{Returns, gives, then_gives}
use mycpu_4soc_game_port.Tetris.Keys.{Loads}
use mycpu_4soc_game_port.Tetris.Draw.{Frame}
use mycpu_4soc_game_port.Trex.Frames.{draw_init_buffers}
use mycpu_4soc_game_port.Trex.Start.{
  main_palette, start_message, first_scene, run_rounds, run_trex, main,
}
use mycpu_4soc_game_port.Trex.{
  Trex, ground_y, jump_impulse, press, handle_input, update_physics, is_hit, await_byte, draw_die,
  meet_cactus, move_cactus, draw_scene, trex_round,
}

-- The rows that a jump still rises with `n` rows per round, one row less in each.
abbrev pub rise : ℕ → ℕ
rise zero = 0
rise (suc n) = suc n + rise n

-- The dinosaur is at row 50 or above it, and will not rise above row 29; the cactus is from 8
-- columns left of the screen to the column after it.
pub record IsRunning (s : Trex) : Type 0 where
  pub ground : s.dino_y ≤ℤ pos 50
  pub height : pos (29 + rise (neg_part s.y_velocity)) ≤ℤ s.dino_y
  pub left : negsuc 7 ≤ℤ s.cactus_x
  pub right : s.cactus_x ≤ℤ pos 64
  pub down : s.setdown_times ≤ 2

speed-IsRunning :
    (v : ℤ) (d : ℕ) (s : Trex)
    → IsRunning s
    → pos (29 + rise (neg_part v)) ≤ℤ s.dino_y
    → d ≤ 2
    → IsRunning (record s { y_velocity = v; setdown_times = d })
speed-IsRunning v d s h room few = record {
  ground = h.ground;
  height = room;
  left = h.left;
  right = h.right;
  down = few;
}

-- The jump starts on the ground, and 's' never lifts.
jump-IsRunning :
    (b : Bool) (s : Trex)
    → IsRunning s
    → (b && (leb_ℤ s.dino_y ground_y && leb_ℤ ground_y s.dino_y) ≡ true)
      ⊎ (b && (leb_ℤ s.dino_y ground_y && leb_ℤ ground_y s.dino_y) ≡ false)
    → IsRunning (
        if b && (leb_ℤ s.dino_y ground_y && leb_ℤ ground_y s.dino_y)
        then record s { y_velocity = jump_impulse; setdown_times = 0 }
        else s)
jump-IsRunning b s h (inl e) =
    rw e (speed-IsRunning jump_impulse 0 s h (ground (arith, e)) (omega arith))
jump-IsRunning b s h (inr e) = rw e h

duck-IsRunning :
    (s : Trex)
    → IsRunning s
    → IsRunning (
        if ltb_ℤ s.dino_y ground_y
        then record s { y_velocity = pos 4 }
        else record s { setdown_times = 2 })
duck-IsRunning s h = elim (Bool-cases (ltb_ℤ s.dino_y ground_y)) [
  | inl e ↦ rw e (speed-IsRunning (pos 4) s.setdown_times s h (omega (arith, h.height)) h.down)
  | inr e ↦ rw e (speed-IsRunning s.y_velocity 2 s h h.height (omega arith))
]

press-IsRunning : (key : ℕ) (s : Trex) → IsRunning s → IsRunning (press key s)
unfolding press
press-IsRunning key s h = elim (Bool-cases (key == b's')) [
  | inl e ↦ rw e (duck-IsRunning _ jumped)
  | inr e ↦ rw e jumped
]
  where
    on_key : Bool
    on_key = key == b'w' || key == b' '

    jumped : IsRunning (
        if on_key && (leb_ℤ s.dino_y ground_y && leb_ℤ ground_y s.dino_y)
        then record s { y_velocity = jump_impulse; setdown_times = 0 }
        else s)
    jumped = jump-IsRunning on_key s h (Bool-cases _)

-- One round of gravity takes one row off what is still to rise.
rise_step : (v : ℤ) → rise (neg_part v) ≡ neg_part v + rise (neg_part (v +ℤ pos 1))
unfolding ◌+ℤ◌
rise_step (pos n) = ground arith
rise_step (negsuc zero) = refl
rise_step (negsuc (suc n)) = ground arith

update_physics-IsRunning : (s : Trex) → IsRunning s → IsRunning (update_physics s)
unfolding update_physics
update_physics-IsRunning s h = elim (Bool-cases (ltb_ℤ (s.dino_y +ℤ s.y_velocity) ground_y)) [
  | inl e ↦ rw e (record {
    ground = ground (arith, e);
    height = omega (int_laws, rise_step s.y_velocity);
    left = h.left;
    right = h.right;
    down = h.down;
  })
  | inr e ↦ rw e (record {
    ground = omega arith;
    height = omega arith;
    left = h.left;
    right = h.right;
    down = h.down;
  })
]

-- The UART has a byte at the last of the reads.
abbrev pub KeyAfter : ℕ → Loads → ℕ → Type 0
KeyAfter zero load n = (bit_and (load n) 2 == 0) ≡ false
KeyAfter (suc k) load n = ((bit_and (load n) 2 == 0) ≡ true) × KeyAfter k load (n + 1)

await_byte-Returns :
    (k fuel : ℕ) (load : Loads) (n : ℕ)
    → k < fuel
    → KeyAfter k load n
    → Returns (λ reads. reads ≡ n + k + 1) (await_byte fuel load n)
unfolding await_byte
await_byte-Returns k zero load n h key = absurd (omega arith)
await_byte-Returns zero (suc fuel) load n h key = rw key (gives _ (omega arith))
await_byte-Returns (suc k) (suc fuel) load n h key =
    let rest = await_byte-Returns k fuel load (n + 1) (omega arith) key.1 in
    rw key.0 (record { out = rest.out; returns = rest.returns; holds = omega (arith, rest.holds) })

-- From every read on, the UART has a byte within fewer than `fuel` reads.
abbrev pub KeysCome : ℕ → Loads → Type 0
KeysCome fuel load = (n : ℕ) → (k : ℕ) × (k < fuel) × KeyAfter k load n

meet_cactus-IsRunning :
    (fuel : ℕ) (load : Loads) (s : Trex)
    → KeysCome fuel load
    → IsRunning s
    → Returns IsRunning (meet_cactus fuel load s)
unfolding meet_cactus draw_die
meet_cactus-IsRunning fuel load s keys h =
    let key = keys s.reads in
    elim (Bool-cases (is_hit s)) [
      | inl e ↦ rw e (
          then_gives _ _ (await_byte-Returns key.0 fuel load s.reads key.1 key.2) (λ reads _.
            gives _ (record {
              ground = h.ground;
              height = h.height;
              left = omega arith;
              right = omega arith;
              down = h.down;
            })))
      | inr e ↦ rw e (gives s h)
    ]

move_cactus-IsRunning : (s : Trex) → IsRunning s → IsRunning (move_cactus s)
unfolding move_cactus
move_cactus-IsRunning s h = elim (Bool-cases (ltb_ℤ (s.cactus_x -ℤ pos 1) (negsuc 7))) [
  | inl e ↦ rw e (record {
    ground = h.ground;
    height = h.height;
    left = omega arith;
    right = omega arith;
    down = h.down;
  })
  | inr e ↦ rw e (record {
    ground = h.ground;
    height = h.height;
    left = ground (arith, e);
    right = omega (int_laws);
    down = h.down;
  })
]

draw_scene-IsRunning : (s : Trex) → IsRunning s → IsRunning (draw_scene s)
unfolding draw_scene
draw_scene-IsRunning s h = elim (Bool-cases (ltb 0 s.setdown_times)) [
  | inl e ↦ rw e (record {
    ground = h.ground;
    height = h.height;
    left = h.left;
    right = h.right;
    down = omega arith;
  })
  | inr e ↦ rw e (record {
    ground = h.ground;
    height = h.height;
    left = h.left;
    right = h.right;
    down = h.down;
  })
]

reads-IsRunning : (n : ℕ) (s : Trex) → IsRunning s → IsRunning (record s { reads = n })
reads-IsRunning n s h = record {
  ground = h.ground;
  height = h.height;
  left = h.left;
  right = h.right;
  down = h.down;
}

handle_input-IsRunning : (load : Loads) (s : Trex) → IsRunning s → IsRunning (handle_input load s)
unfolding handle_input
handle_input-IsRunning load s h = elim (Bool-cases (bit_and (load s.reads) 2 == 0)) [
  | inl e ↦ rw e (reads-IsRunning (s.reads + 1) s h)
  | inr e ↦
      rw e
        (press-IsRunning (bit_and (load (s.reads + 1)) 255) _ (reads-IsRunning (s.reads + 2) s h))
]

trex_round-IsRunning :
    (fuel : ℕ) (load : Loads) (s : Trex)
    → KeysCome fuel load
    → IsRunning s
    → Returns IsRunning (trex_round fuel load s)
unfolding trex_round
trex_round-IsRunning fuel load s keys h =
    let before = update_physics-IsRunning _ (handle_input-IsRunning load s h) in
    then_gives _ _ (meet_cactus-IsRunning fuel load _ keys before) (λ met running.
      let drawn = draw_scene-IsRunning _ (move_cactus-IsRunning met running) in
      gives _ (record {
        ground = drawn.ground;
        height = drawn.height;
        left = drawn.left;
        right = drawn.right;
        down = drawn.down;
      }))

run_rounds-IsRunning :
    (fuel n : ℕ) (load : Loads) (s : Trex)
    → KeysCome fuel load
    → IsRunning s
    → Returns IsRunning (run_rounds fuel n load s)
unfolding run_rounds
run_rounds-IsRunning fuel zero load s keys h = gives s h
run_rounds-IsRunning fuel (suc n) load s keys h =
    then_gives _ _ (trex_round-IsRunning fuel load s keys h)
      (λ next running. run_rounds-IsRunning fuel n load next keys running)

-- The dinosaur and the cactus are where a round clears the picture or leaves it as it is.
pub record IsInside (s : Trex) : Type 0 where
  pub high : pos 29 ≤ℤ s.dino_y
  pub low : s.dino_y ≤ℤ pos 50
  pub left : negsuc 7 ≤ℤ s.cactus_x
  pub right : s.cactus_x ≤ℤ pos 64

-- When from every read on the UART has a byte within fewer reads than the fuel, so that the wait of
-- `main` and those after a hit end, `main` makes any number of rounds, and whatever the keys are and
-- in whatever round they come: after it the top row of the dinosaur is from 29 to 50, so its eight
-- rows are among the rows 28 to 57 that each round clears, and the cactus is from column -8 to
-- column 64.
pub main-IsInside :
    (fuel rounds : ℕ) (load : Loads) (fb : Frame)
    → KeysCome fuel load
    → Returns IsInside (main fuel rounds load fb)
unfolding main run_trex
main-IsInside fuel rounds load fb keys =
    let key = keys 0 in
    then_gives _ _ (await_byte-Returns key.0 fuel load 0 key.1 key.2) (λ reads _.
      let started = draw_init_buffers fb in
      let first = first_scene start_message (main_palette ++ started.1) reads started.0 in
      let running : IsRunning first = record {
        ground = omega arith;
        height = omega arith;
        left = omega arith;
        right = omega arith;
        down = omega arith;
      } in
      let last = run_rounds-IsRunning fuel rounds load first keys running in
      record {
        out = last.out;
        returns = last.returns;
        holds = record {
          high = omega (arith, last.holds.height);
          low = last.holds.ground;
          left = last.holds.left;
          right = last.holds.right;
        };
      })
