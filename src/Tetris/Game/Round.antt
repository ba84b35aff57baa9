-- ===== src/Tetris/Game/Round.antt =====
-- The rounds of `game_loop`, as a relation on the states that it passes through.
use mycpu_4soc_game_port.Common.{
  ℕ, ◌+◌, ◌%◌, ◌≡◌, ◌≢◌, ◌⊎◌, refl, sym, subst, ◌∙◌, arith, Bool, true, false, ◌==◌, if◌then◌else◌,
  inl, inr, Option, some, u32,
}
use mycpu_4soc_game_port.Common.Outcome.{Returns, gives, then_gives}
use mycpu_4soc_game_port.Tetris.Types.{GameState, Input}
use mycpu_4soc_game_port.Tetris.Keys.{Loads, input_poll}
use mycpu_4soc_game_port.Tetris.Game.{Game, move_down, reset_timer, poll_paused, game_round}
use mycpu_4soc_game_port.Tetris.Game.Board.{IsGame}
use mycpu_4soc_game_port.Tetris.Game.Moves.{
  state-IsBoard, quit-IsGame, clocks-IsGame, move_down-IsGame,
}
use mycpu_4soc_game_port.Tetris.Game.Update.{game_update-IsGame}

-- The state after some rounds, each made while the game is not over.
pub data Run (load : Loads) (first : ℕ × Game) : ℕ × Game → Type 0 where
  start : Run load first first
  round :
      (c d : ℕ × Game)
      → Run load first c
      → c.1.game_state ≢ GameState.over
      → game_round load c ≡ some d
      → Run load first d

abbrev pub Sound : ℕ × Game → Type 0
Sound c = IsGame c.1

resume-IsGame :
    (s : Game)
    → IsGame s
    → s.game_state ≡ GameState.paused
    → IsGame (record s { game_state = GameState.playing })
resume-IsGame s h e = record {
  board = state-IsBoard GameState.playing s h.board;
  playable =
      λ _. let p = h.playable paused in record { fits = p.fits; low = p.low; turns = p.turns };
}
  where
    paused : s.game_state ≢ GameState.over
    paused e' = absurd (ground arith)

after_key :
    (key : Input) (s : Game)
    → IsGame s
    → s.game_state ≡ GameState.paused
    → IsGame (elim key [
      | Input.pause ↦ reset_timer (record s { game_state = GameState.playing })
      | Input.quit ↦ record s { game_state = GameState.over }
      | _ ↦ s
    ])
after_key Input.none s h e = h
after_key Input.left s h e = h
after_key Input.right s h e = h
after_key Input.rotate s h e = h
after_key Input.soft_drop s h e = h
after_key Input.hard_drop s h e = h
after_key Input.pause s h e = clocks-IsGame _ s.soft_tick s.reads s.soft_tick (resume-IsGame s h e)
after_key Input.quit s h e = quit-IsGame s h

poll_paused-IsGame :
    (load : Loads) (s : Game)
    → IsGame s
    → s.game_state ≡ GameState.paused
    → IsGame (poll_paused load s)
unfolding poll_paused
poll_paused-IsGame load s h e =
    let (key, reads) = input_poll load s.reads in
    after_key key (record s { reads = reads })
      (clocks-IsGame s s.last_drop_time reads s.soft_tick h) e

three : (t : GameState) → (t ≡ GameState.playing) ⊎ (t ≡ GameState.paused) ⊎ (t ≡ GameState.over)
three GameState.playing = inl refl
three GameState.paused = inr (inl refl)
three GameState.over = inr (inr refl)

tick-Sound :
    (c : ℕ × Game) → Sound c → Sound (c.0, record c.1 { soft_tick = u32 (c.1.soft_tick + 1) })
tick-Sound c h = clocks-IsGame c.1 c.1.last_drop_time c.1.reads (u32 (c.1.soft_tick + 1)) h

sometimes_down :
    (b : Bool) (s : Game) → IsGame s → Returns IsGame (if b then move_down s else some s)
sometimes_down true s h = move_down-IsGame s h
sometimes_down false s h = gives s h

pub game_round-IsGame : (load : Loads) (c : ℕ × Game) → Sound c → Returns Sound (game_round load c)
unfolding game_round
game_round-IsGame load (n, s) h = elim (three s.game_state) [
  | inl e ↦ rw e (
      then_gives _ _
        (then_gives _ _ (game_update-IsGame load s h) (λ x ok.
          then_gives _ _ (sometimes_down (u32 (n + 1) % 50000 == 0) x ok)
            (λ y ok'. gives {P = Sound} (u32 (n + 1), y) ok')))
        (λ c ok. gives _ (tick-Sound c ok)))
  | inr (inl e) ↦
      rw e (gives _ (tick-Sound (n, poll_paused load s) (poll_paused-IsGame load s h e)))
  | inr (inr e) ↦ rw e (gives _ (tick-Sound (n, s) h))
]

same_some : {A : Type 0} (x y : A) → some x ≡ some y → x ≡ y
same_some x y e = cc

-- What is known of the result holds of the value that was returned.
returned-holds : (r : Option (ℕ × Game)) (d : ℕ × Game) → Returns Sound r → r ≡ some d → Sound d
returned-holds r d h e = subst Sound (same_some h.out d (sym h.returns ∙ e)) h.holds

-- In every state that `game_loop` passes through, started in a state with the game's invariant,
-- the invariant holds (so the moving block fits until the game is over), and the next round
-- returns.
pub game_loop-IsGame :
    (load : Loads) (first c : ℕ × Game)
    → IsGame first.1
    → Run load first c
    → IsGame c.1 × Returns Sound (game_round load c)
game_loop-IsGame load first c h start = (h, game_round-IsGame load c h)
game_loop-IsGame load first _ h (round c d run ne e) =
    let before = game_loop-IsGame load first c h run in
    let sound = returned-holds _ d (game_round-IsGame load c before.0) e in
    (sound, game_round-IsGame load d sound)
