-- ===== src/UartTest/Silent.antt =====
-- The test of 4-soc/csrc/uart.c on a device from which nothing comes back.
use mycpu_4soc_game_port.Common.{
  ℕ, zero, suc, ◌<◌, ◌≡◌, refl, arith, Bool, true, false, some, List, [], ◌∷◌,
}
use mycpu_4soc_game_port.Common.Outcome.{Returns, gives, then_gives}
use mycpu_4soc_game_port.UartTest.{
  Device, is_rx_valid, uart_getc_with_timeout, drain_loop, uart_drain_rx, test_tx, echo, rx_loop,
  test_multi_byte_rx, test_binary_rx, test_timeout_rx, main,
}
use mycpu_4soc_game_port.UartTest.Loopback.{Accepts, uart_putc-Returns, send_all-Returns}

module _ (d : Device) (fuel : ℕ) (silent : (s : d.State) → is_rx_valid (d.read_status s).0 ≡ false)
    (accepts : (s : d.State) → (k : ℕ) × (k < fuel) × Accepts d k s) where
  getc_times_out : (timeout : ℕ) (s : d.State) → (uart_getc_with_timeout d timeout s).1 ≡ true
  unfolding uart_getc_with_timeout
  getc_times_out zero s = refl
  getc_times_out (suc timeout) s = rw (silent s) (getc_times_out timeout _)

  Fails : Bool × d.State → Type 0
  Fails got = got.0 ≡ false

  echo-Fails : (timeout b : ℕ) (s : d.State) → Returns Fails (echo d fuel timeout b s)
  unfolding echo Fails
  echo-Fails timeout b s =
      let ready = accepts s in
      then_gives _ _
        (uart_putc-Returns d (λ t. Unit {0}) ready.0 fuel b s (λ t p. tt) tt ready.1 ready.2)
        (λ t sent. gives _ (rw (getc_times_out timeout (d.delay 20 t)) refl))

  Counts : ℕ → ℕ × d.State → Type 0
  Counts n got = got.0 ≡ n

  rx_loop-Counts :
      (bytes : List ℕ) (n : ℕ) (s : d.State) → Returns (Counts n) (rx_loop d fuel bytes n s)
  unfolding rx_loop Fails Counts
  rx_loop-Counts [] n s = gives _ refl
  rx_loop-Counts (b ∷ bs) n s =
      then_gives _ _ (echo-Fails 1000 b s) (λ got lost. rw lost (rx_loop-Counts bs n got.1))

  tx-Counts : (s : d.State) → Returns (Counts 1) (test_tx d fuel s)
  unfolding test_tx uart_drain_rx drain_loop Counts
  tx-Counts s = then_gives _ _ (send_all-Returns d fuel _ s accepts) (λ sent _.
      then_gives _ _ (drained fuel (d.delay 10000 sent) (accepts sent).0 (accepts sent).1)
        (λ t _. gives _ refl))
    where
      drained :
          (fuel : ℕ) (t : d.State) (k : ℕ)
          → k < fuel
          → Returns (λ t. Unit {0}) (drain_loop d fuel t)
      drained zero t k h = absurd (omega arith)
      drained (suc fuel) t k h = rw (silent t) (gives _ tt)

  multi-Counts : (s : d.State) → Returns (Counts 0) (test_multi_byte_rx d fuel s)
  unfolding test_multi_byte_rx Counts
  multi-Counts s =
      then_gives _ _ (rx_loop-Counts _ 0 s) (λ got none_back. gives _ (rw none_back refl))

  binary-Counts : (s : d.State) → Returns (Counts 0) (test_binary_rx d fuel s)
  unfolding test_binary_rx Counts
  binary-Counts s =
      then_gives _ _ (rx_loop-Counts _ 0 s) (λ got none_back. gives _ (rw none_back refl))

  timeout-Counts : (s : d.State) → Returns (Counts 0) (test_timeout_rx d fuel s)
  unfolding test_timeout_rx Fails Counts
  timeout-Counts s = then_gives _ _ (echo-Fails 200 b'T' s) (λ got lost. gives _ (rw lost refl))

  -- On a device whose receiver never has a byte, and whose transmitter becomes ready within the fuel,
  -- the test does not hang: every wait for a byte times out, and the test stores that it is done and
  -- that only its first part has passed.
  pub main_times_out :
      (s : d.State) → main d fuel s ≡ some (record { test_result = 1; test_done_flag = 0xCAFEF00D })
  unfolding main Counts
  main_times_out s =
      let tx = tx-Counts (d.write_enable 1 (d.write_baudrate 115200 s)) in
      let multi = multi-Counts tx.out.1 in
      let binary = binary-Counts multi.out.1 in
      let last = timeout-Counts binary.out.1 in
      rw
        (
          tx.returns, multi.returns, binary.returns, last.returns, tx.holds, multi.holds,
          binary.holds, last.holds,
        )
        refl
