-- ===== src/UartTest.antt =====
-- The test of the UART, 4-soc/csrc/uart.c. The device behind the registers is a parameter; a wait
-- that may not end has fuel, and is `none` when that runs out.
pub mod Loopback
pub mod Silent
use package.mycpu_4soc_game_port.Common.{
  ℕ, zero, suc, ◌+◌, bit_and, bit_or, Bool, true, false, not, ◌&&◌, ◌==◌, if◌then◌else◌, Option,
  none, some, ◌>>=◌, List, [], ◌∷◌,
}

-- What the reads and writes of the registers and the delays do.
pub record Device : Type 1 where
  pub State : Type 0
  pub read_status : State → ℕ × State
  pub read_recv : State → ℕ × State
  pub send : ℕ → State → State
  pub write_baudrate : ℕ → State → State
  pub write_enable : ℕ → State → State
  pub delay : ℕ → State → State

abbrev pub test_done_magic : ℕ
test_done_magic = 0xCAFEF00D

-- `*UART_STATUS & 0x01` and `*UART_STATUS & 0x02`
abbrev pub is_tx_ready : ℕ → Bool
is_tx_ready status = not (bit_and status 0x01 == 0)

abbrev pub is_rx_valid : ℕ → Bool
is_rx_valid status = not (bit_and status 0x02 == 0)

module _ (d : Device) where
  unfoldable pub uart_putc : ℕ → ℕ → d.State → Option d.State
  uart_putc zero byte s = none
  uart_putc (suc fuel) byte s =
      let read = d.read_status s in
      let rest = uart_putc fuel byte read.1 in
      if is_tx_ready read.0 then some (d.send byte read.1) else rest

  -- The byte that is returned, and what `*timed_out` then is.
  unfoldable pub uart_getc_with_timeout : ℕ → d.State → ℕ × Bool × d.State
  uart_getc_with_timeout zero s = (0, true, s)
  uart_getc_with_timeout (suc timeout) s =
      let read = d.read_status s in
      let received = d.read_recv read.1 in
      let rest = uart_getc_with_timeout timeout (d.delay 10 read.1) in
      if is_rx_valid read.0 then (bit_and received.0 0xFF, false, received.1) else rest

  unfoldable pub drain_loop : ℕ → d.State → Option d.State
  drain_loop zero s = none
  drain_loop (suc fuel) s =
      let read = d.read_status s in
      let rest = drain_loop fuel (d.delay 100 (d.read_recv read.1).1) in
      if is_rx_valid read.0 then rest else some read.1

  unfoldable pub uart_drain_rx : ℕ → d.State → Option d.State
  uart_drain_rx fuel s = drain_loop fuel (d.delay 10000 s)

  -- `while (*p) uart_putc(*p++);`
  unfoldable pub send_all : ℕ → List ℕ → d.State → Option d.State
  send_all fuel [] s = some s
  send_all fuel (byte ∷ p) s = uart_putc fuel byte s >>= send_all fuel p

  unfoldable pub test_tx : ℕ → d.State → Option (ℕ × d.State)
  test_tx fuel s =
      send_all fuel (b'U' ∷ b'A' ∷ b'R' ∷ b'T' ∷ b' ' ∷ b'O' ∷ b'K' ∷ b'\n' ∷ []) s >>= λ sent.
      uart_drain_rx fuel sent >>= λ drained. some (1, drained)

  -- A byte is sent, and whether the same byte came back in time.
  unfoldable pub echo : ℕ → ℕ → ℕ → d.State → Option (Bool × d.State)
  echo fuel timeout sent s = uart_putc fuel sent s >>= λ waiting.
      let got = uart_getc_with_timeout timeout (d.delay 20 waiting) in
      some (not got.1 && (got.0 == sent), got.2)

  -- The loop over the bytes of a test, with the successes so far.
  unfoldable pub rx_loop : ℕ → List ℕ → ℕ → d.State → Option (ℕ × d.State)
  rx_loop fuel [] success_count s = some (success_count, s)
  rx_loop fuel (sent ∷ rest) success_count s = echo fuel 1000 sent s >>= λ got.
      rx_loop fuel rest (if got.0 then success_count + 1 else success_count) got.1

  unfoldable pub test_multi_byte_rx : ℕ → d.State → Option (ℕ × d.State)
  test_multi_byte_rx fuel s = rx_loop fuel (b'H' ∷ b'E' ∷ b'L' ∷ b'L' ∷ b'O' ∷ []) 0 s >>= λ got.
      some (if got.0 == 5 then 1 else 0, got.1)

  unfoldable pub test_binary_rx : ℕ → d.State → Option (ℕ × d.State)
  test_binary_rx fuel s = rx_loop fuel (0x00 ∷ 0x01 ∷ 0x7F ∷ 0x80 ∷ 0xFF ∷ []) 0 s >>= λ got.
      some (if got.0 == 5 then 1 else 0, got.1)

  unfoldable pub test_timeout_rx : ℕ → d.State → Option (ℕ × d.State)
  test_timeout_rx fuel s = echo fuel 200 b'T' s >>= λ got. some (if got.0 then 1 else 0, got.1)

  -- The words that `main` stores for the test harness.
  pub record Verdict : Type 0 where
    pub test_result : ℕ
    pub test_done_flag : ℕ

  -- `if (test()) result |= bit;`
  abbrev pub mark : ℕ → ℕ → ℕ → ℕ
  mark passed bit result = if passed == 0 then result else bit_or result bit

  unfoldable pub main : ℕ → d.State → Option Verdict
  main fuel s = test_tx fuel (d.write_enable 1 (d.write_baudrate 115200 s)) >>= λ tx.
      test_multi_byte_rx fuel tx.1 >>= λ multi. test_binary_rx fuel multi.1 >>= λ binary.
      test_timeout_rx fuel binary.1 >>= λ last. some (record {
        test_result = mark last.0 8 (mark binary.0 4 (mark multi.0 2 (mark tx.0 1 0)));
        test_done_flag = test_done_magic;
      })
