-- ===== src/UartTest/Loopback.antt =====
-- The test of 4-soc/csrc/uart.c on a device that sends back what it is sent.
use mycpu_4soc_game_port.Common.{
  ℕ, zero, suc, ◌+◌, ◌<◌, ◌≤◌, ◌≡◌, refl, arith, bit_and, Bool, true, false, ◌==◌, some, List, [],
  ◌∷◌,
}
use mycpu_4soc_game_port.Common.Outcome.{Returns, gives, then_gives}
use mycpu_4soc_game_port.UartTest.{
  Device, is_tx_ready, is_rx_valid, uart_putc, uart_getc_with_timeout, drain_loop, uart_drain_rx,
  send_all, test_tx, echo, rx_loop, test_multi_byte_rx, test_binary_rx, test_timeout_rx, main,
}

module _ (d : Device) where
  -- The transmitter becomes ready at the last of the reads of the status.
  abbrev pub Accepts : ℕ → d.State → Type 0
  Accepts zero s = is_tx_ready (d.read_status s).0 ≡ true
  Accepts (suc k) s = (is_tx_ready (d.read_status s).0 ≡ false) × Accepts k (d.read_status s).1

  module _ (Quiet : d.State → Type 0) where
    -- After as many reads of the receiver there is nothing more to receive.
    abbrev pub Empties : ℕ → d.State → Type 0
    Empties zero s = (is_rx_valid (d.read_status s).0 ≡ false) × Quiet (d.read_status s).1
    Empties (suc k) s =
        (is_rx_valid (d.read_status s).0 ≡ true)
        × Empties k (d.delay 100 (d.read_recv (d.read_status s).1).1)

    -- The byte is there at the last of the polls.
    abbrev pub Arrives : ℕ → ℕ → d.State → Type 0
    Arrives b zero s =
        (is_rx_valid (d.read_status s).0 ≡ true)
        × (bit_and (d.read_recv (d.read_status s).1).0 0xFF ≡ b)
        × Quiet (d.read_recv (d.read_status s).1).1
    Arrives b (suc k) s =
        (is_rx_valid (d.read_status s).0 ≡ false) × Arrives b k (d.delay 10 (d.read_status s).1)

  -- A device whose transmitter becomes ready and whose receiver empties in a bounded number of reads,
  -- and which gives a byte back within 200 polls when nothing else was on its way.
  pub record Loopback (bound : ℕ) : Type 1 where
    pub Quiet : d.State → Type 0
    pub accepts : (s : d.State) → (k : ℕ) × (k < bound) × Accepts k s
    pub empties : (s : d.State) → (k : ℕ) × (k < bound) × Empties Quiet k (d.delay 10000 s)
    pub quiet_read : (s : d.State) → Quiet s → Quiet (d.read_status s).1
    pub arrives :
        (b : ℕ) (s : d.State)
        → b < 256
        → Quiet s
        → (k : ℕ) × (k < 200) × Arrives Quiet b k (d.delay 20 (d.send b s))

  -- A byte is sent from a state that reads of the status lead to.
  pub record IsSent (P : d.State → Type 0) (byte : ℕ) (s : d.State) : Type 0 where
    pub before : d.State
    pub holds_before : P before
    pub sent : s ≡ d.send byte before

  pub uart_putc-Returns :
      (P : d.State → Type 0) (k fuel byte : ℕ) (s : d.State)
      → ((t : d.State) → P t → P (d.read_status t).1)
      → P s
      → k < fuel
      → Accepts k s
      → Returns (IsSent P byte) (uart_putc d fuel byte s)
  unfolding uart_putc
  uart_putc-Returns P k zero byte s keeps p h a = absurd (omega arith)
  uart_putc-Returns P zero (suc fuel) byte s keeps p h a =
      rw a
        (gives _ (record { before = (d.read_status s).1; holds_before = keeps s p; sent = refl }))
  uart_putc-Returns P (suc k) (suc fuel) byte s keeps p h a =
      rw a.0
        (uart_putc-Returns P k fuel byte (d.read_status s).1 keeps (keeps s p) (omega arith) a.1)

  pub send_all-Returns :
      (fuel : ℕ) (bytes : List ℕ) (s : d.State)
      → ((t : d.State) → (k : ℕ) × (k < fuel) × Accepts k t)
      → Returns (λ t. Unit {0}) (send_all d fuel bytes s)
  unfolding send_all
  send_all-Returns fuel [] s accepts = gives s tt
  send_all-Returns fuel (byte ∷ p) s accepts =
      let ready = accepts s in
      then_gives _ _
        (uart_putc-Returns (λ t. Unit {0}) ready.0 fuel byte s (λ t p. tt) tt ready.1 ready.2)
        (λ t sent. send_all-Returns fuel p t accepts)

  module _ (bound : ℕ) (l : Loopback bound) where
    drain_loop-Returns :
        (k fuel : ℕ) (s : d.State)
        → k < fuel
        → Empties l.Quiet k s
        → Returns l.Quiet (drain_loop d fuel s)
    unfolding drain_loop
    drain_loop-Returns k zero s h e = absurd (omega arith)
    drain_loop-Returns zero (suc fuel) s h e = rw e.0 (gives _ e.1)
    drain_loop-Returns (suc k) (suc fuel) s h e =
        rw e.0 (drain_loop-Returns k fuel _ (omega arith) e.1)

    record Gets (b : ℕ) (got : ℕ × Bool × d.State) : Type 0 where
      pub value : got.0 ≡ b
      pub in_time : got.1 ≡ false
      pub quiet : l.Quiet got.2

    getc-Gets :
        (b k timeout : ℕ) (s : d.State)
        → k < timeout
        → Arrives l.Quiet b k s
        → Gets b (uart_getc_with_timeout d timeout s)
    unfolding uart_getc_with_timeout
    getc-Gets b k zero s h a = absurd (omega arith)
    getc-Gets b zero (suc timeout) s h a =
        rw a.0 (record { value = a.1; in_time = refl; quiet = a.2 })
    getc-Gets b (suc k) (suc timeout) s h a = rw a.0 (getc-Gets b k timeout _ (omega arith) a.1)

    -- The byte came back, and nothing is on its way.
    IsEcho : Bool × d.State → Type 0
    IsEcho got = (got.0 ≡ true) × l.Quiet got.1

    echo-IsEcho :
        (timeout b : ℕ) (s : d.State)
        → 200 ≤ timeout
        → b < 256
        → l.Quiet s
        → Returns IsEcho (echo d bound timeout b s)
    unfolding echo IsEcho
    echo-IsEcho timeout b s h small q =
        let ready = l.accepts s in
        then_gives _ _ (uart_putc-Returns l.Quiet ready.0 bound b s l.quiet_read q ready.1 ready.2)
          (λ t sent.
            let back = l.arrives b sent.before small sent.holds_before in
            let got =
              getc-Gets b back.0 timeout (d.delay 20 (d.send b sent.before)) (omega (arith, back.1))
                back.2 in
            let same : (b == b) ≡ true = ground arith in
            gives _ (rw (sent.sent, got.value, got.in_time, same) (refl, got.quiet)))

    AreBytes : List ℕ → Type 0
    AreBytes [] = Unit {0}
    AreBytes (b ∷ bs) = (b < 256) × AreBytes bs

    abbrev count : List ℕ → ℕ → ℕ
    count [] n = n
    count (b ∷ bs) n = count bs (n + 1)

    rx_loop-Returns :
        (bytes : List ℕ) (n : ℕ) (s : d.State)
        → AreBytes bytes
        → l.Quiet s
        → Returns (λ got. (got.0 ≡ count bytes n) × l.Quiet got.1) (rx_loop d bound bytes n s)
    unfolding rx_loop AreBytes IsEcho
    rx_loop-Returns [] n s small q = gives _ (refl, q)
    rx_loop-Returns (b ∷ bs) n s small q =
        then_gives _ _ (echo-IsEcho 1000 b s (omega arith) small.0 q)
          (λ got back. rw back.0 (rx_loop-Returns bs (n + 1) got.1 small.1 back.1))

    Passes : ℕ × d.State → Type 0
    Passes got = (got.0 ≡ 1) × l.Quiet got.1

    tx-Passes : (s : d.State) → Returns Passes (test_tx d bound s)
    unfolding test_tx uart_drain_rx Passes
    tx-Passes s = then_gives _ _ (send_all-Returns bound _ s l.accepts) (λ sent _.
        let clear = l.empties sent in
        then_gives _ _ (drain_loop-Returns clear.0 bound _ clear.1 clear.2)
          (λ drained q. gives _ (refl, q)))

    multi-Passes : (s : d.State) → l.Quiet s → Returns Passes (test_multi_byte_rx d bound s)
    unfolding test_multi_byte_rx Passes AreBytes
    multi-Passes s q =
        then_gives _ _
          (rx_loop-Returns (b'H' ∷ b'E' ∷ b'L' ∷ b'L' ∷ b'O' ∷ []) 0 s
            (omega arith, (omega arith, (omega arith, (omega arith, (omega arith, tt))))) q)
          (λ got all. gives _ (rw all.0 (refl, all.1)))

    binary-Passes : (s : d.State) → l.Quiet s → Returns Passes (test_binary_rx d bound s)
    unfolding test_binary_rx Passes AreBytes
    binary-Passes s q =
        then_gives _ _
          (rx_loop-Returns (0x00 ∷ 0x01 ∷ 0x7F ∷ 0x80 ∷ 0xFF ∷ []) 0 s
            (omega arith, (omega arith, (omega arith, (omega arith, (omega arith, tt))))) q)
          (λ got all. gives _ (rw all.0 (refl, all.1)))

    timeout-Passes : (s : d.State) → l.Quiet s → Returns Passes (test_timeout_rx d bound s)
    unfolding test_timeout_rx Passes IsEcho
    timeout-Passes s q =
        then_gives _ _ (echo-IsEcho 200 b'T' s (omega arith) (omega arith) q)
          (λ got back. gives _ (rw back.0 (refl, back.1)))

    -- On a device whose transmitter becomes ready within `bound` reads of the status, whose receiver,
    -- behind the delay of 10000, is empty after fewer than `bound` bytes, and which gives back a byte
    -- that was sent with nothing else on its way within 200 polls behind the delay of 20, the test
    -- with `bound` as fuel ends and stores that it is done and that all of its four parts have
    -- passed, whatever state the device starts in.
    pub main_passes :
        (s : d.State)
        → main d bound s ≡ some (record { test_result = 15; test_done_flag = 0xCAFEF00D })
    unfolding main Passes
    main_passes s =
        let tx = tx-Passes (d.write_enable 1 (d.write_baudrate 115200 s)) in
        let multi = multi-Passes tx.out.1 tx.holds.1 in
        let binary = binary-Passes multi.out.1 multi.holds.1 in
        let last = timeout-Passes binary.out.1 binary.holds.1 in
        rw
          (
            tx.returns, multi.returns, binary.returns, last.returns, tx.holds.0, multi.holds.0,
            binary.holds.0, last.holds.0,
          )
          refl
