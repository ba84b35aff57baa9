-- ===== src/Tetris/Keys/Decode.antt =====
-- `input_poll`, and the bytes that the UART delivers.
use mycpu_4soc_game_port.Common.{
  ℕ, zero, suc, ◌+◌, ◌≤◌, ◌<◌, bit_and, ◌≡◌, ◌≢◌, ◌⊎◌, refl, ap, ◌∙◌, arith, Bool-cases, inl, inr,
  ◌==◌,
}
use mycpu_4soc_game_port.Common.Int.{pos}
use mycpu_4soc_game_port.Tetris.Types.{Input}
use mycpu_4soc_game_port.Tetris.Keys.{
  Loads, uart_has_data, wait_loop, wait_rounds, uart_getc_nonblocking, arrow, escape, input_poll,
}

-- The n-th read is of a status with the receive bit.
abbrev pub IsReady : Loads → ℕ → Type 0
IsReady load n = bit_and (load n) 2 ≢ 0

-- `d` reads of a status without the bit, then one with it.
pub record Arrives (load : Loads) (n d : ℕ) : Type 0 where
  pub soon : d < 1000
  pub early : (i : ℕ) → i < d → bit_and (load (n + i)) 2 ≡ 0
  pub ready : IsReady load (n + d)

wait_loop_lem :
    (load : Loads) (left n d : ℕ)
    → d < left
    → ((i : ℕ) → i < d → bit_and (load (n + i)) 2 ≡ 0)
    → IsReady load (n + d)
    → wait_loop load left n ≡ n + d + 1
unfolding wait_loop uart_has_data
wait_loop_lem load zero n d h early ready = absurd (omega arith)
wait_loop_lem load (suc left) n zero h early ready =
    let e : n + 0 ≡ n = omega arith in ground (arith, ready, ap load e)
wait_loop_lem load (suc left) n (suc d) h early ready =
    let e : n + 0 ≡ n = omega arith in
    let shift : (i : ℕ) → n + 1 + i ≡ n + suc i = λ i. omega arith in
    let rest =
      wait_loop_lem load left (n + 1) d (omega arith)
        (λ i p. ap (λ k. bit_and (load k) 2) (shift i) ∙ early (suc i) (omega arith))
        (rw (shift d) ready) in
    ground (arith, early 0, ap load e, rest)

wait_bound :
    (load : Loads) (left n : ℕ) → (n ≤ wait_loop load left n) × (wait_loop load left n ≤ n + left)
unfolding wait_loop uart_has_data
wait_bound load zero n = omega arith
wait_bound load (suc left) n = ground (arith, wait_bound load left (n + 1))

getc_bound :
    (load : Loads) (n : ℕ) → let m = (uart_getc_nonblocking load n).1 in (n < m) × (m ≤ n + 2)
unfolding uart_getc_nonblocking uart_has_data
getc_bound load n = ground arith

-- `input_poll` makes at least one and at most 2006 reads of the UART, whatever they return: it
-- never blocks, even in the middle of an escape sequence.
pub input_poll_bound :
    (load : Loads) (n : ℕ) → (n < (input_poll load n).1) × ((input_poll load n).1 ≤ n + 2006)
unfolding input_poll escape uart_has_data
input_poll_bound load n = ground (
  arith,
  wait_bound load wait_rounds (n + 1 + 1),
  getc_bound load (wait_loop load wait_rounds (n + 1 + 1)),
  wait_bound load wait_rounds
      (uart_getc_nonblocking load (wait_loop load wait_rounds (n + 1 + 1))).1,
  getc_bound load (
      wait_loop load wait_rounds
        (uart_getc_nonblocking load (wait_loop load wait_rounds (n + 1 + 1))).1),
)

getc_ready :
    (load : Loads) (n m k : ℕ)
    → IsReady load n
    → m ≡ n + 1
    → k ≡ n + 2
    → uart_getc_nonblocking load n ≡ (pos (bit_and (load m) 255), k)
unfolding uart_getc_nonblocking uart_has_data
getc_ready load n m k h e e' =
    let two : n + 1 + 1 ≡ n + 2 = omega arith in rw (e, e') (ground arith)

wait-Arrives :
    (load : Loads) (n m k d : ℕ)
    → Arrives load n d
    → m ≡ n
    → k ≡ n + d + 1
    → wait_loop load wait_rounds m ≡ k
wait-Arrives load n m k d a e e' =
    rw (e, e') (wait_loop_lem load wait_rounds n d a.soon a.early a.ready)

-- The reads of one arrow key: the byte ESC at once, then `[` or `O` and the last byte, each after
-- fewer than 1000 reads of a status that shows no data, and still there at the read after.
pub record ArrowKey (load : Loads) (n d d' : ℕ) : Type 0 where
  pub first : IsReady load n
  pub escaped : bit_and (load (n + 1)) 255 ≡ b'\x1b'
  pub second : Arrives load (n + 2) d
  pub stays : IsReady load (n + d + 3)
  pub bracket : (bit_and (load (n + d + 4)) 255 ≡ b'[') ⊎ (bit_and (load (n + d + 4)) 255 ≡ b'O')
  pub third : Arrives load (n + d + 5) d'
  pub stays' : IsReady load (n + d + d' + 6)

-- The key that the last byte of an arrow key stands for.
abbrev pub Means : ℕ → Input → Type 0
Means b Input.rotate = b ≡ b'A'
Means b Input.soft_drop = b ≡ b'B'
Means b Input.right = b ≡ b'C'
Means b Input.left = b ≡ b'D'
Means b Input.none = (b ≢ b'A') × (b ≢ b'B') × (b ≢ b'C') × (b ≢ b'D')
Means b Input.hard_drop = ⊥
Means b Input.pause = ⊥
Means b Input.quit = ⊥

arrow-Means : (b : ℕ) → Means b (arrow (pos b))
unfolding arrow
arrow-Means b = elim (Bool-cases (b == b'A')) [
  | inl up ↦ rw up (ground arith)
  | inr not_up ↦ elim (Bool-cases (b == b'B')) [
    | inl down ↦ rw (not_up, down) (ground arith)
    | inr not_down ↦ elim (Bool-cases (b == b'C')) [
      | inl aside ↦ rw (not_up, not_down, aside) (ground arith)
      | inr not_aside ↦ elim (Bool-cases (b == b'D')) [
        | inl back ↦ rw (not_up, not_down, not_aside, back) (ground arith)
        | inr other ↦ rw (not_up, not_down, not_aside, other) (ground arith)
      ]
    ]
  ]
]

-- A call gives the key that the byte stands for, and the number of the next read.
pub record Presses (last next : ℕ) (result : Input × ℕ) : Type 0 where
  pub key : Input
  pub returns : result ≡ (key, next)
  pub means : Means last key

-- An arrow key whose bytes come one by one, each less than 1000 reads after the one before it, is
-- read as a whole: its last byte, A, B, C or D, gives rotate, soft drop, right and left, and any
-- other byte gives no key.
pub input_poll-arrow :
    (load : Loads) (n d d' : ℕ)
    → ArrowKey load n d d'
    → Presses (bit_and (load (n + d + d' + 7)) 255) (n + d + d' + 8) (input_poll load n)
unfolding input_poll escape uart_has_data
input_poll-arrow load n d d' k =
    let last = bit_and (load (n + d + d' + 7)) 255 in
    record { key = arrow (pos last); returns = whole; means = arrow-Means last }
  where
    whole : input_poll load n ≡ (arrow (pos (bit_and (load (n + d + d' + 7)) 255)), n + d + d' + 8)
    whole =
        let w =
          wait-Arrives load (n + 2) (n + 1 + 1) (n + d + 3) d k.second (omega arith)
            (omega arith) in
        let g =
          getc_ready load (n + d + 3) (n + d + 4) (n + d + 5) k.stays (omega arith) (omega arith) in
        let w' =
          wait-Arrives load (n + d + 5) (n + d + 5) (n + d + d' + 6) d' k.third refl
            (omega arith) in
        let g' =
          getc_ready load (n + d + d' + 6) (n + d + d' + 7) (n + d + d' + 8) k.stays' (omega arith)
            (omega arith) in
        rw (w, g, w', g') (ground (arith, k.first, k.escaped, k.bracket))
