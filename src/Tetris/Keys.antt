-- ===== src/Tetris/Keys.antt =====
-- The keyboard: the UART reads of 4-soc/csrc/tetris/tetris.c and its `input_poll`. `load n` is the value
-- of the n-th read of a UART register that `input_poll` makes, and a call takes the number of the
-- next read and returns it with its result.
pub mod Decode
use package.mycpu_4soc_game_port.Common.{
  ℕ, zero, suc, ◌+◌, bit_and, Bool, true, false, not, ◌||◌, ◌==◌, if◌then◌else◌,
}
use package.mycpu_4soc_game_port.Common.Int.{ℤ, pos, negsuc, pos_part, leb_ℤ}
use package.mycpu_4soc_game_port.Tetris.Types.{Input}

abbrev pub Loads : Type 0
Loads = ℕ → ℕ

-- `(*UART_STATUS & 0x02) != 0`
unfoldable pub uart_has_data : Loads → ℕ → Bool × ℕ
uart_has_data load n = (not (bit_and (load n) 2 == 0), n + 1)

-- `for (i = 0; i < 1000; i++) { if (uart_has_data()) break; }`, with `left` rounds to go.
unfoldable pub wait_loop : Loads → ℕ → ℕ → ℕ
wait_loop load zero n = n
wait_loop load (suc left) n =
    let (ready, n') = uart_has_data load n in
    let rest = wait_loop load left n' in if ready then n' else rest

abbrev pub wait_rounds : ℕ
wait_rounds = 1000

-- A byte, or -1.
unfoldable pub uart_getc_nonblocking : Loads → ℕ → ℤ × ℕ
uart_getc_nonblocking load n =
    let (ready, n') = uart_has_data load n in
    if not ready then (negsuc 0, n') else (pos (bit_and (load n') 255), n' + 1)

abbrev pub is_byte : ℤ → ℕ → Bool
is_byte (pos c) b = c == b
is_byte (negsuc c) b = false

-- The last byte of an arrow key.
unfoldable pub arrow : ℤ → Input
arrow c =
    if is_byte c b'A'
    then Input.rotate
    else if is_byte c b'B'
    then Input.soft_drop
    else if is_byte c b'C'
    then Input.right
    else if is_byte c b'D'
    then Input.left
    else Input.none

unfoldable pub letter : ℕ → Input
letter c =
    if c == b'a' || c == b'A' || c == b'h'
    then Input.left
    else if c == b'd' || c == b'D' || c == b'l'
    then Input.right
    else if c == b'w' || c == b'W' || c == b'k'
    then Input.rotate
    else if c == b's' || c == b'S' || c == b'j'
    then Input.soft_drop
    else if c == b' '
    then Input.hard_drop
    else if c == b'p' || c == b'P'
    then Input.pause
    else if c == b'q' || c == b'Q'
    then Input.quit
    else Input.none

-- What follows an ESC byte.
unfoldable pub escape : Loads → ℕ → Input × ℕ
escape load n =
    let (c2, n') = uart_getc_nonblocking load (wait_loop load wait_rounds n) in
    if is_byte c2 b'[' || is_byte c2 b'O'
    then (let (c3, n'') = uart_getc_nonblocking load (wait_loop load wait_rounds n') in
        (arrow c3, n''))
    else (Input.none, n')

unfoldable pub input_poll : Loads → ℕ → Input × ℕ
input_poll load n =
    let (ready, n') = uart_has_data load n in
    if not ready
    then (Input.none, n')
    else (let c = bit_and (load n') 255 in
        if c == 27 then escape load (n' + 1) else (letter c, n' + 1))
