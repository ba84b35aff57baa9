-- ===== src/Tests/Loopbacks.antt =====
-- The theorems on the test of the UART with concrete devices.
use mycpu_4soc_game_port.Common.{
  ℕ, suc, ◌<◌, ◌≡◌, refl, arith, bit_and, Bool, Option, none, some, ◌==◌, all_below,
  all_below_sound,
}
use mycpu_4soc_game_port.UartTest.{Device, main}
use mycpu_4soc_game_port.UartTest.Loopback.{Accepts, Empties, Loopback, main_passes}
use mycpu_4soc_game_port.UartTest.Silent.{main_times_out}

abbrev status_of : Option ℕ → ℕ
status_of none = 1
status_of (some byte) = 3

abbrev byte_of : Option ℕ → ℕ
byte_of none = 0
byte_of (some byte) = byte

-- A wire from the transmitter to the receiver, with the byte that is on it.
abbrev wire : Device
wire = record {
  State = Option ℕ;
  read_status = λ s. (status_of s, s);
  read_recv = λ s. (byte_of s, none);
  send = λ byte s. some byte;
  write_baudrate = λ rate s. s;
  write_enable = λ flag s. s;
  delay = λ cycles s. s;
}

abbrev IsIdle : Option ℕ → Type 0
IsIdle s = s ≡ none

abbrev same_byte : ℕ → Bool
same_byte b = bit_and b 0xFF == b

wire-Accepts : (s : Option ℕ) → (k : ℕ) × (k < 2) × Accepts wire k s
wire-Accepts none = (0, omega arith, refl)
wire-Accepts (some byte) = (0, omega arith, refl)

wire-Empties : (s : Option ℕ) → (k : ℕ) × (k < 2) × Empties wire IsIdle k s
wire-Empties none = (0, omega arith, (refl, refl))
wire-Empties (some byte) = (1, omega arith, (refl, (refl, refl)))

wire-Loopback : Loopback wire 2
unfolding all_below
wire-Loopback = record {
  Quiet = IsIdle;
  accepts = wire-Accepts;
  empties = wire-Empties;
  quiet_read = λ s idle. idle;
  arrives = λ b s small idle.
      let row = all_below_sound 256 same_byte b refl small in
      (0, omega arith, (refl, ground (arith, row), refl));
}

main_passes_example :
    main wire 2 (some 7) ≡ some (record { test_result = 15; test_done_flag = 0xCAFEF00D })
main_passes_example = main_passes wire 2 wire-Loopback (some 7)

-- A device with a transmitter only.
abbrev mute : Device
mute = record {
  State = ℕ;
  read_status = λ s. (1, s);
  read_recv = λ s. (0, s);
  send = λ byte s. suc s;
  write_baudrate = λ rate s. s;
  write_enable = λ flag s. s;
  delay = λ cycles s. s;
}

main_times_out_example :
    main mute 1 0 ≡ some (record { test_result = 1; test_done_flag = 0xCAFEF00D })
main_times_out_example = main_times_out mute 1 (λ s. refl) (λ s. (0, omega arith, refl)) 0
