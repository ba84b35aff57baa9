-- ===== src/Nyancat/Opcode.antt =====
-- The opcodes that scripts/gen-nyancat-data.py writes, as 4-soc/csrc/nyancat.c reads them.
use mycpu_4soc_game_port.Common.{
  ℕ, ◌<◌, bit_or, Bool, true, false, ◌&&◌, not, ◌≡◌, refl, arith, ◌==◌, all_below, all_below_sound,
}
use mycpu_4soc_game_port.Nyancat.Decoder.{opcode_type, param, end_of_frame}

abbrev reads_as : ℕ → ℕ → Bool
reads_as op k =
    opcode_type (bit_or op k) == op
    && (param (bit_or op k) == k && not (bit_or op k == end_of_frame))

-- A type of opcodes that is told apart from the others and from the end of the frame.
abbrev pub IsOpcode : ℕ → Type 0
IsOpcode op = all_below 16 (reads_as op) ≡ true

-- What an opcode with its parameter reads as.
pub record Reads (op k : ℕ) : Type 0 where
  pub kind : opcode_type (bit_or op k) ≡ op
  pub value : param (bit_or op k) ≡ k
  pub goes_on : (bit_or op k == end_of_frame) ≡ false

pub opcode-Reads : (op k : ℕ) → IsOpcode op → k < 16 → Reads op k
opcode-Reads op k table h =
    let row = all_below_sound 16 (reads_as op) k table h in
    record {
      kind = ground (arith, row);
      value = ground (arith, row);
      goes_on = ground (arith, row);
    }

pub set_color-IsOpcode : IsOpcode 0x00
unfolding all_below
set_color-IsOpcode = refl

pub skip_1-IsOpcode : IsOpcode 0x10
unfolding all_below
skip_1-IsOpcode = refl

pub repeat_1-IsOpcode : IsOpcode 0x20
unfolding all_below
repeat_1-IsOpcode = refl

pub op_30-IsOpcode : IsOpcode 0x30
unfolding all_below
op_30-IsOpcode = refl

pub op_40-IsOpcode : IsOpcode 0x40
unfolding all_below
op_40-IsOpcode = refl

pub skip_64-IsOpcode : IsOpcode 0x50
unfolding all_below
skip_64-IsOpcode = refl
