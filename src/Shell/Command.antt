-- ===== src/Shell/Command.antt =====
-- The texts of 4-soc/csrc/shell.c and its commands that only send. The CSR reads are parameters.
-- What is sent is a list of bytes, and the transmitter is taken to become ready.
pub mod Replies
pub mod Cpi
use package.mycpu_4soc_game_port.Common.{
  ℕ, zero, suc, ◌+◌, ◌-◌, ◌*◌, ◌%◌, ◌^◌, bit_and, Bool, true, false, ◌||◌, ltb, ◌==◌, if◌then◌else◌,
  Option, none, some, ◌>>=◌, List, [], ◌∷◌, ◌++◌, map, length, get_or, set, u32, for_range,
}
use package.mycpu_4soc_game_port.Common.Text.{codes, crlf, line}
use package.mycpu_4soc_game_port.Shell.Numbers.{
  str_eq, print_uint, print_hex, parse_hex, udiv, umod,
}
use package.mycpu_4soc_game_port.Shell.Buffer.{Words, line_buf, line_buf_length}
use package.mycpu_4soc_game_port.Shell.Editor.{Editor, read_line}
use package.mycpu_4soc_game_port.Shell.Args.{parse_args, c_string}

-- What the reads of the CSRs give while one command runs.
pub record Csrs : Type 0 where
  pub mvendorid : ℕ
  pub marchid : ℕ
  pub mimpid : ℕ
  pub mhartid : ℕ
  pub misa : ℕ
  pub mstatus : ℕ
  pub mcycle : ℕ
  pub minstret : ℕ

abbrev pub help_text : List ℕ
help_text =
    line "MyCPU Shell Commands:"
    ++ crlf
    ++ line "  help, ?      Show this help message"
    ++ line "  info         Display CPU architecture and memory map"
    ++ line "  csr          Show CSR register values"
    ++ line "  mem <addr>   Read memory (e.g., mem 0x20000000)"
    ++ line "  memw <a> <v> Write memory (e.g., memw 0x20000020 0x01)"
    ++ line "  perf         Show performance counters"
    ++ line "  clear        Clear screen"
    ++ line "  reboot       Software reset"
    ++ crlf
    ++ line "Backspace supported for line editing."

-- `if (misa & (1 << (letter - 'A'))) uart_putc(letter);`
abbrev pub extension : ℕ → ℕ → List ℕ
extension misa letter = if bit_and misa (2 ^ (letter - b'A')) == 0 then [] else letter ∷ []

unfoldable pub cmd_info : Csrs → Option (List ℕ)
cmd_info csr = print_uint csr.mhartid >>= λ hart. some (
    line "MyCPU RISC-V Processor"
    ++ line "----------------------"
    ++ codes "Architecture: RV32"
    ++ extension csr.misa b'I'
    ++ extension csr.misa b'M'
    ++ extension csr.misa b'A'
    ++ extension csr.misa b'F'
    ++ extension csr.misa b'D'
    ++ extension csr.misa b'C'
    ++ crlf
    ++ codes "Vendor ID:    0x"
    ++ print_hex csr.mvendorid 8
    ++ crlf
    ++ codes "Architecture: 0x"
    ++ print_hex csr.marchid 8
    ++ crlf
    ++ codes "Implement ID: 0x"
    ++ print_hex csr.mimpid 8
    ++ crlf
    ++ codes "Hart ID:      "
    ++ hart
    ++ crlf
    ++ crlf
    ++ line "Memory Map:"
    ++ line "  0x00000000  Main Memory (2MB)"
    ++ line "  0x20000000  VGA Controller"
    ++ line "  0x40000000  UART")

unfoldable pub cmd_csr : Csrs → Option (List ℕ)
cmd_csr csr = print_uint csr.mhartid >>= λ hart. some (
    line "CSR Registers:"
    ++ codes "  mstatus:   0x"
    ++ print_hex csr.mstatus 8
    ++ crlf
    ++ codes "  misa:      0x"
    ++ print_hex csr.misa 8
    ++ crlf
    ++ codes "  mvendorid: 0x"
    ++ print_hex csr.mvendorid 8
    ++ crlf
    ++ codes "  marchid:   0x"
    ++ print_hex csr.marchid 8
    ++ crlf
    ++ codes "  mimpid:    0x"
    ++ print_hex csr.mimpid 8
    ++ crlf
    ++ codes "  mhartid:   "
    ++ hart
    ++ crlf)

abbrev pub mem_usage : List ℕ
mem_usage = line "Usage: mem <address>" ++ line "Example: mem 0x20000000"

abbrev pub memw_usage : List ℕ
memw_usage = line "Usage: memw <address> <value>" ++ line "Example: memw 0x20000020 0x01"

-- `addr &= ~0x3;`
unfoldable pub word_address : ℕ → ℕ
word_address addr = bit_and addr (2 ^ 32 - 1 - 3)

-- The line that `cmd_mem` sends for a word at an address.
abbrev pub mem_line : ℕ → ℕ → List ℕ
mem_line addr word = codes "0x" ++ print_hex addr 8 ++ codes ": 0x" ++ print_hex word 8 ++ crlf

abbrev pub memw_line : ℕ → ℕ → List ℕ
memw_line addr val =
    codes "Wrote 0x" ++ print_hex val 8 ++ codes " to 0x" ++ print_hex addr 8 ++ crlf

-- The three parts of the counters that `cmd_perf` shows.
unfoldable pub cpi_line : ℕ → ℕ → Option (List ℕ)
cpi_line cycles instret = do
  cpi_int ← udiv cycles instret
  hundreds ← udiv (u32 (cycles * 100)) instret
  cpi_frac ← umod hundreds 100
  whole ← print_uint cpi_int
  part ← print_uint cpi_frac
  some (
      codes "  CPI:      "
      ++ whole
      ++ codes "."
      ++ (if ltb cpi_frac 10 then b'0' ∷ [] else [])
      ++ part
      ++ crlf)

unfoldable pub cmd_perf : Csrs → Option (List ℕ)
cmd_perf csr = do
  cycles ← print_uint csr.mcycle
  instret ← print_uint csr.minstret
  cpi ← (if ltb 0 csr.minstret then cpi_line csr.mcycle csr.minstret else some [])
  some (
      line "Performance Counters:"
      ++ codes "  mcycle:   "
      ++ cycles
      ++ crlf
      ++ codes "  minstret: "
      ++ instret
      ++ crlf
      ++ cpi)

-- "\033[2J\033[H"
abbrev pub term_clear_screen : List ℕ
term_clear_screen = 27 ∷ codes "[2J" ++ 27 ∷ codes "[H"

abbrev pub unknown_text : List ℕ → List ℕ
unknown_text name =
    codes "Unknown command: " ++ name ++ crlf ++ line "Type 'help' for available commands."

abbrev pub banner : List ℕ
banner = crlf ++ line "MyCPU Shell - Type 'help' for commands"

abbrev pub prompt : List ℕ
prompt = codes "MyCPU> "
