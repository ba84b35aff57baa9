-- ===== src/Shell/Main.antt =====
-- The commands of 4-soc/csrc/shell.c that use the memory, its `process_command` and its `main`.
-- The memory and the devices behind the bus are a parameter, and the UART is one of them: what a load
-- does to the input and what a store makes the UART send is up to the bus. The shell's own data and
-- its stack are kept apart from that memory.
pub mod Meaning
pub mod Effect
pub mod Round
pub mod Memory
pub mod ReadsBack
use package.mycpu_4soc_game_port.Common.{
  ℕ, suc, ◌+◌, ◌/◌, ◌*◌, Bool, true, false, ◌||◌, ltb, if◌then◌else◌, Option, some, ◌>>=◌, List, [],
  ◌∷◌, ◌++◌, map, length, get_or, set, for_range,
}
use package.mycpu_4soc_game_port.Common.Text.{codes, line}
use package.mycpu_4soc_game_port.Shell.Numbers.{str_eq, parse_hex}
use package.mycpu_4soc_game_port.Shell.Buffer.{Words, line_buf, line_buf_length}
use package.mycpu_4soc_game_port.Shell.Editor.{read_line}
use package.mycpu_4soc_game_port.Shell.Args.{parse_args, c_string}
use package.mycpu_4soc_game_port.Shell.Command.{
  Csrs, help_text, cmd_info, cmd_csr, mem_usage, memw_usage, word_address, mem_line, memw_line,
  cmd_perf, term_clear_screen, unknown_text, banner, prompt,
}

-- What a load gives, and the memory and the input behind it.
pub record Loaded (M : Type 0) : Type 0 where
  pub word : ℕ
  pub memory : M
  pub input : List ℕ

-- The memory and the devices. A load may change a device and take bytes from what the UART will
-- deliver, as one from its receive register does; a store may make the UART send bytes.
pub record Bus : Type 1 where
  pub Memory : Type 0
  pub load : ℕ → Memory → List ℕ → Loaded Memory
  pub store : ℕ → ℕ → Memory → Memory × List ℕ

-- The whole state. `input` is what the UART will deliver.
pub record Shell (M : Type 0) : Type 0 where
  pub memory : M
  pub words : Words
  pub input : List ℕ
  pub sent : List ℕ

-- A command comes back to the loop, or has jumped to the reset vector and never does.
pub data Flow (M : Type 0) : Type 0 where
  goes_on : Shell M → Flow M
  reboots : Shell M → Flow M

abbrev pub send : {M : Type 0} → List ℕ → Shell M → Shell M
send text s = record s { sent = s.sent ++ text }

abbrev pub uart_enable : ℕ
uart_enable = 0x40000008

module _ (bus : Bus) where
  open bus use {Memory, load, store}

  -- `argc` is the length of `argv`, whose elements are texts here.
  unfoldable pub cmd_mem : List (List ℕ) → Shell Memory → Shell Memory
  cmd_mem argv s =
      if ltb (length argv) 2
      then send mem_usage s
      else (let addr = word_address (parse_hex (get_or argv 1 [])) in
          let loaded = load addr s.memory s.input in
          send (mem_line addr loaded.word)
            (record s { memory = loaded.memory; input = loaded.input }))

  unfoldable pub cmd_memw : List (List ℕ) → Shell Memory → Shell Memory
  cmd_memw argv s =
      if ltb (length argv) 3
      then send memw_usage s
      else (let val = parse_hex (get_or argv 2 []) in
          let addr = word_address (parse_hex (get_or argv 1 [])) in
          let stored = store addr val s.memory in
          send (memw_line addr val) (send stored.1 (record s { memory = stored.0 })))

  -- `jr zero` does not come back.
  unfoldable pub cmd_reboot : Shell Memory → Flow Memory
  cmd_reboot s = reboots (send (line "Rebooting...") s)

  -- The part of `process_command` behind `parse_args`.
  unfoldable pub run_command : Csrs → List (List ℕ) → Shell Memory → Option (Flow Memory)
  run_command csr [] s = some (goes_on s)
  run_command csr (name ∷ args) s =
      if str_eq name (codes "help") || str_eq name (codes "?")
      then some (goes_on (send help_text s))
      else if str_eq name (codes "info")
      then cmd_info csr >>= (λ text. some (goes_on (send text s)))
      else if str_eq name (codes "csr")
      then cmd_csr csr >>= (λ text. some (goes_on (send text s)))
      else if str_eq name (codes "mem")
      then some (goes_on (cmd_mem (name ∷ args) s))
      else if str_eq name (codes "memw")
      then some (goes_on (cmd_memw (name ∷ args) s))
      else if str_eq name (codes "perf")
      then cmd_perf csr >>= (λ text. some (goes_on (send text s)))
      else if str_eq name (codes "clear") || str_eq name (codes "cls")
      then some (goes_on (send term_clear_screen s))
      else if str_eq name (codes "reboot") || str_eq name (codes "reset")
      then some (cmd_reboot s)
      else some (goes_on (send (unknown_text name) s))

  unfoldable pub process_command : Csrs → Shell Memory → Option (Flow Memory)
  process_command csr s = parse_args s.words >>= λ (argv, words).
      run_command csr (map (c_string (line_buf words)) argv) (record s { words = words })

  -- `for (i = 0; i < LINE_BUF_SIZE / 4 + 1; i++) line_buf_words[i] = 0;`
  unfoldable pub clear_words : Words → Words
  clear_words words = for_range line_buf_length 0 (λ i ws. set ws i 0) words

  -- `main` before its loop.
  unfoldable pub shell_start : Shell Memory → Shell Memory
  shell_start s =
      let stored = store uart_enable 1 s.memory in
      send banner (send stored.1 (record s { words = clear_words s.words; memory = stored.0 }))

  -- A round of the loop in `main`.
  unfoldable pub shell_round : Csrs → Shell Memory → Option (Flow Memory)
  shell_round csr s = read_line s.input s.words (s.sent ++ prompt) >>= λ (e, input).
      let s' = record s { words = e.words; input = input; sent = e.sent } in
      if ltb 0 e.len then process_command csr s' else some (goes_on s')
