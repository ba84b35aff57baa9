-- ===== src/Shell/Main/Meaning.antt =====
-- What the commands of 4-soc/csrc/shell.c mean, each by its names.
use mycpu_4soc_game_port.Common.{
  ℕ, ◌≡◌, ◌≢◌, ◌⊎◌, Bool, ◌||◌, if◌then◌else◌, Option, some, List, [], ◌∷◌, ◌++◌,
}
use mycpu_4soc_game_port.Common.Text.{codes, line}
use mycpu_4soc_game_port.Shell.Numbers.{str_eq, parse_hex}
use mycpu_4soc_game_port.Shell.Command.{
  Csrs, help_text, cmd_info, cmd_csr, mem_usage, memw_usage, word_address, mem_line, memw_line,
  cmd_perf, term_clear_screen, unknown_text,
}
use mycpu_4soc_game_port.Shell.Main.{Bus, Shell, Flow, goes_on, reboots}

pub data Command : Type 0 where
  asks_help asks_info asks_csr asks_mem asks_memw asks_perf asks_clear asks_reboot unknown : Command

abbrev pub known_names : List (List ℕ)
known_names =
    codes "help"
    ∷ codes "?"
    ∷ codes "info"
    ∷ codes "csr"
    ∷ codes "mem"
    ∷ codes "memw"
    ∷ codes "perf"
    ∷ codes "clear"
    ∷ codes "cls"
    ∷ codes "reboot"
    ∷ codes "reset"
    ∷ []

abbrev pub IsNoneOf : List ℕ → List (List ℕ) → Type 0
IsNoneOf name [] = Unit {0}
IsNoneOf name (other ∷ others) = (name ≢ other) × IsNoneOf name others

-- The words that name a command.
abbrev pub Names : Command → List ℕ → Type 0
Names asks_help name = (name ≡ codes "help") ⊎ (name ≡ codes "?")
Names asks_info name = name ≡ codes "info"
Names asks_csr name = name ≡ codes "csr"
Names asks_mem name = name ≡ codes "mem"
Names asks_memw name = name ≡ codes "memw"
Names asks_perf name = name ≡ codes "perf"
Names asks_clear name = (name ≡ codes "clear") ⊎ (name ≡ codes "cls")
Names asks_reboot name = (name ≡ codes "reboot") ⊎ (name ≡ codes "reset")
Names unknown name = IsNoneOf name known_names

abbrev pub restarts : List ℕ → Bool
restarts name = str_eq name (codes "reboot") || str_eq name (codes "reset")

-- After `reboot` or `reset` the program does not go on.
abbrev pub ending : {M : Type 0} → List (List ℕ) → Shell M → Flow M
ending [] s = goes_on s
ending (name ∷ args) s = if restarts name then reboots s else goes_on s

module _ (bus : Bus) where
  open bus use {Memory, load, store}

  -- What a command line may do to the memory: `mem` with an address loads one word, `memw` with an
  -- address and a value stores one, and nothing else touches it.
  abbrev pub memory_after : List (List ℕ) → Memory → List ℕ → Memory
  memory_after [] m input = m
  memory_after (name ∷ []) m input = m
  memory_after (name ∷ a ∷ []) m input =
      if str_eq name (codes "mem") then (load (word_address (parse_hex a)) m input).memory else m
  memory_after (name ∷ a ∷ v ∷ more) m input =
      if str_eq name (codes "mem")
      then (load (word_address (parse_hex a)) m input).memory
      else if str_eq name (codes "memw")
      then (store (word_address (parse_hex a)) (parse_hex v) m).0
      else m

  -- What is left of the input: only the load of `mem` can take from it.
  abbrev pub input_after : List (List ℕ) → Memory → List ℕ → List ℕ
  input_after [] m input = input
  input_after (name ∷ []) m input = input
  input_after (name ∷ a ∷ more) m input =
      if str_eq name (codes "mem") then (load (word_address (parse_hex a)) m input).input else input

  -- What a command sends.
  abbrev pub reply_of : Csrs → Command → List ℕ → List (List ℕ) → Memory → List ℕ → Option (List ℕ)
  reply_of csr asks_help name args m input = some help_text
  reply_of csr asks_info name args m input = cmd_info csr
  reply_of csr asks_csr name args m input = cmd_csr csr
  reply_of csr asks_mem name [] m input = some mem_usage
  reply_of csr asks_mem name (a ∷ more) m input =
      some (mem_line (word_address (parse_hex a)) (load (word_address (parse_hex a)) m input).word)
  reply_of csr asks_memw name [] m input = some memw_usage
  reply_of csr asks_memw name (a ∷ []) m input = some memw_usage
  reply_of csr asks_memw name (a ∷ v ∷ more) m input = some (
      (store (word_address (parse_hex a)) (parse_hex v) m).1
      ++ memw_line (word_address (parse_hex a)) (parse_hex v))
  reply_of csr asks_perf name args m input = cmd_perf csr
  reply_of csr asks_clear name args m input = some term_clear_screen
  reply_of csr asks_reboot name args m input = some (line "Rebooting...")
  reply_of csr unknown name args m input = some (unknown_text name)

  -- The reply is that of the command that the first word names.
  abbrev pub Answers : Csrs → List (List ℕ) → Shell Memory → List ℕ → Type 0
  Answers csr [] s reply = reply ≡ []
  Answers csr (name ∷ args) s reply =
      (command : Command) × Names command name
      × (reply_of csr command name args s.memory s.input ≡ some reply)

  pub record Runs (csr : Csrs) (argv : List (List ℕ)) (s : Shell Memory)
      (result : Option (Flow Memory)) : Type 0 where
    pub after : Shell Memory
    pub returns : result ≡ some (ending argv after)
    pub memory : after.memory ≡ memory_after argv s.memory s.input
    pub input : after.input ≡ input_after argv s.memory s.input
    pub words : after.words ≡ s.words
    pub reply : List ℕ
    pub answers : Answers csr argv s reply
    pub sent : after.sent ≡ s.sent ++ reply
