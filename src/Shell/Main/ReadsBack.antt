-- ===== src/Shell/Main/ReadsBack.antt =====
-- A word that is stored by one line of the shell and shown by the next.
use mycpu_4soc_game_port.Common.{
  ℕ, ◌%◌, ◌^◌, ◌≤◌, ◌<◌, ◌≡◌, refl, sym, ap, subst, ◌∙◌, arith, some, List, [], ◌∷◌, ◌++◌, length,
  length-append, take,
}
use mathlib.Core.Option.{some-injective}
use mycpu_4soc_game_port.Common.Text.{codes}
use mycpu_4soc_game_port.Shell.Numbers.{print_hex, parse_hex, str_eq}
use mycpu_4soc_game_port.Shell.Editor.Typing.{type_keys, received, NoEnter, AllPrintable}
use mycpu_4soc_game_port.Shell.Editor.Plain.{
  received-AllPrintable, NoEnter-AllPrintable, type_keys-plain, append-AllPrintable,
  length-print_hex,
}
use mycpu_4soc_game_port.Shell.Args.{max_args}
use mycpu_4soc_game_port.Shell.Args.Split.{words_of}
use mycpu_4soc_game_port.Shell.Command.{Csrs, word_address, mem_line}
use mycpu_4soc_game_port.Shell.Command.Replies.{AreU32}
use mycpu_4soc_game_port.Shell.Main.{
  Bus, Shell, Flow, goes_on, reboots, cmd_mem, run_command, shell_round,
}
use mycpu_4soc_game_port.Shell.Main.Meaning.{ending, memory_after, input_after}
use mycpu_4soc_game_port.Shell.Main.Round.{IsReady, RunsLine, shell_round-RunsLine}
use mycpu_4soc_game_port.Shell.Main.Memory.{
  hex_text, memw_text, mem_text, word_address_lem, hex_text-AllPrintable, parse_hex-hex_text,
  words_of-memw_text, words_of-mem_text,
}

module _ (bus : Bus) where
  open bus use {Memory, load, store}

  -- A line of printable keys, without a backspace among them.
  typed_line :
      (csr : Csrs) (text left : List ℕ) (s : Shell Memory)
      → AreU32 csr
      → IsReady bus s
      → AllPrintable text
      → length text ≤ 79
      → s.input ≡ text ++ (13 ∷ left)
      → RunsLine bus csr text left s (shell_round bus csr s)
  typed_line csr text left s h ready plain short input =
      let typed : type_keys (received text) [] ≡ text =
        ap (λ keys. type_keys keys []) (received-AllPrintable text plain)
        ∙ type_keys-plain text [] plain (omega arith) in
      subst (λ t. RunsLine bus csr t left s (shell_round bus csr s)) typed
        (shell_round-RunsLine bus csr text 13 left s h ready
          (subst NoEnter (sym (received-AllPrintable text plain)) (NoEnter-AllPrintable text plain))
          refl input)

  -- What the line of `memw` asks for.
  record Stores (a v : ℕ) (m : Memory) (left : List ℕ) : Type 0 where
    memory : memory_after bus (take max_args (words_of (memw_text a v))) m left ≡ (store a v m).0
    input : input_after bus (take max_args (words_of (memw_text a v))) m left ≡ left
    returns : (s : Shell Memory) → ending (take max_args (words_of (memw_text a v))) s ≡ goes_on s

  memw_text-Stores :
      (a v : ℕ) (m : Memory) (input : List ℕ)
      → a < 2 ^ 32
      → a % 4 ≡ 0
      → v < 2 ^ 32
      → Stores a v m input
  unfolding str_eq
  memw_text-Stores a v m input ha aligned hv = record {
    memory =
        ap (λ argv. memory_after bus (take max_args argv) m input) (words_of-memw_text a v)
        ∙ ap (λ t. (store (word_address t) (parse_hex (hex_text v)) m).0) (parse_hex-hex_text a ha)
        ∙ ap (λ t. (store (word_address a) t m).0) (parse_hex-hex_text v hv)
        ∙ ap (λ t. (store t v m).0) (word_address_lem a ha ∙ omega arith);
    input = ap (λ argv. input_after bus (take max_args argv) m input) (words_of-memw_text a v);
    returns = λ s. ap (λ argv. ending (take max_args argv) s) (words_of-memw_text a v);
  }

  mem_goes_on :
      (a : ℕ) (s : Shell Memory) → ending (take max_args (words_of (mem_text a))) s ≡ goes_on s
  unfolding str_eq
  mem_goes_on a s = ap (λ argv. ending (take max_args argv) s) (words_of-mem_text a)

  mem_runs :
      (csr : Csrs) (address : List ℕ) (s : Shell Memory)
      → run_command bus csr (codes "mem" ∷ address ∷ []) s
        ≡ some (goes_on (cmd_mem bus (codes "mem" ∷ address ∷ []) s))
  unfolding run_command str_eq
  mem_runs csr address s = refl

  mem_sent :
      (address : List ℕ) (s : Shell Memory)
      → (cmd_mem bus (codes "mem" ∷ address ∷ []) s).sent
        ≡ s.sent
          ++ mem_line
              (word_address (parse_hex address))
              (load (word_address (parse_hex address)) s.memory s.input).word
  unfolding cmd_mem
  mem_sent address s = refl

  -- The bytes that have been sent, whether the program goes on or not.
  sent_of : Flow Memory → List ℕ
  sent_of (goes_on s) = s.sent
  sent_of (reboots s) = s.sent

  -- The reply to `mem`.
  mem_reply :
      (csr : Csrs) (a : ℕ) (s s' : Shell Memory)
      → a < 2 ^ 32
      → a % 4 ≡ 0
      → run_command bus csr (take max_args (words_of (mem_text a))) s ≡ some (goes_on s')
      → s'.sent ≡ s.sent ++ mem_line a (load a s.memory s.input).word
  unfolding sent_of
  mem_reply csr a s s' ha aligned e =
      let run =
        sym (mem_runs csr (hex_text a) s)
        ∙ ap (λ argv. run_command bus csr (take max_args argv) s) (sym (words_of-mem_text a))
        ∙ e in
      let address : word_address (parse_hex (hex_text a)) ≡ a =
        ap word_address (parse_hex-hex_text a ha) ∙ word_address_lem a ha ∙ omega arith in
      sym (ap sent_of (some-injective _ _ run))
      ∙ mem_sent (hex_text a) s
      ∙ ap (λ t. s.sent ++ mem_line t (load t s.memory s.input).word) address

  -- Two rounds, and the end of what has been sent after them.
  pub record ReadsBack (csr csr' : Csrs) (a v : ℕ) (s : Shell Memory) : Type 0 where
    pub stored : Shell Memory
    pub shown : Shell Memory
    pub first : shell_round bus csr s ≡ some (goes_on stored)
    pub second : shell_round bus csr' stored ≡ some (goes_on shown)
    pub before : List ℕ
    pub reply : shown.sent ≡ before ++ mem_line a v

  length-memw_text : (a v : ℕ) → length (memw_text a v) ≡ 26
  length-memw_text a v = omega (
    arith,
    length-append (codes "memw") (b' ' ∷ (hex_text a ++ (b' ' ∷ hex_text v))),
    length-append (hex_text a) (b' ' ∷ hex_text v),
    length-append (codes "0x") (print_hex a 8),
    length-append (codes "0x") (print_hex v 8),
    length-print_hex a 8,
    length-print_hex v 8,
  )

  memw_text-AllPrintable : (a v : ℕ) → AllPrintable (memw_text a v)
  memw_text-AllPrintable a v =
      append-AllPrintable (codes "memw") (b' ' ∷ (hex_text a ++ (b' ' ∷ hex_text v))) (omega arith)
        (
          omega arith,
          omega arith,
          append-AllPrintable (hex_text a) (b' ' ∷ hex_text v) (hex_text-AllPrintable a)
              (omega arith, omega arith, hex_text-AllPrintable v),
        )

  mem_text-AllPrintable : (a : ℕ) → AllPrintable (mem_text a)
  mem_text-AllPrintable a =
      append-AllPrintable (codes "mem") (b' ' ∷ hex_text a) (omega arith)
        (omega arith, omega arith, hex_text-AllPrintable a)

  length-mem_text : (a : ℕ) → length (mem_text a) ≡ 14
  length-mem_text a = omega (arith, length-print_hex a 8)

  -- Where the bus gives back at `a`, a multiple of four, the 32-bit value `v` that was stored there,
  -- the line `memw 0x<a> 0x<v>` followed by the line `mem 0x<a>`, numbers in eight hexadecimal
  -- digits, takes two rounds of the loop in `main`, and the last thing that the shell sends is the
  -- line of `mem` with `a` and `v`.
  pub mem-memw :
      (csr csr' : Csrs) (a v : ℕ) (left : List ℕ) (s : Shell Memory)
      → ((m : Memory) (input : List ℕ) → (load a (store a v m).0 input).word ≡ v)
      → AreU32 csr
      → AreU32 csr'
      → IsReady bus s
      → a < 2 ^ 32
      → a % 4 ≡ 0
      → v < 2 ^ 32
      → s.input ≡ memw_text a v ++ (13 ∷ (mem_text a ++ (13 ∷ left)))
      → ReadsBack csr csr' a v s
  mem-memw csr csr' a v left s keeps h h' ready ha aligned hv input =
      let one =
        typed_line csr (memw_text a v) (mem_text a ++ (13 ∷ left)) s h ready
          (memw_text-AllPrintable a v) (omega (arith, length-memw_text a v)) input in
      let stores = memw_text-Stores a v s.memory (mem_text a ++ (13 ∷ left)) ha aligned hv in
      let two =
        typed_line csr' (mem_text a) left one.after h' one.ready (mem_text-AllPrintable a)
          (omega (arith, length-mem_text a)) (one.input ∙ stores.input) in
      let memory = two.same ∙ one.memory ∙ stores.memory in
      let word : (load a two.before.memory two.before.input).word ≡ v =
        ap (λ m. (load a m two.before.input).word) memory ∙ keeps s.memory two.before.input in
      record {
        stored = one.after;
        shown = two.after;
        first = one.returns ∙ ap some (stores.returns one.after);
        second = two.returns ∙ ap some (mem_goes_on a two.after);
        before = two.before.sent;
        reply =
            mem_reply csr' a two.before two.after ha aligned
              (two.command ∙ ap some (mem_goes_on a two.after))
            ∙ ap (λ t. two.before.sent ++ mem_line a t) word;
      }
