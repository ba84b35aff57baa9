-- ===== src/Shell/Main/Effect.antt =====
-- What `process_command` of 4-soc/csrc/shell.c does for each first word of a line.
use mycpu_4soc_game_port.Common.{
  ℕ, ◌<◌, ◌≡◌, ◌≢◌, ◌⊎◌, refl, sym, subst, ◌∙◌, arith, Bool, true, false, ◌||◌, ltb, if◌then◌else◌,
  Bool-cases, inl, inr, Option, some, ◌>>=◌, List, [], ◌∷◌, ◌++◌, length,
}
use mathlib.Core.List.{append-nil, append_assoc}
use mycpu_4soc_game_port.Common.Text.{codes, line}
use mycpu_4soc_game_port.Shell.Numbers.{str_eq, parse_hex}
use mycpu_4soc_game_port.Shell.Numbers.Equal.{str_eq_iff}
use mycpu_4soc_game_port.Shell.Command.{
  Csrs, mem_usage, memw_usage, mem_line, memw_line, help_text, cmd_info, cmd_csr, word_address,
  cmd_perf, term_clear_screen, unknown_text,
}
use mycpu_4soc_game_port.Shell.Command.Replies.{
  AreU32, Replies, cmd_info-Replies, cmd_csr-Replies, cmd_perf-Replies,
}
use mycpu_4soc_game_port.Shell.Main.{
  Loaded, Bus, Shell, Flow, goes_on, send, cmd_mem, cmd_memw, cmd_reboot, run_command,
}
use mycpu_4soc_game_port.Shell.Main.Meaning.{
  Command, asks_help, asks_info, asks_csr, asks_mem, asks_memw, asks_perf, asks_clear, asks_reboot,
  unknown, Names, restarts, ending, memory_after, input_after, reply_of, Runs,
}

one_of :
    (name this that : List ℕ)
    → (str_eq name this || str_eq name that) ≡ true
    → (name ≡ this) ⊎ (name ≡ that)
one_of name this that e = elim (Bool-cases (str_eq name this)) [
  | inl t ↦ inl ((str_eq_iff name this).0 t)
  | inr f ↦ inr ((str_eq_iff name that).0 (rw f at e))
]

differs : (name this : List ℕ) → str_eq name this ≡ false → name ≢ this
differs name this f e = let t = (str_eq_iff name this).1 e in cc

neither :
    (name this that : List ℕ)
    → (str_eq name this || str_eq name that) ≡ false
    → (name ≢ this) × (name ≢ that)
neither name this that f =
    (differs name this (ground (arith, f)), differs name that (ground (arith, f)))

module _ (bus : Bus) where
  open bus use {Memory, load, store}

  other_memory :
      (name : List ℕ) (args : List (List ℕ)) (m : Memory) (input : List ℕ)
      → str_eq name (codes "mem") ≡ false
      → str_eq name (codes "memw") ≡ false
      → memory_after bus (name ∷ args) m input ≡ m
  other_memory name [] m input p q = refl
  other_memory name (a ∷ []) m input p q = rw p refl
  other_memory name (a ∷ v ∷ more) m input p q = rw (p, q) refl

  other_input :
      (name : List ℕ) (args : List (List ℕ)) (m : Memory) (input : List ℕ)
      → str_eq name (codes "mem") ≡ false
      → input_after bus (name ∷ args) m input ≡ input
  other_input name [] m input p = refl
  other_input name (a ∷ more) m input p = rw p refl

  -- A command that only sends.
  sends :
      (csr : Csrs) (command : Command) (name : List ℕ) (args : List (List ℕ)) (s : Shell Memory)
      (reply : List ℕ)
      → Names command name
      → reply_of bus csr command name args s.memory s.input ≡ some reply
      → str_eq name (codes "mem") ≡ false
      → str_eq name (codes "memw") ≡ false
      → Runs bus csr (name ∷ args) s (some (ending (name ∷ args) (send reply s)))
  sends csr command name args s reply named answer p q = record {
    after = send reply s;
    returns = refl;
    memory = sym (other_memory name args s.memory s.input p q);
    input = sym (other_input name args s.memory s.input p);
    words = refl;
    reply = reply;
    answers = (command, named, answer);
    sent = refl;
  }

  then_sends :
      (csr : Csrs) (command : Command) (name : List ℕ) (args : List (List ℕ)) (s : Shell Memory)
      (r : Option (List ℕ))
      → Names command name
      → reply_of bus csr command name args s.memory s.input ≡ r
      → str_eq name (codes "mem") ≡ false
      → str_eq name (codes "memw") ≡ false
      → restarts name ≡ false
      → Replies r
      → Runs bus csr (name ∷ args) s (r >>= (λ text. some (goes_on (send text s))))
  then_sends csr command name args s r named answer p q back (text, e) =
      let run = sends csr command name args s text named (answer ∙ e) p q in rw e (rw back at run)

  mem-Runs :
      (csr : Csrs) (args : List (List ℕ)) (s : Shell Memory)
      → Runs bus csr (codes "mem" ∷ args) s (some (goes_on (cmd_mem bus (codes "mem" ∷ args) s)))
  unfolding cmd_mem str_eq
  mem-Runs csr [] s = record {
    after = send mem_usage s;
    returns = refl;
    memory = refl;
    input = refl;
    words = refl;
    reply = mem_usage;
    answers = (asks_mem, refl, refl);
    sent = refl;
  }
  mem-Runs csr (a ∷ more) s = record {
    after =
        send (mem_line addr loaded.word)
          (record s { memory = loaded.memory; input = loaded.input });
    returns = rw enough refl;
    memory = effect more;
    input = refl;
    words = refl;
    reply = mem_line addr loaded.word;
    answers = (asks_mem, refl, refl);
    sent = refl;
  }
    where
      addr : ℕ
      addr = word_address (parse_hex a)

      loaded : Loaded Memory
      loaded = load addr s.memory s.input

      enough : ltb (length (codes "mem" ∷ a ∷ more)) 2 ≡ false
      enough = ground arith

      effect :
          (more : List (List ℕ))
          → loaded.memory ≡ memory_after bus (codes "mem" ∷ a ∷ more) s.memory s.input
      effect [] = refl
      effect (v ∷ more) = refl

  memw_usage-Runs :
      (csr : Csrs) (args : List (List ℕ)) (s : Shell Memory)
      → length args < 2
      → Runs bus csr (codes "memw" ∷ args) s (some (goes_on (send memw_usage s)))
  unfolding str_eq
  memw_usage-Runs csr [] s h = record {
    after = send memw_usage s;
    returns = refl;
    memory = refl;
    input = refl;
    words = refl;
    reply = memw_usage;
    answers = (asks_memw, refl, refl);
    sent = refl;
  }
  memw_usage-Runs csr (a ∷ []) s h = record {
    after = send memw_usage s;
    returns = refl;
    memory = refl;
    input = refl;
    words = refl;
    reply = memw_usage;
    answers = (asks_memw, refl, refl);
    sent = refl;
  }
  memw_usage-Runs csr (a ∷ v ∷ more) s h = absurd (omega arith)

  memw-Runs :
      (csr : Csrs) (args : List (List ℕ)) (s : Shell Memory)
      → Runs bus csr (codes "memw" ∷ args) s (some (goes_on (cmd_memw bus (codes "memw" ∷ args) s)))
  unfolding cmd_memw str_eq
  memw-Runs csr [] s = memw_usage-Runs csr [] s (omega arith)
  memw-Runs csr (a ∷ []) s = memw_usage-Runs csr (a ∷ []) s (omega arith)
  memw-Runs csr (a ∷ v ∷ more) s = record {
    after = send written (send stored.1 (record s { memory = stored.0 }));
    returns = rw enough refl;
    memory = refl;
    input = refl;
    words = refl;
    reply = stored.1 ++ written;
    answers = (asks_memw, refl, refl);
    sent = append_assoc s.sent stored.1 written;
  }
    where
      stored : Memory × List ℕ
      stored = store (word_address (parse_hex a)) (parse_hex v) s.memory

      written : List ℕ
      written = memw_line (word_address (parse_hex a)) (parse_hex v)

      enough : ltb (length (codes "memw" ∷ a ∷ v ∷ more)) 3 ≡ false
      enough = ground arith

  on_test :
      (b : Bool) (csr : Csrs) (argv : List (List ℕ)) (s : Shell Memory) (x y : Option (Flow Memory))
      → (b ≡ true → Runs bus csr argv s x)
      → (b ≡ false → Runs bus csr argv s y)
      → Runs bus csr argv s (if b then x else y)
  on_test true csr argv s x y yes_case no_case = yes_case refl
  on_test false csr argv s x y yes_case no_case = no_case refl

  -- A command with two names.
  on_pair :
      (csr : Csrs) (this that name : List ℕ) (args : List (List ℕ)) (s : Shell Memory)
      (x : Option (Flow Memory))
      → (str_eq name this || str_eq name that) ≡ true
      → Runs bus csr (this ∷ args) s x
      → Runs bus csr (that ∷ args) s x
      → Runs bus csr (name ∷ args) s x
  on_pair csr this that name args s x e first second = elim (one_of name this that e) [
    | inl t ↦ subst (λ n. Runs bus csr (n ∷ args) s x) (sym t) first
    | inr t ↦ subst (λ n. Runs bus csr (n ∷ args) s x) (sym t) second
  ]

  -- A command with one name.
  on_name :
      (csr : Csrs) (this name : List ℕ) (args : List (List ℕ)) (s : Shell Memory)
      (result : List ℕ → Option (Flow Memory))
      → str_eq name this ≡ true
      → Runs bus csr (this ∷ args) s (result this)
      → Runs bus csr (name ∷ args) s (result name)
  on_name csr this name args s result e run =
      subst (λ n. Runs bus csr (n ∷ args) s (result n)) (sym ((str_eq_iff name this).0 e)) run

  module _ (csr : Csrs) (args : List (List ℕ)) (s : Shell Memory) where
    help-Runs :
        (name : List ℕ)
        → (str_eq name (codes "help") || str_eq name (codes "?")) ≡ true
        → Runs bus csr (name ∷ args) s (some (goes_on (send help_text s)))
    unfolding str_eq
    help-Runs name e =
        on_pair csr (codes "help") (codes "?") name args s _ e
          (sends csr asks_help (codes "help") args s help_text (inl refl) refl refl refl)
          (sends csr asks_help (codes "?") args s help_text (inr refl) refl refl refl)

    clear-Runs :
        (name : List ℕ)
        → (str_eq name (codes "clear") || str_eq name (codes "cls")) ≡ true
        → Runs bus csr (name ∷ args) s (some (goes_on (send term_clear_screen s)))
    unfolding str_eq
    clear-Runs name e =
        on_pair csr (codes "clear") (codes "cls") name args s _ e
          (sends csr asks_clear (codes "clear") args s term_clear_screen (inl refl) refl refl refl)
          (sends csr asks_clear (codes "cls") args s term_clear_screen (inr refl) refl refl refl)

    reboot-Runs :
        (name : List ℕ)
        → restarts name ≡ true
        → Runs bus csr (name ∷ args) s (some (cmd_reboot bus s))
    unfolding str_eq cmd_reboot
    reboot-Runs name e =
        let text = line "Rebooting..." in
        on_pair csr (codes "reboot") (codes "reset") name args s _ e
          (sends csr asks_reboot (codes "reboot") args s text (inl refl) refl refl refl)
          (sends csr asks_reboot (codes "reset") args s text (inr refl) refl refl refl)

    then-Runs :
        (command : Command) (this name : List ℕ) (r : Option (List ℕ))
        → Names command this
        → reply_of bus csr command this args s.memory s.input ≡ r
        → str_eq this (codes "mem") ≡ false
        → str_eq this (codes "memw") ≡ false
        → restarts this ≡ false
        → Replies r
        → str_eq name this ≡ true
        → Runs bus csr (name ∷ args) s (r >>= (λ text. some (goes_on (send text s))))
    then-Runs command this name r named answer p q back replies e =
        on_name csr this name args s (λ _. r >>= (λ text. some (goes_on (send text s)))) e
          (then_sends csr command this args s r named answer p q back replies)

  -- For 32-bit CSRs and whatever the words of a line are, `run_command` does what the command that the first of them
  -- names does, and only sends that there is no such command if none of the eleven names is the
  -- word. The reply is that of the command, behind what was sent before; the memory and the input
  -- that is left change only as `memory_after` and `input_after` say, and the line buffer does not
  -- change. It comes back unless the word is `reboot` or `reset`; with these the shell reboots.
  pub run_command-Runs :
      (csr : Csrs) (argv : List (List ℕ)) (s : Shell Memory)
      → AreU32 csr
      → Runs bus csr argv s (run_command bus csr argv s)
  unfolding run_command str_eq
  run_command-Runs csr [] s h = record {
    after = s;
    returns = refl;
    memory = refl;
    input = refl;
    words = refl;
    reply = [];
    answers = refl;
    sent = sym (append-nil s.sent);
  }
  run_command-Runs csr (name ∷ args) s h =
      let argv = name ∷ args in
      let is = str_eq name in
      on_test (is (codes "help") || is (codes "?")) csr argv s _ _ (help-Runs csr args s name)
        λ no_help.
          on_test (is (codes "info")) csr argv s _ _
            (then-Runs csr args s asks_info (codes "info") name (cmd_info csr) refl refl refl refl
              refl (cmd_info-Replies csr h))
            λ no_info.
              on_test (is (codes "csr")) csr argv s _ _
                (then-Runs csr args s asks_csr (codes "csr") name (cmd_csr csr) refl refl refl refl
                  refl (cmd_csr-Replies csr h))
                λ no_csr.
                  on_test (is (codes "mem")) csr argv s _ _
                    (λ e.
                      on_name csr (codes "mem") name args s
                        (λ n. some (goes_on (cmd_mem bus (n ∷ args) s))) e (mem-Runs csr args s))
                    λ no_mem.
                      on_test (is (codes "memw")) csr argv s _ _
                        (λ e.
                          on_name csr (codes "memw") name args s
                            (λ n. some (goes_on (cmd_memw bus (n ∷ args) s))) e
                            (memw-Runs csr args s))
                        λ no_memw.
                          on_test (is (codes "perf")) csr argv s _ _
                            (then-Runs csr args s asks_perf (codes "perf") name (cmd_perf csr) refl
                              refl refl refl refl (cmd_perf-Replies csr h))
                            λ no_perf.
                              on_test (is (codes "clear") || is (codes "cls")) csr argv s _ _
                                (clear-Runs csr args s name)
                                λ no_clear.
                                  on_test (is (codes "reboot") || is (codes "reset")) csr argv s _ _
                                    (reboot-Runs csr args s name)
                                    λ no_reboot.
                                      let (n1, n2) =
                                        neither name (codes "help") (codes "?") no_help in
                                      let (n8, n9) =
                                        neither name (codes "clear") (codes "cls") no_clear in
                                      let (n10, n11) =
                                        neither name (codes "reboot") (codes "reset") no_reboot in
                                      let unnamed : Names unknown name = (
                                        n1,
                                        (
                                          n2,
                                          (
                                            differs name (codes "info") no_info,
                                            (
                                              differs name (codes "csr") no_csr,
                                              (
                                                differs name (codes "mem") no_mem,
                                                (
                                                  differs name (codes "memw") no_memw,
                                                  (
                                                    differs name (codes "perf") no_perf,
                                                    (n8, (n9, (n10, (n11, tt)))),
                                                  ),
                                                ),
                                              ),
                                            ),
                                          ),
                                        ),
                                      ) in
                                      let run =
                                        sends csr unknown name args s (unknown_text name) unnamed
                                          refl no_mem no_memw in
                                      rw no_reboot at run
