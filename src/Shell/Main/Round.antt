-- ===== src/Shell/Main/Round.antt =====
-- A round of the loop in `main` of 4-soc/csrc/shell.c: from the keys to the command.
use mycpu_4soc_game_port.Common.{
  ℕ, ◌-◌, ◌%◌, ◌≤◌, ◌≡◌, refl, sym, ap, subst, ◌∙◌, arith, true, ltb, Bool-cases, inl, inr, Option,
  some, List, [], ◌∷◌, ◌++◌, length, take, replicate,
}
use mycpu_4soc_game_port.Common.Fill.{fill, fill-replicate}
use mathlib.Core.List.{append_assoc, append-nil}
use mycpu_4soc_game_port.Shell.Buffer.{line_buf_size, line_buf_length, line_buf}
use mycpu_4soc_game_port.Shell.Buffer.Write.{AreWords}
use mycpu_4soc_game_port.Shell.Editor.{is_enter, read_line}
use mycpu_4soc_game_port.Shell.Editor.Typing.{
  type_keys, received, NoEnter, AllPrintable, read_line-ReadsLine,
}
use mycpu_4soc_game_port.Shell.Args.{max_args}
use mycpu_4soc_game_port.Shell.Args.Split.{words_of, NoZero}
use mycpu_4soc_game_port.Shell.Args.Parse.{parse_args-ArgsOf}
use mycpu_4soc_game_port.Shell.Command.{Csrs, prompt}
use mycpu_4soc_game_port.Shell.Command.Replies.{AreU32}
use mycpu_4soc_game_port.Shell.Main.{
  Bus, Shell, Flow, goes_on, uart_enable, run_command, process_command, clear_words, shell_start,
  shell_round,
}
use mycpu_4soc_game_port.Shell.Main.Meaning.{ending, memory_after, input_after, Answers}
use mycpu_4soc_game_port.Shell.Main.Effect.{run_command-Runs}

AllPrintable-NoZero : (text : List ℕ) → AllPrintable text → NoZero text
AllPrintable-NoZero [] h = tt
AllPrintable-NoZero (c ∷ text) h = (ground arith, AllPrintable-NoZero text h.2)

module _ (bus : Bus) where
  open bus use {Memory, store}

  -- The line buffer as `main` leaves it between two rounds.
  pub record IsReady (s : Shell Memory) : Type 0 where
    pub size : length s.words ≡ line_buf_length
    pub widths : AreWords s.words

  -- A round that reads a line of text, with some input left behind it, and runs its first eight words.
  pub record RunsLine (csr : Csrs) (text left : List ℕ) (s : Shell Memory)
      (result : Option (Flow Memory)) : Type 0 where
    pub before : Shell Memory
    pub after : Shell Memory
    pub returns : result ≡ some (ending (take max_args (words_of text)) after)
    pub same : before.memory ≡ s.memory
    pub waiting : before.input ≡ left
    pub memory : after.memory ≡ memory_after bus (take max_args (words_of text)) s.memory left
    pub input : after.input ≡ input_after bus (take max_args (words_of text)) s.memory left
    pub command :
        run_command bus csr (take max_args (words_of text)) before
        ≡ some (ending (take max_args (words_of text)) after)
    pub reply : List ℕ
    pub answers : Answers bus csr (take max_args (words_of text)) before reply
    pub sent : after.sent ≡ before.sent ++ reply
    pub ready : IsReady after

  -- A line as `read_line` leaves it.
  record Ready (text left : List ℕ) (s : Shell Memory) : Type 0 where
    size : length s.words ≡ line_buf_length
    widths : AreWords s.words
    input : s.input ≡ left
    room : length text ≤ line_buf_size - 1
    plain : AllPrintable text
    rest : List ℕ
    starts : line_buf s.words ≡ (text ++ (0 ∷ [])) ++ rest

  runs_line :
      (csr : Csrs) (text left : List ℕ) (s : Shell Memory)
      → AreU32 csr
      → Ready text left s
      → RunsLine csr text left s (process_command bus csr s)
  unfolding process_command
  runs_line csr text left s h ready =
      let args =
        parse_args-ArgsOf text ready.rest s.words (omega (arith, ready.room))
          (AllPrintable-NoZero text ready.plain) ready.widths
          (ready.starts ∙ append_assoc text (0 ∷ []) ready.rest) in
      let s' = record s { words = args.words } in
      let run = run_command-Runs bus csr (take max_args (words_of text)) s' h in
      record {
        before = s';
        after = run.after;
        returns = rw args.returns (ap (λ a. run_command bus csr a s') args.strings ∙ run.returns);
        same = refl;
        waiting = ready.input;
        memory =
            run.memory ∙ ap (memory_after bus (take max_args (words_of text)) s.memory) ready.input;
        input =
            run.input ∙ ap (input_after bus (take max_args (words_of text)) s.memory) ready.input;
        command = run.returns;
        reply = run.reply;
        answers = run.answers;
        sent = run.sent;
        ready = record {
          size = ap length run.words ∙ args.size ∙ ready.size;
          widths = subst AreWords (sym run.words) args.widths;
        };
      }

  nothing_asked : (csr : Csrs) (s : Shell Memory) → run_command bus csr [] s ≡ some (goes_on s)
  unfolding run_command
  nothing_asked csr s = refl

  empty_line :
      (csr : Csrs) (text left : List ℕ) (s s' : Shell Memory)
      → length text ≡ 0
      → s'.memory ≡ s.memory
      → s'.input ≡ left
      → IsReady s'
      → RunsLine csr text left s (some (goes_on s'))
  empty_line csr [] left s s' e memory input ready = record {
    before = s';
    after = s';
    returns = refl;
    same = memory;
    waiting = input;
    memory = memory;
    input = input;
    command = nothing_asked csr s';
    reply = [];
    answers = refl;
    sent = sym (append-nil s'.sent);
    ready = ready;
  }
  empty_line csr (c ∷ text) left s s' e memory input ready = absurd (omega arith)

  runs_after :
      (text left : List ℕ) (csr : Csrs) (s s' : Shell Memory)
      → AreU32 csr
      → s'.memory ≡ s.memory
      → Ready text left s'
      → RunsLine csr text left s (process_command bus csr s')
  runs_after text left csr s s' h memory ready =
      let run = runs_line csr text left s' h ready in
      let words = take max_args (words_of text) in
      record {
        before = run.before;
        after = run.after;
        returns = run.returns;
        same = run.same ∙ memory;
        waiting = run.waiting;
        memory = run.memory ∙ ap (λ (m : Memory). memory_after bus words m left) memory;
        input = run.input ∙ ap (λ (m : Memory). input_after bus words m left) memory;
        command = run.command;
        reply = run.reply;
        answers = run.answers;
        sent = run.sent;
        ready = run.ready;
      }

  -- With a line buffer as `main` leaves it and 32-bit CSRs, whatever the keys are, as soon as one
  -- ends the line a round of the loop in `main` has its result. It has done what the first eight
  -- words of the line that the keys before it type ask for: the reply is that of the command that the
  -- first word names, and of the memory and of the input behind the end of the line it leaves what
  -- `memory_after` and `input_after` say. If the word is `reboot` or `reset` the result is that the
  -- shell reboots; otherwise the round comes back, and the line buffer is fit for the next one.
  pub shell_round-RunsLine :
      (csr : Csrs) (keys : List ℕ) (recv : ℕ) (left : List ℕ) (s : Shell Memory)
      → AreU32 csr
      → IsReady s
      → NoEnter (received keys)
      → is_enter (recv % 256) ≡ true
      → s.input ≡ keys ++ (recv ∷ left)
      → RunsLine csr (type_keys (received keys) []) left s (shell_round bus csr s)
  unfolding shell_round
  shell_round-RunsLine csr keys recv left s h ready keys_only enter input =
      let l =
        read_line-ReadsLine keys recv left s.words (s.sent ++ prompt) ready.size ready.widths
          keys_only enter in
      let s' = record s { words = l.editor.words; input = left; sent = l.editor.sent } in
      let reads : read_line s.input s.words (s.sent ++ prompt) ≡ some (l.editor, left) =
        ap (λ i. read_line i s.words (s.sent ++ prompt)) input ∙ l.returns in
      rw reads (elim (Bool-cases (ltb 0 l.editor.len)) [
        | inl filled ↦ rw filled (
            runs_after (type_keys (received keys) []) left csr s s' h refl (record {
              size = l.carries.size;
              widths = l.carries.widths;
              input = refl;
              room = l.room;
              plain = l.plain;
              rest = l.carries.starts.0;
              starts = l.carries.starts.1;
            }))
        | inr empty ↦ rw empty (
            empty_line csr (type_keys (received keys) []) left s s' (ground (arith, l.count)) refl
              refl (record { size = l.carries.size; widths = l.carries.widths }))
      ])

  -- `main` clears the line buffer, whatever it held, and enables the UART, before its first round.
  pub shell_start-IsReady :
      (s : Shell Memory)
      → length s.words ≡ line_buf_length
      → IsReady (shell_start bus s)
        × ((shell_start bus s).memory ≡ (store uart_enable 1 s.memory).0)
  unfolding shell_start clear_words
  shell_start-IsReady s size =
      let zeros : fill 21 0 (λ _. 0) s.words ≡ replicate 21 0 = fill-replicate 0 21 s.words size in
      (record { size = ap length zeros; widths = subst AreWords (sym zeros) (omega arith) }, refl)
