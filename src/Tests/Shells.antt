-- ===== src/Tests/Shells.antt =====
-- The theorems on the shell at concrete inputs.
use mycpu_4soc_game_port.Common.{
  ℕ, ◌+◌, ◌-◌, ◌/◌, ◌%◌, ◌^◌, ◌≡◌, refl, inl, arith, none, some, List, [], ◌∷◌, ◌++◌, get_or, set,
  replicate, if◌then◌else◌, ◌==◌, u32,
}
use mycpu_4soc_game_port.Common.Text.{codes}
use mycpu_4soc_game_port.Shell.Numbers.{print_uint, print_hex, hex_digit, parse_hex, udiv, umod}
use mycpu_4soc_game_port.Shell.Numbers.Hex.{parse_hex-print_hex}
use mycpu_4soc_game_port.Shell.Numbers.Decimal.{Prints, print_uint-Prints}
use mycpu_4soc_game_port.Shell.Numbers.Division.{udiv-umod_lem}
use mycpu_4soc_game_port.Shell.Runtime.{memmove}
use mycpu_4soc_game_port.Shell.Runtime.Move.{is_in, memmove_lem}
use mycpu_4soc_game_port.Shell.Buffer.{Words, line_buf, line_buf_write_byte}
use mycpu_4soc_game_port.Shell.Buffer.Write.{AreWords, line_buf_write_byte-Stores}
use mycpu_4soc_game_port.Shell.Editor.{read_line}
use mycpu_4soc_game_port.Shell.Editor.Typing.{
  type_keys, received, NoEnter, ReadsLine, read_line-ReadsLine,
}
use mycpu_4soc_game_port.Shell.Args.{parse_args}
use mycpu_4soc_game_port.Shell.Args.Parse.{ArgsOf, parse_args-ArgsOf}
use mycpu_4soc_game_port.Shell.Command.{Csrs, cpi_line}
use mycpu_4soc_game_port.Shell.Command.Replies.{AreU32}
use mycpu_4soc_game_port.Shell.Command.Cpi.{ShowsRatio, cpi_line-ShowsRatio}
use mycpu_4soc_game_port.Shell.Main.{Loaded, Bus, Shell, run_command, shell_round}
use mycpu_4soc_game_port.Shell.Main.Meaning.{Runs}
use mycpu_4soc_game_port.Shell.Main.Effect.{run_command-Runs}
use mycpu_4soc_game_port.Shell.Main.Round.{IsReady, RunsLine, shell_round-RunsLine}
use mycpu_4soc_game_port.Shell.Main.Memory.{memw_text, mem_text}
use mycpu_4soc_game_port.Shell.Main.ReadsBack.{ReadsBack, mem-memw}

abbrev zeros : Words
zeros = replicate 21 0

-- A load from the receive register takes the next byte.
abbrev receive : ℕ → List ℕ → Loaded ℕ
receive m [] = record { word = 0; memory = m; input = [] }
receive m (byte ∷ input) = record { word = byte; memory = m; input = input }

-- A memory of one word, which every other address reads and writes.
abbrev one_word : Bus
one_word = record {
  Memory = ℕ;
  load = λ a m input.
      if a == 0x4000000C then receive m input else (record { word = m; memory = m; input = input });
  store = λ a v m. (v, []);
}

abbrev csrs : Csrs
csrs = record {
  mvendorid = 0;
  marchid = 5;
  mimpid = 1;
  mhartid = 0;
  misa = 0x40000100;
  mstatus = 0x1800;
  mcycle = 50000000;
  minstret = 25000000;
}

csrs-AreU32 : AreU32 csrs
csrs-AreU32 = record { mhartid = omega arith; mcycle = omega arith; minstret = omega arith }

abbrev shell : List ℕ → Shell ℕ
shell input = record { memory = 7; words = zeros; input = input; sent = [] }

shell-IsReady : (input : List ℕ) → IsReady one_word (shell input)
shell-IsReady input = record { size = refl; widths = omega arith }

-- "mem", a typing error and two deletes, and " 8".
abbrev keys : List ℕ
keys = codes "memxy" ++ (127 ∷ 8 ∷ codes " 8")

typed : type_keys (received keys) [] ≡ codes "mem 8"
typed = refl

keys_go_on : NoEnter (received keys)
keys_go_on = (refl, (refl, (refl, (refl, (refl, (refl, (refl, (refl, (refl, tt)))))))))

abbrev no_load : Words
no_load = 0x206d656d ∷ 0x38 ∷ replicate 19 0

line_of_words : line_buf no_load ≡ codes "mem 8" ++ (0 ∷ replicate 78 0)
unfolding line_buf
line_of_words = refl

memmove_lem_example : get_or (memmove 2 1 3 (1 ∷ 2 ∷ 3 ∷ 4 ∷ 5 ∷ [])) 3 0 ≡ (
    if is_in 2 3 3
    then get_or (1 ∷ 2 ∷ 3 ∷ 4 ∷ 5 ∷ []) (1 + (3 - 2)) 0
    else get_or (1 ∷ 2 ∷ 3 ∷ 4 ∷ 5 ∷ []) 3 0)
memmove_lem_example = memmove_lem 2 1 3 (1 ∷ 2 ∷ 3 ∷ 4 ∷ 5 ∷ []) 3 (omega arith)

blank_ends : hex_digit b' ' ≡ none
unfolding hex_digit
blank_ends = refl

parse_hex-print_hex_example :
    parse_hex (codes "0x" ++ (print_hex 0xf 1 ++ (b' ' ∷ []))) ≡ u32 (0xf % 16 ^ 1)
parse_hex-print_hex_example =
    parse_hex-print_hex (codes "0x") 0xf 1 (b' ' ∷ []) (inl refl) blank_ends

print_uint-Prints_example : Prints 4294967295 (print_uint 4294967295)
print_uint-Prints_example = print_uint-Prints 4294967295 (omega arith)

udiv-umod_lem_example :
    (udiv 1000 7 ≡ some (if 7 == 0 then 0 else 1000 / 7))
    × (umod 1000 7 ≡ some (if 7 == 0 then 0 else 1000 % 7))
udiv-umod_lem_example = udiv-umod_lem 1000 7 (omega arith)

line_buf_write_byte-Stores_example :
    (line_buf (line_buf_write_byte 6 b'a' zeros) ≡ set (line_buf zeros) 6 b'a')
    × AreWords (line_buf_write_byte 6 b'a' zeros)
line_buf_write_byte-Stores_example =
    line_buf_write_byte-Stores 6 b'a' zeros (omega arith) (omega arith)

read_line-ReadsLine_example :
    ReadsLine (type_keys (received keys) []) [] (read_line (keys ++ (13 ∷ [])) zeros [])
read_line-ReadsLine_example =
    read_line-ReadsLine keys 13 [] zeros [] refl (omega arith) keys_go_on refl

parse_args-ArgsOf_example : ArgsOf (codes "mem 8") no_load (parse_args no_load)
parse_args-ArgsOf_example =
    parse_args-ArgsOf (codes "mem 8") (replicate 78 0) no_load (omega arith) (omega arith)
      (omega arith) line_of_words

cpi_line-ShowsRatio_example : ShowsRatio 50000000 25000000 (cpi_line 50000000 25000000)
cpi_line-ShowsRatio_example = cpi_line-ShowsRatio 50000000 25000000 (omega arith) (omega arith)

run_command-Runs_example :
    Runs one_word csrs
      (codes "mem" ∷ codes "4000000c" ∷ [])
      (shell (13 ∷ 10 ∷ []))
      (run_command one_word csrs (codes "mem" ∷ codes "4000000c" ∷ []) (shell (13 ∷ 10 ∷ [])))
run_command-Runs_example =
    run_command-Runs one_word csrs (codes "mem" ∷ codes "4000000c" ∷ []) (shell (13 ∷ 10 ∷ []))
      csrs-AreU32

shell_round-RunsLine_example :
    RunsLine one_word csrs
      (type_keys (received keys) [])
      []
      (shell (keys ++ (10 ∷ [])))
      (shell_round one_word csrs (shell (keys ++ (10 ∷ []))))
shell_round-RunsLine_example =
    shell_round-RunsLine one_word csrs keys 10 [] (shell (keys ++ (10 ∷ []))) csrs-AreU32
      (shell-IsReady (keys ++ (10 ∷ []))) keys_go_on refl refl

mem-memw_example :
    ReadsBack one_word csrs csrs 16 0xcafe
      (shell (memw_text 16 0xcafe ++ (13 ∷ (mem_text 16 ++ (13 ∷ [])))))
mem-memw_example =
    mem-memw one_word csrs csrs 16 0xcafe []
      (shell (memw_text 16 0xcafe ++ (13 ∷ (mem_text 16 ++ (13 ∷ []))))) (λ m input. refl)
      csrs-AreU32 csrs-AreU32 (shell-IsReady _) (omega arith) (omega arith) (omega arith) refl
