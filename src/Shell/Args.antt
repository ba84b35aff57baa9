-- ===== src/Shell/Args.antt =====
-- `parse_args` of 4-soc/csrc/shell.c. A pointer into the line is its index, and `argc` is the
-- length of `argv`. Each loop has fuel, and is `none` when that runs out.
pub mod Split
pub mod Scan
pub mod Round
pub mod Word
pub mod Parse
use package.mycpu_4soc_game_port.Common.{
  ℕ, zero, suc, ◌+◌, not, ◌&&◌, ltb, ◌==◌, if◌then◌else◌, Option, none, some, ◌>>=◌, List, [], ◌∷◌,
  ◌++◌, length, get_or,
}
use package.mycpu_4soc_game_port.Shell.Buffer.{Words, line_buf, line_buf_write_byte}

abbrev pub max_args : ℕ
max_args = 8

-- More rounds than the buffer has bytes.
abbrev pub scan_fuel : ℕ
scan_fuel = 84

-- `while (line[idx] == ' ') idx++;`
unfoldable pub skip_spaces : ℕ → List ℕ → ℕ → Option ℕ
skip_spaces zero line idx = none
skip_spaces (suc fuel) line idx =
    let rest = skip_spaces fuel line (idx + 1) in
    if get_or line idx 0 == b' ' then rest else some idx

-- `while (line[idx] && line[idx] != ' ') idx++;`
unfoldable pub find_end : ℕ → List ℕ → ℕ → Option ℕ
find_end zero line idx = none
find_end (suc fuel) line idx =
    let rest = find_end fuel line (idx + 1) in
    if not (get_or line idx 0 == 0) && not (get_or line idx 0 == b' ') then rest else some idx

-- `if (line[idx]) { line_buf_write_byte(idx, '\0'); idx++; }`
unfoldable pub end_arg : ℕ → Words → ℕ × Words
end_arg idx words =
    if not (get_or (line_buf words) idx 0 == 0)
    then (idx + 1, line_buf_write_byte idx 0 words)
    else (idx, words)

unfoldable pub args_loop : ℕ → List ℕ → ℕ → Words → Option (List ℕ × Words)
args_loop zero argv idx words = none
args_loop (suc fuel) argv idx words =
    if not (get_or (line_buf words) idx 0 == 0) && ltb (length argv) max_args
    then skip_spaces scan_fuel (line_buf words) idx >>= (λ start.
      let rest = find_end scan_fuel (line_buf words) start >>= (λ stop.
        let (idx', words') = end_arg stop words in
        args_loop fuel (argv ++ (start ∷ [])) idx' words') in
      if get_or (line_buf words) start 0 == 0 then some (argv, words) else rest)
    else some (argv, words)

-- `argv` and the buffer.
unfoldable pub parse_args : Words → Option (List ℕ × Words)
parse_args words = args_loop (suc max_args) [] 0 words

abbrev pub until_zero : List ℕ → List ℕ
until_zero [] = []
until_zero (c ∷ s) = if c == 0 then [] else c ∷ until_zero s

abbrev pub drop : ℕ → List ℕ → List ℕ
drop zero xs = xs
drop (suc n) [] = []
drop (suc n) (x ∷ xs) = drop n xs

-- The text that a pointer into the line stands for.
abbrev pub c_string : List ℕ → ℕ → List ℕ
c_string line idx = until_zero (drop idx line)
