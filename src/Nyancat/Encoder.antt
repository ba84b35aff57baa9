-- ===== src/Nyancat/Encoder.antt =====
-- The compression of scripts/gen-nyancat-data.py: `compress_frame_opcode_rle` and
-- `compress_delta_frame`, on the colors of the pixels. A `while` loop has fuel, and is `none` when
-- that runs out; `current_color` is `none` where the script has -1, which is no color. That
-- the script stops when a frame does not have 4096 pixels does not appear; every theorem takes that
-- number as a hypothesis.
use package.mycpu_4soc_game_port.Common.{
  ℕ, zero, suc, ◌+◌, ◌-◌, ◌*◌, ◌/◌, min, bit_or, ◌&&◌, not, leb, ◌==◌, if◌then◌else◌, Option, none,
  some, ◌>>=◌, List, [], ◌∷◌, ◌++◌,
}

abbrev pub drop : ℕ → List ℕ → List ℕ
drop zero xs = xs
drop (suc n) [] = []
drop (suc n) (x ∷ xs) = drop n xs

-- `if color != current_color: opcodes.append(0x00 | color)`
unfoldable pub set_color : Option ℕ → ℕ → List ℕ
set_color none color = bit_or 0x00 color ∷ []
set_color (some current) color = if color == current then [] else bit_or 0x00 color ∷ []

-- How many of the next pixels have the color.
unfoldable pub count_same : ℕ → List ℕ → ℕ
count_same color [] = 0
count_same color (x ∷ xs) = if x == color then suc (count_same color xs) else 0

-- The `while` loop over a run, which the script has twice (it also tests `chunks`, which is never 0
-- there): `long` is the opcode of the long runs,
-- 0x30 in a frame that is coded by itself and 0x40 in the changes of a frame.
unfoldable pub encode_run : ℕ → ℕ → ℕ → Option (List ℕ)
encode_run long zero remaining = none
encode_run long (suc fuel) remaining =
    let chunks = min (remaining / 16) 16 in
    let shorter = encode_run long fuel (remaining - chunks * 16) in
    let longer = encode_run long fuel (remaining - 256) in
    if remaining == 0
    then some []
    else if leb remaining 16
    then some (bit_or 0x20 (remaining - 1) ∷ [])
    else if leb remaining 256
    then shorter >>= (λ rest. some (bit_or long (chunks - 1) ∷ rest))
    else longer >>= (λ rest. some (bit_or long 0x0F ∷ rest))

-- `compress_frame_opcode_rle`
unfoldable pub compress_rle : ℕ → List ℕ → Option ℕ → Option (List ℕ)
compress_rle zero pixels current = none
compress_rle (suc fuel) [] current = some (0xFF ∷ [])
compress_rle (suc fuel) (color ∷ pixels) current =
    let more = count_same color pixels in
    encode_run 0x30 (more + 2) (more + 1) >>= λ run.
    compress_rle fuel (drop more pixels) (some color) >>= λ rest.
    some (set_color current color ++ (run ++ rest))

-- How many of the next pixels are as in the frame before.
unfoldable pub count_unchanged : List ℕ → List ℕ → ℕ
count_unchanged (p ∷ prev) (c ∷ curr) = if p == c then suc (count_unchanged prev curr) else 0
count_unchanged prev curr = 0

-- How many of the next pixels have changed to the color.
unfoldable pub count_changed : ℕ → List ℕ → List ℕ → ℕ
count_changed color (p ∷ prev) (c ∷ curr) =
    if c == color && not (p == c) then suc (count_changed color prev curr) else 0
count_changed color prev curr = 0

-- The `while` loop over pixels that have not changed; there too `chunks` is never 0.
unfoldable pub encode_skip : ℕ → ℕ → Option (List ℕ)
encode_skip zero remaining = none
encode_skip (suc fuel) remaining =
    let chunks = min (remaining / 16) 16 in
    let blocks = min (remaining / 64) 16 in
    let shorter = encode_skip fuel (remaining - chunks * 16) in
    let longer = encode_skip fuel (remaining - blocks * 64) in
    let longest = encode_skip fuel (remaining - 1024) in
    if remaining == 0
    then some []
    else if leb remaining 16
    then some (bit_or 0x10 (remaining - 1) ∷ [])
    else if leb remaining 256
    then shorter >>= (λ rest. some (bit_or 0x30 (chunks - 1) ∷ rest))
    else if leb remaining 1024
    then longer >>= (λ rest. some (bit_or 0x50 (blocks - 1) ∷ rest))
    else longest >>= (λ rest. some (bit_or 0x50 0x0F ∷ rest))

-- The rest of a round behind the unchanged pixels, with the rounds that follow as a function.
unfoldable pub compress_changed :
    (List ℕ → List ℕ → Option ℕ → Option (List ℕ)) → List ℕ → List ℕ → Option ℕ → Option (List ℕ)
compress_changed next (p ∷ prev) (color ∷ curr) current =
    let more = count_changed color prev curr in
    encode_run 0x40 (more + 2) (more + 1) >>= λ run.
    next (drop more prev) (drop more curr) (some color) >>= λ rest.
    some (set_color current color ++ (run ++ rest))
compress_changed next prev curr current = some (0xFF ∷ [])

-- `compress_delta_frame`
unfoldable pub compress_delta : ℕ → List ℕ → List ℕ → Option ℕ → Option (List ℕ)
compress_delta zero prev curr current = none
compress_delta (suc fuel) prev curr current =
    let same = count_unchanged prev curr in
    encode_skip (same + 1) same >>= λ skips.
    compress_changed (compress_delta fuel) (drop same prev) (drop same curr) current >>= λ rest.
    some (skips ++ rest)
