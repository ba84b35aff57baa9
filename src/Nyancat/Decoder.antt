-- ===== src/Nyancat/Decoder.antt =====
-- The decoders of 4-soc/csrc/nyancat.c: run-length frames, and frames as changes of the frame before.
-- The bytes from `p` to `data_end` are a list, and the frame buffer is a list of 4096 colors.
use package.mycpu_4soc_game_port.Common.{
  ℕ, zero, suc, ◌+◌, ◌*◌, bit_and, not, ◌&&◌, ltb, ◌==◌, if◌then◌else◌, List, [], ◌∷◌, set,
}

abbrev pub frame_size : ℕ
frame_size = 4096

abbrev pub end_of_frame : ℕ
end_of_frame = 0xFF

-- `opcode & OPCODE_MASK` and `opcode & PARAM_MASK`
abbrev pub opcode_type : ℕ → ℕ
opcode_type opcode = bit_and opcode 0xF0

abbrev pub param : ℕ → ℕ
param opcode = bit_and opcode 0x0F

-- `output_index` or `pos`, `current_color` and `frame_buffer`.
pub record Decoder : Type 0 where
  pub index : ℕ
  pub color : ℕ
  pub buffer : List ℕ

-- `for (i = 0; i < count && index < FRAME_SIZE; i++) frame_buffer[index++] = current_color;` with
-- `count` rounds left.
unfoldable pub fill_run : ℕ → Decoder → Decoder
fill_run zero d = d
fill_run (suc count) d =
    let rest =
      fill_run count (record d { index = d.index + 1; buffer = set d.buffer d.index d.color }) in
    if ltb d.index frame_size then rest else d

-- A round of the loop over a frame that is coded by itself.
unfoldable pub rle_round : ℕ → Decoder → Decoder
rle_round opcode d =
    if opcode_type opcode == 0x00
    then record d { color = param opcode }
    else if opcode_type opcode == 0x20
    then fill_run (param opcode + 1) d
    else if opcode_type opcode == 0x30
    then fill_run ((param opcode + 1) * 16) d
    else d

-- `while (output_index < FRAME_SIZE && p < data_end)`
unfoldable pub rle_loop : List ℕ → Decoder → Decoder
rle_loop [] d = d
rle_loop (opcode ∷ p) d =
    let rest = rle_loop p (rle_round opcode d) in
    if ltb d.index frame_size && not (opcode == end_of_frame) then rest else d

-- `while (output_index < FRAME_SIZE) frame_buffer[output_index++] = 0;`, with `left` rounds left.
unfoldable pub fill_rest : ℕ → Decoder → Decoder
fill_rest zero d = d
fill_rest (suc left) d =
    let rest = fill_rest left (record d { index = d.index + 1; buffer = set d.buffer d.index 0 }) in
    if ltb d.index frame_size then rest else d

unfoldable pub decode_rle : List ℕ → List ℕ → List ℕ
decode_rle compressed buffer =
    (fill_rest frame_size
      (rle_loop compressed (record { index = 0; color = 0; buffer = buffer }))).buffer

-- `pos += skip;`
abbrev pub skip : ℕ → Decoder → Decoder
skip n d = record d { index = d.index + n }

-- A round of the loop over a frame that is coded by its changes.
unfoldable pub delta_round : ℕ → Decoder → Decoder
delta_round opcode d =
    if opcode_type opcode == 0x00
    then record d { color = param opcode }
    else if opcode_type opcode == 0x10
    then skip (param opcode + 1) d
    else if opcode_type opcode == 0x20
    then fill_run (param opcode + 1) d
    else if opcode_type opcode == 0x30
    then skip ((param opcode + 1) * 16) d
    else if opcode_type opcode == 0x40
    then fill_run ((param opcode + 1) * 16) d
    else if opcode_type opcode == 0x50
    then skip ((param opcode + 1) * 64) d
    else d

-- `while (pos < FRAME_SIZE && p < data_end)`
unfoldable pub delta_loop : List ℕ → Decoder → Decoder
delta_loop [] d = d
delta_loop (opcode ∷ p) d =
    let rest = delta_loop p (delta_round opcode d) in
    if ltb d.index frame_size && not (opcode == end_of_frame) then rest else d

-- `copy_buffer(frame_buffer, prev_frame_buffer, FRAME_SIZE);` and the loop.
unfoldable pub decode_delta : List ℕ → List ℕ → List ℕ
decode_delta compressed prev =
    (delta_loop compressed (record { index = 0; color = 0; buffer = prev })).buffer
