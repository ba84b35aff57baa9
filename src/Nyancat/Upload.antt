-- ===== src/Nyancat/Upload.antt =====
-- The program of 4-soc/csrc/nyancat.c: the palette, the upload of the frames and `main`. The macros
-- USE_PREPACKED_FRAMES and NYANCAT_COMPRESSION_DELTA are the constructor of a build.
use package.mycpu_4soc_game_port.Common.{
  ℕ, zero, suc, ◌+◌, ◌-◌, ◌*◌, ◌^◌, bit_and, bit_or, ltb, ◌==◌, if◌then◌else◌, Option, none, some,
  List, [], ◌∷◌, ◌++◌, length, get_or, take, u16, u32, for_range,
}
use package.mycpu_4soc_game_port.Vga.{
  vga_expected_id, vga_palette, vga_addr_upload_addr, vga_addr_stream_data, vga_addr_ctrl,
  stream_words,
}
use package.mycpu_4soc_game_port.Nyancat.Decoder.{decode_rle, decode_delta}
use package.mycpu_4soc_game_port.Nyancat.Encoder.{drop}
use package.mycpu_4soc_game_port.Nyancat.Generator.{Header}

abbrev pub frame_count : ℕ
frame_count = 12

abbrev pub nyancat_palette : List ℕ
nyancat_palette =
    0x01 ∷ 0x3F ∷ 0x00 ∷ 0x3E ∷ 0x3B ∷ 0x36 ∷ 0x30 ∷ 0x38 ∷ 0x3C ∷ 0x0C ∷ 0x0B ∷ 0x17 ∷ 0x2A ∷ 0x3A
    ∷ []

-- The register writes of `vga_init_palette`, in order.
unfoldable pub vga_init_palette : List (ℕ × ℕ)
vga_init_palette =
    for_range 2 14 (λ i writes. writes ++ ((vga_palette i, 0) ∷ []))
      (for_range 14 0
        (λ i writes. writes ++ ((vga_palette i, bit_and (get_or nyancat_palette i 0) 0x3F) ∷ []))
        [])

-- The frame buffers, and the register writes so far.
pub record Video : Type 0 where
  pub frame_buffer : List ℕ
  pub prev_frame_buffer : List ℕ
  pub writes : List (ℕ × ℕ)

-- The bytes from `compressed_data` to `data_end`.
unfoldable pub frame_bytes : Header → ℕ → List ℕ
frame_bytes header frame_index =
    let offset = u16 (get_or header.offsets frame_index 0) in
    let next_offset =
      if ltb frame_index (frame_count - 1)
      then u16 (get_or header.offsets (frame_index + 1) 0)
      else u16 (length header.compressed_data) in
    take (next_offset - offset) (drop offset header.compressed_data)

-- `vga_write32(VGA_ADDR_UPLOAD_ADDR, ((frame_index & 0xF) << 16) | 0)`
abbrev pub upload_addr : ℕ → ℕ × ℕ
upload_addr frame_index = (vga_addr_upload_addr, bit_or (u32 (bit_and frame_index 15 * 2 ^ 16)) 0)

-- The words of a frame that the host has packed, from word `i` on.
unfoldable pub prepacked_words : ℕ → ℕ → List ℕ → List (ℕ × ℕ)
prepacked_words zero i words = []
prepacked_words (suc left) i words =
    (vga_addr_stream_data, get_or words i 0) ∷ prepacked_words left (i + 1) words

-- `vga_upload_frame_delta` with USE_PREPACKED_FRAMES.
unfoldable pub upload_frame_prepacked : List (List ℕ) → ℕ → Video → Video
upload_frame_prepacked nyancat_frames frame_index v = record v {
  writes =
      v.writes
      ++ (upload_addr frame_index ∷ prepacked_words 512 0 (get_or nyancat_frames frame_index []));
}

-- `vga_upload_frame_delta` without it.
unfoldable pub upload_frame_delta : Header → ℕ → Video → Video
upload_frame_delta header frame_index v =
    let bytes = frame_bytes header frame_index in
    let decoded =
      if frame_index == 0
      then decode_rle bytes v.frame_buffer
      else decode_delta bytes v.prev_frame_buffer in
    record {
      frame_buffer = decoded;
      prev_frame_buffer = decoded;
      writes = v.writes ++ (upload_addr frame_index ∷ stream_words 512 0 decoded);
    }

-- `vga_upload_frame_rle`
unfoldable pub upload_frame_rle : Header → ℕ → Video → Video
upload_frame_rle header frame_index v =
    let decoded = decode_rle (frame_bytes header frame_index) v.frame_buffer in
    record v {
      frame_buffer = decoded;
      writes = v.writes ++ (upload_addr frame_index ∷ stream_words 512 0 decoded);
    }

pub data Build : Type 0 where
  prepacked : List (List ℕ) → Build
  delta : Header → Build
  baseline : Header → Build

unfoldable pub upload_frame : Build → ℕ → Video → Video
upload_frame (prepacked nyancat_frames) = upload_frame_prepacked nyancat_frames
upload_frame (delta header) = upload_frame_delta header
upload_frame (baseline header) = upload_frame_rle header

-- The writes of the loop that shows the frames in turn, in as many rounds as are asked for.
unfoldable pub animate : ℕ → ℕ → List (ℕ × ℕ)
animate zero frame = []
animate (suc rounds) frame =
    (vga_addr_ctrl, bit_or (u32 (frame * 2 ^ 4)) 1)
    ∷ animate rounds (if ltb (frame + 1) frame_count then frame + 1 else 0)

-- What `main` returns, if it does, and what it has written when its last loop has run for the rounds.
unfoldable pub main : ℕ → Build → ℕ → Video → Option ℕ × List (ℕ × ℕ)
main id build rounds v =
    let started = record v {
      writes = v.writes ++ vga_init_palette ++ ((vga_addr_ctrl, 0x01) ∷ []);
    } in
    let uploaded = for_range frame_count 0 (upload_frame build) started in
    if id == vga_expected_id
    then (none, uploaded.writes ++ animate rounds 0)
    else (some 1, v.writes)
