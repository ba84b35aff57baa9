-- ===== src/Tests/Animations.antt =====
-- The theorems on the animation at concrete inputs.
use mycpu_4soc_game_port.Common.{
  ℕ, ◌≡◌, refl, arith, ◌<◌, ◌^◌, true, some, none, List, [], ◌∷◌, ◌++◌, replicate, length, map,
}
use mycpu_4soc_game_port.Nyancat.Decoder.{decode_rle, decode_delta}
use mycpu_4soc_game_port.Nyancat.Encoder.{
  set_color, count_same, encode_run, encode_skip, compress_rle, compress_delta, compress_changed,
  count_unchanged, count_changed,
}
use mycpu_4soc_game_port.Nyancat.Generator.{
  Header, generate_header, compress_frames, compress_changes, get_color, map_color_to_palette,
  flatten, more_offsets,
}
use mycpu_4soc_game_port.Nyancat.Frame.{Coded, decode_rle-compress_rle}
use mycpu_4soc_game_port.Nyancat.Delta.{decode_delta-compress_delta}
use mycpu_4soc_game_port.Nyancat.Upload.{Video, Build, main}
use mycpu_4soc_game_port.Nyancat.Codes.{AreFrames, colors, map_color-AreColors}
use mycpu_4soc_game_port.Nyancat.Tour.{compressed, Plays, main-Plays, generate_header-returns}
use mycpu_4soc_game_port.Nyancat.Packed.{packed_frames, main-packed}

abbrev night : List ℕ
night = replicate 4096 b','

abbrev day : List ℕ
day = replicate 2048 b'.' ++ replicate 2048 b','

abbrev frames : List (List ℕ)
frames = night ∷ day ∷ day ∷ night ∷ night ∷ day ∷ night ∷ night ∷ day ∷ night ∷ day ∷ night ∷ []

-- The bytes of a first night, of a change to day, of no change and of a change to night.
abbrev first : List ℕ
first = 0x00 ∷ (replicate 16 0x3F ++ (0xFF ∷ []))

abbrev to_day : List ℕ
to_day = 0x01 ∷ (replicate 8 0x4F ++ (0x5F ∷ 0x5F ∷ 0xFF ∷ []))

abbrev as_before : List ℕ
as_before = 0x5F ∷ 0x5F ∷ 0x5F ∷ 0x5F ∷ 0xFF ∷ []

abbrev to_night : List ℕ
to_night = 0x00 ∷ (replicate 8 0x4F ++ (0x5F ∷ 0x5F ∷ 0xFF ∷ []))

abbrev header : Header
header = record {
  offsets = 0 ∷ 18 ∷ 30 ∷ 35 ∷ 47 ∷ 52 ∷ 64 ∷ 76 ∷ 81 ∷ 93 ∷ 105 ∷ 117 ∷ [];
  compressed_data = flatten (
      first ∷ to_day ∷ as_before ∷ to_night ∷ as_before ∷ to_day ∷ to_night ∷ as_before ∷ to_day
      ∷ to_night ∷ to_day ∷ to_night ∷ []);
}

written : generate_header 5000 true frames ≡ some header
unfolding compress_rle count_same encode_run set_color get_color map_color_to_palette flatten
    more_offsets compress_changes compress_frames compress_delta count_unchanged count_changed
    encode_skip compress_changed generate_header
written = refl

frames-AreFrames : AreFrames frames
frames-AreFrames = (
  refl,
  (refl, (refl, (refl, (refl, (refl, (refl, (refl, (refl, (refl, (refl, (refl, tt))))))))))),
)

header-small : length header.compressed_data < 2 ^ 16
unfolding flatten
header-small = omega arith

abbrev display : Video
display = record {
  frame_buffer = replicate 4096 0;
  prev_frame_buffer = replicate 4096 0;
  writes = [];
}

main-Plays_example :
    Plays 0x56474131 (colors frames) 30 [] (main 0x56474131 (compressed true header) 30 display)
main-Plays_example =
    main-Plays 0x56474131 5000 true frames header 30 display (omega arith) refl frames-AreFrames
      written header-small refl

main-packed_example :
    main 0x56474131 (Build.prepacked (packed_frames (colors frames))) 30 display
    ≡ main 0x56474131 (compressed true header) 30 display
main-packed_example =
    main-packed 0x56474131 5000 true frames header 30 display (omega arith) refl frames-AreFrames
      written header-small refl

abbrev night_colors : List ℕ
night_colors = map map_color_to_palette night

abbrev day_colors : List ℕ
day_colors = map map_color_to_palette day

decode_rle-compress_rle_example :
    Coded day_colors (λ bytes. decode_rle bytes night_colors) (compress_rle 4097 day_colors none)
decode_rle-compress_rle_example =
    decode_rle-compress_rle day_colors night_colors 4097 refl refl (map_color-AreColors day)
      (omega arith)

decode_delta-compress_delta_example :
    Coded day_colors
      (λ bytes. decode_delta bytes night_colors)
      (compress_delta 4097 night_colors day_colors none)
decode_delta-compress_delta_example =
    decode_delta-compress_delta night_colors day_colors 4097 refl refl (map_color-AreColors day)
      (omega arith)

generate_header-returns_example : (made : Header) × (generate_header 4097 true frames ≡ some made)
generate_header-returns_example =
    generate_header-returns 4097 true frames (omega arith) refl frames-AreFrames
