-- ===== src/Nyancat/Generator.antt =====
-- The header of scripts/gen-nyancat-data.py: `map_color_to_palette`, and the table of the frames and
-- their bytes that `generate_header` writes. A frame is the list of its characters.
use package.mycpu_4soc_game_port.Common.{
  ℕ, zero, suc, ◌+◌, Bool, true, false, ◌==◌, if◌then◌else◌, Option, none, some, ◌>>=◌, List, [],
  ◌∷◌, ◌++◌, map, length,
}
use package.mycpu_4soc_game_port.Nyancat.Encoder.{compress_rle, compress_delta}

-- `color_map`
abbrev pub color_map : List (ℕ × ℕ)
color_map =
    (b',', 0)
    ∷ (b'.', 1)
    ∷ (39, 2)
    ∷ (b'@', 3)
    ∷ (b'$', 5)
    ∷ (b'-', 6)
    ∷ (b'>', 6)
    ∷ (b'&', 7)
    ∷ (b'+', 8)
    ∷ (b'#', 9)
    ∷ (b'=', 10)
    ∷ (b';', 11)
    ∷ (b'*', 12)
    ∷ (b'%', 4)
    ∷ []

-- `color_map.get(char, 0)`
unfoldable pub get_color : List (ℕ × ℕ) → ℕ → ℕ
get_color [] char = 0
get_color (entry ∷ entries) char = if char == entry.0 then entry.1 else get_color entries char

unfoldable pub map_color_to_palette : ℕ → ℕ
map_color_to_palette char = get_color color_map char

-- `for i in range(1, 12)` with `left` rounds to go: each of the next frames by what it changes of the
-- one before. It is `none` where the script raises IndexError, as it is when fuel runs out; frames
-- behind those that it asks for are not looked at.
unfoldable pub compress_changes : ℕ → ℕ → List ℕ → List (List ℕ) → Option (List (List ℕ))
compress_changes fuel zero prev frames = some []
compress_changes fuel (suc left) prev [] = none
compress_changes fuel (suc left) prev (curr ∷ frames) =
    compress_delta fuel prev curr none >>= λ delta_opcodes.
    compress_changes fuel left curr frames >>= λ rest. some (delta_opcodes ∷ rest)

-- Every frame by itself.
unfoldable pub compress_all : ℕ → List (List ℕ) → Option (List (List ℕ))
compress_all fuel [] = some []
compress_all fuel (frame ∷ frames) = compress_rle fuel frame none >>= λ opcodes.
    compress_all fuel frames >>= λ rest. some (opcodes ∷ rest)

-- `compressed_frames`. With `use_delta` there must be twelve frames; without it any number will do.
unfoldable pub compress_frames : ℕ → Bool → List (List ℕ) → Option (List (List ℕ))
compress_frames fuel false frames = compress_all fuel frames
compress_frames fuel true [] = none
compress_frames fuel true (frame ∷ frames) = compress_rle fuel frame none >>= λ baseline_opcodes.
    compress_changes fuel 11 frame frames >>= λ rest. some (baseline_opcodes ∷ rest)

-- `for frame_data in compressed_frames[:-1]: offsets.append(offsets[-1] + len(frame_data))`, with
-- the last offset so far.
unfoldable pub more_offsets : ℕ → List (List ℕ) → List ℕ
more_offsets last [] = []
more_offsets last (frame_data ∷ []) = []
more_offsets last (frame_data ∷ (next ∷ rest)) =
    (last + length frame_data) ∷ more_offsets (last + length frame_data) (next ∷ rest)

-- `for frame_data in compressed_frames: all_data.extend(frame_data)`
unfoldable pub flatten : List (List ℕ) → List ℕ
flatten [] = []
flatten (frame_data ∷ rest) = frame_data ++ flatten rest

-- `nyancat_frame_offsets` and `nyancat_compressed_data` of the header.
pub record Header : Type 0 where
  pub offsets : List ℕ
  pub compressed_data : List ℕ

abbrev pub header_of : List (List ℕ) → Header
header_of compressed_frames = record {
  offsets = 0 ∷ more_offsets 0 compressed_frames;
  compressed_data = flatten compressed_frames;
}

unfoldable pub generate_header : ℕ → Bool → List (List ℕ) → Option Header
generate_header fuel use_delta frames =
    compress_frames fuel use_delta (map (map map_color_to_palette) frames) >>= λ compressed_frames.
    some (header_of compressed_frames)
