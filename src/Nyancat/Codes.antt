-- ===== src/Nyancat/Codes.antt =====
-- The bytes that scripts/gen-nyancat-data.py writes for several frames decode to those frames.
use mycpu_4soc_game_port.Common.{
  ℕ, zero, suc, ◌<◌, ◌≡◌, refl, sym, ap, ◌∙◌, arith, Bool, true, false, none, List, [], ◌∷◌, map,
  length, ◌==◌, Bool-cases, inl, inr,
}
use mycpu_4soc_game_port.Common.Outcome.{Returns, gives, then_gives}
use mathlib.Core.Option.{some-injective}
use mycpu_4soc_game_port.Nyancat.Decoder.{frame_size, decode_rle, decode_delta}
use mycpu_4soc_game_port.Nyancat.Encoder.{compress_rle}
use mycpu_4soc_game_port.Nyancat.Generator.{
  color_map, get_color, map_color_to_palette, compress_changes, compress_all, compress_frames,
}
use mycpu_4soc_game_port.Nyancat.Frame.{AreColors, Coded, decode_rle-compress_rle}
use mycpu_4soc_game_port.Nyancat.Delta.{decode_delta-compress_delta}

-- Every frame has its 4096 pixels.
abbrev pub AreFrames : List (List ℕ) → Type 0
AreFrames [] = Unit {0}
AreFrames (f ∷ fs) = (length f ≡ frame_size) × AreFrames fs

-- The colors of the frames.
abbrev pub colors : List (List ℕ) → List (List ℕ)
colors frames = map (map map_color_to_palette) frames

AreEntries : List (ℕ × ℕ) → Type 0
AreEntries [] = Unit {0}
AreEntries (entry ∷ entries) = (entry.1 < 16) × AreEntries entries

get_color-lt :
    (entries : List (ℕ × ℕ)) (char : ℕ) → AreEntries entries → get_color entries char < 16
unfolding get_color AreEntries
get_color-lt [] char h = omega arith
get_color-lt (entry ∷ entries) char h = elim (Bool-cases (char == entry.0)) [
  | inl e ↦ rw e h.0
  | inr e ↦ rw e (get_color-lt entries char h.1)
]

color_map-AreEntries : AreEntries color_map
unfolding AreEntries
color_map-AreEntries = ground arith

pub map_color-AreColors : (pixels : List ℕ) → AreColors (map map_color_to_palette pixels)
unfolding map_color_to_palette
map_color-AreColors [] = tt
map_color-AreColors (char ∷ pixels) =
    (get_color-lt color_map char color_map-AreEntries, map_color-AreColors pixels)

pub length-map_color :
    (pixels : List ℕ)
    → length pixels ≡ frame_size
    → length (map map_color_to_palette pixels) ≡ frame_size
length-map_color pixels h = omega (arith, same pixels)
  where
    same : (pixels : List ℕ) → length (map map_color_to_palette pixels) ≡ length pixels
    same [] = refl
    same (char ∷ pixels) = ap suc (same pixels)

-- Bytes that decode to the frame over every frame buffer.
abbrev pub IsCode : List ℕ → List ℕ → Type 0
IsCode f c = (buffer : List ℕ) → length buffer ≡ frame_size → decode_rle c buffer ≡ f

abbrev pub AreCodes : List (List ℕ) → List (List ℕ) → Type 0
AreCodes [] [] = Unit {0}
AreCodes [] (c ∷ cs) = ⊥
AreCodes (f ∷ fs) [] = ⊥
AreCodes (f ∷ fs) (c ∷ cs) = IsCode f c × AreCodes fs cs

-- Bytes that decode to each frame when the one before it is there.
abbrev pub AreChanges : List ℕ → List (List ℕ) → List (List ℕ) → Type 0
AreChanges prev [] [] = Unit {0}
AreChanges prev [] (c ∷ cs) = ⊥
AreChanges prev (f ∷ fs) [] = ⊥
AreChanges prev (f ∷ fs) (c ∷ cs) = (decode_delta c prev ≡ f) × AreChanges f fs cs

-- The bytes of the frames for either mode of the script.
abbrev pub AreBytes : Bool → List (List ℕ) → List (List ℕ) → Type 0
AreBytes use_delta [] cs = Unit {0}
AreBytes use_delta (f ∷ fs) [] = ⊥
AreBytes true (f ∷ fs) (c ∷ cs) = IsCode f c × AreChanges f fs cs
AreBytes false (f ∷ fs) (c ∷ cs) = AreCodes (f ∷ fs) (c ∷ cs)

module _ (fuel : ℕ) (enough : frame_size < fuel) where
  rle-Returns :
      (pixels : List ℕ)
      → length pixels ≡ frame_size
      → let f = map map_color_to_palette pixels in Returns (IsCode f) (compress_rle fuel f none)
  rle-Returns pixels size =
      let f = map map_color_to_palette pixels in
      let over : (buffer : List ℕ)
          → length buffer ≡ frame_size
          → Coded f (λ bytes. decode_rle bytes buffer) (compress_rle fuel f none) =
        λ buffer size'.
          decode_rle-compress_rle f buffer fuel (length-map_color pixels size) size'
            (map_color-AreColors pixels) enough in
      let one = over pixels size in
      record {
        out = one.bytes;
        returns = one.returns;
        holds = λ buffer size'.
            let other = over buffer size' in
            ap (λ bytes. decode_rle bytes buffer)
              (some-injective one.bytes other.bytes (sym one.returns ∙ other.returns))
            ∙ other.decoded;
      }

  all-Returns :
      (frames : List (List ℕ))
      → AreFrames frames
      → Returns (AreCodes (colors frames)) (compress_all fuel (colors frames))
  unfolding compress_all
  all-Returns [] h = gives [] tt
  all-Returns (pixels ∷ frames) h =
      then_gives _ _ (rle-Returns pixels h.0) (λ c code.
        then_gives _ _ (all-Returns frames h.1) (λ cs codes. gives (c ∷ cs) (code, codes)))

  changes-Returns :
      (left : ℕ) (pixels : List ℕ) (frames : List (List ℕ))
      → length frames ≡ left
      → length pixels ≡ frame_size
      → AreFrames frames
      → let prev = map map_color_to_palette pixels in
        Returns (AreChanges prev (colors frames)) (compress_changes fuel left prev (colors frames))
  unfolding compress_changes
  changes-Returns zero before [] count size h = gives [] tt
  changes-Returns zero before (pixels ∷ frames) count size h = absurd (omega arith)
  changes-Returns (suc left) before [] count size h = absurd (omega arith)
  changes-Returns (suc left) before (pixels ∷ frames) count size h =
      let coded =
        decode_delta-compress_delta (map map_color_to_palette before)
          (map map_color_to_palette pixels) fuel (length-map_color before size)
          (length-map_color pixels h.0) (map_color-AreColors pixels) enough in
      then_gives _ _ (record { out = coded.bytes; returns = coded.returns; holds = coded.decoded })
        (λ c code.
          then_gives _ _ (changes-Returns left pixels frames (omega arith) h.0 h.1)
            (λ cs codes. gives (c ∷ cs) (code, codes)))

  -- Twelve frames are compressed in either mode.
  pub compress_frames-Returns :
      (use_delta : Bool) (frames : List (List ℕ))
      → length frames ≡ 12
      → AreFrames frames
      → Returns
          (AreBytes use_delta (colors frames))
          (compress_frames fuel use_delta (colors frames))
  unfolding compress_frames compress_all
  compress_frames-Returns use_delta [] count h = absurd (omega arith)
  compress_frames-Returns true (pixels ∷ frames) count h =
      then_gives _ _ (rle-Returns pixels h.0) (λ c code.
        then_gives _ _ (changes-Returns 11 pixels frames (omega arith) h.0 h.1)
          (λ cs codes. gives (c ∷ cs) (code, codes)))
  compress_frames-Returns false (pixels ∷ frames) count h =
      then_gives _ _ (rle-Returns pixels h.0) (λ c code.
        then_gives _ _ (all-Returns frames h.1) (λ cs codes. gives (c ∷ cs) (code, codes)))
