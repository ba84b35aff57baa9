-- ===== src/Nyancat/Tour.antt =====
-- `main` of 4-soc/csrc/nyancat.c with the header of compressed frames, on the frames that
-- scripts/gen-nyancat-data.py was given.
use mycpu_4soc_game_port.Common.{
  ℕ, suc, ◌^◌, ◌<◌, ◌≡◌, refl, sym, ap, subst, ◌∙◌, arith, Bool, true, false, ◌==◌, if◌then◌else◌,
  Bool-cases, inl, inr, Option, none, some, ◌>>=◌, List, [], ◌∷◌, ◌++◌, length, for_range,
}
use mathlib.Core.Option.{some-injective}
use mycpu_4soc_game_port.Vga.{vga_expected_id, vga_addr_ctrl}
use mycpu_4soc_game_port.Nyancat.Decoder.{frame_size}
use mycpu_4soc_game_port.Nyancat.Generator.{flatten, Header, header_of, generate_header}
use mycpu_4soc_game_port.Nyancat.Upload.{
  frame_count, Video, Build, vga_init_palette, upload_frame, main,
}
use mycpu_4soc_game_port.Nyancat.Codes.{
  AreFrames, colors, AreCodes, AreChanges, AreBytes, length-map_color, compress_frames-Returns,
}
use mycpu_4soc_game_port.Nyancat.Play.{
  screens, cycle, animate-cycle, Turns, Turns-screens, codes-Turns, delta-Turns,
}

-- The build that reads the header that the script writes in the mode.
abbrev pub compressed : Bool → Header → Build
compressed use_delta header = if use_delta then Build.delta header else Build.baseline header

-- What a program that shows the frames has written when its last loop has run for the rounds.
abbrev pub tour : List (List ℕ) → ℕ → List (ℕ × ℕ) → List (ℕ × ℕ)
tour frames rounds writes =
    writes ++ vga_init_palette ++ ((vga_addr_ctrl, 0x01) ∷ []) ++ screens 0 frames ++ cycle rounds 0

-- A display that is there is shown the frames; of any other the program makes nothing.
abbrev pub Plays : ℕ → List (List ℕ) → ℕ → List (ℕ × ℕ) → Option ℕ × List (ℕ × ℕ) → Type 0
Plays id frames rounds writes result =
    result ≡ (if id == vga_expected_id then (none, tour frames rounds writes) else (some 1, writes))

unfoldable pub begun : Video → Video
begun v = record v { writes = v.writes ++ vga_init_palette ++ ((vga_addr_ctrl, 0x01) ∷ []) }

pub Turns-Plays :
    (id : ℕ) (build : Build) (frames : List (List ℕ)) (rounds : ℕ) (v : Video)
    → length frames ≡ frame_count
    → Turns (upload_frame build) 0 frames (begun v)
    → Plays id frames rounds v.writes (main id build rounds v)
unfolding main begun
Turns-Plays id build frames rounds v count turns =
    let shown =
      ap (λ (n : ℕ). (for_range n 0 (upload_frame build) (begun v)).writes) (sym count)
      ∙ Turns-screens (upload_frame build) 0 frames (begun v) turns in
    elim (Bool-cases (id == vga_expected_id)) [
      | inl e ↦ rw (e, shown, animate-cycle rounds 0 0 refl) refl
      | inr e ↦ rw e refl
    ]

colors-AreFrames : (frames : List (List ℕ)) → AreFrames frames → AreFrames (colors frames)
colors-AreFrames [] h = tt
colors-AreFrames (pixels ∷ frames) h = (length-map_color pixels h.0, colors-AreFrames frames h.1)

pub length-colors : (frames : List (List ℕ)) → length (colors frames) ≡ length frames
length-colors [] = refl
length-colors (pixels ∷ frames) = ap suc (length-colors frames)

length-AreCodes : (fs cs : List (List ℕ)) → AreCodes fs cs → length cs ≡ length fs
length-AreCodes [] [] h = refl
length-AreCodes [] (c ∷ cs) h = absurd h
length-AreCodes (f ∷ fs) [] h = absurd h
length-AreCodes (f ∷ fs) (c ∷ cs) h = ap suc (length-AreCodes fs cs h.1)

length-AreChanges :
    (prev : List ℕ) (fs cs : List (List ℕ)) → AreChanges prev fs cs → length cs ≡ length fs
length-AreChanges prev [] [] h = refl
length-AreChanges prev [] (c ∷ cs) h = absurd h
length-AreChanges prev (f ∷ fs) [] h = absurd h
length-AreChanges prev (f ∷ fs) (c ∷ cs) h = ap suc (length-AreChanges f fs cs h.1)

bytes-Turns :
    (use_delta : Bool) (fs cs : List (List ℕ)) (v : Video)
    → length fs ≡ frame_count
    → AreFrames fs
    → length v.frame_buffer ≡ frame_size
    → AreBytes use_delta fs cs
    → length (flatten cs) < 2 ^ 16
    → Turns (upload_frame (compressed use_delta (header_of cs))) 0 fs v
unfolding upload_frame
bytes-Turns use_delta [] cs v count full size codes small = tt
bytes-Turns use_delta (f ∷ fs) [] v count full size codes small = absurd codes
bytes-Turns true (f ∷ fs) (c ∷ cs) v count full size codes small =
    delta-Turns (c ∷ cs) small c f cs fs v refl (omega (arith, length-AreChanges f fs cs codes.1))
      size codes.0 codes.1
bytes-Turns false (f ∷ fs) (c ∷ cs) v count full size codes small =
    codes-Turns (c ∷ cs) small 0 [] (c ∷ cs) (f ∷ fs) v refl refl
      (omega (arith, length-AreCodes fs cs codes.1)) size full codes

-- With more fuel than pixels the script writes a header for twelve frames of 4096 characters, in
-- either mode.
pub generate_header-returns :
    (fuel : ℕ) (use_delta : Bool) (frames : List (List ℕ))
    → frame_size < fuel
    → length frames ≡ frame_count
    → AreFrames frames
    → (header : Header) × (generate_header fuel use_delta frames ≡ some header)
unfolding generate_header
generate_header-returns fuel use_delta frames enough count full =
    let bytes = compress_frames-Returns fuel enough use_delta frames count full in
    (header_of bytes.out, rw bytes.returns refl)

-- For the header that the script writes for twelve frames of 4096 characters, in either mode and
-- with fewer than 65536 bytes in all, the program that is built with it sends the palette, switches
-- the display on, sends the colors of every frame to its place, eight to a word, and then shows the
-- frames in turn for as many rounds as it is given; with another device than the display it returns
-- 1 and writes nothing.
pub main-Plays :
    (id fuel : ℕ) (use_delta : Bool) (frames : List (List ℕ)) (header : Header) (rounds : ℕ)
    (v : Video)
    → frame_size < fuel
    → length frames ≡ frame_count
    → AreFrames frames
    → generate_header fuel use_delta frames ≡ some header
    → length header.compressed_data < 2 ^ 16
    → length v.frame_buffer ≡ frame_size
    → Plays id (colors frames) rounds v.writes (main id (compressed use_delta header) rounds v)
unfolding generate_header begun
main-Plays id fuel use_delta frames header rounds v enough count full written small size =
    let bytes = compress_frames-Returns fuel enough use_delta frames count full in
    let same : header_of bytes.out ≡ header =
      some-injective (header_of bytes.out) header
        (sym (ap (λ r. r >>= λ cs. some (header_of cs)) bytes.returns) ∙ written) in
    subst
      (λ (h : Header).
        Plays id (colors frames) rounds v.writes (main id (compressed use_delta h) rounds v))
      same
      (Turns-Plays id (compressed use_delta (header_of bytes.out)) (colors frames) rounds v
        (length-colors frames ∙ count)
        (bytes-Turns use_delta (colors frames) bytes.out (begun v) (length-colors frames ∙ count)
          (colors-AreFrames frames full) size bytes.holds
          (subst (λ (h : Header). length h.compressed_data < 2 ^ 16) (sym same) small)))
