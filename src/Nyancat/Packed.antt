-- ===== src/Nyancat/Packed.antt =====
-- `main` of 4-soc/csrc/nyancat.c with the frames that the host has packed.
use mycpu_4soc_game_port.Common.{
  ℕ, zero, suc, ◌+◌, ◌*◌, ◌^◌, ◌<◌, ◌≤◌, ◌≡◌, refl, sym, ap, ◌∙◌, arith, Bool, some, List, [], ◌∷◌,
  ◌++◌, length, get_or, length-append,
}
use mathlib.Core.List.{append_assoc}
use mycpu_4soc_game_port.Vga.{vga_addr_stream_data, vga_pack8_pixels, stream_words}
use mycpu_4soc_game_port.Nyancat.Decoder.{frame_size}
use mycpu_4soc_game_port.Nyancat.Generator.{Header, generate_header}
use mycpu_4soc_game_port.Nyancat.Upload.{
  frame_count, Video, Build, prepacked_words, upload_frame_prepacked, upload_frame, main,
}
use mycpu_4soc_game_port.Nyancat.Codes.{AreFrames, colors}
use mycpu_4soc_game_port.Nyancat.Play.{addressed, Turns}
use mycpu_4soc_game_port.Nyancat.Tour.{compressed, begun, Turns-Plays, length-colors, main-Plays}

-- The pixels of a frame, eight to a word, as the host packs them.
abbrev pub packed : ℕ → ℕ → List ℕ → List ℕ
packed zero i f = []
packed (suc left) i f = vga_pack8_pixels f (i * 8) ∷ packed left (i + 1) f

abbrev pub packed_frames : List (List ℕ) → List (List ℕ)
packed_frames [] = []
packed_frames (f ∷ fs) = packed 512 0 f ∷ packed_frames fs

packed_at :
    (left start j : ℕ) (f : List ℕ)
    → j < left
    → get_or (packed left start f) j 0 ≡ vga_pack8_pixels f ((start + j) * 8)
packed_at zero start j f h = absurd (omega arith)
packed_at (suc left) start zero f h = let e : start + 0 ≡ start = omega arith in rw e refl
packed_at (suc left) start (suc j) f h =
    let e : start + suc j ≡ start + 1 + j = omega arith in
    rw e (packed_at left (start + 1) j f (omega arith))

prepacked-stream :
    (left i : ℕ) (f : List ℕ)
    → i + left ≤ 512
    → prepacked_words left i (packed 512 0 f) ≡ stream_words left i f
unfolding prepacked_words stream_words
prepacked-stream zero i f h = refl
prepacked-stream (suc left) i f h =
    let word : get_or (packed 512 0 f) i 0 ≡ vga_pack8_pixels f (i * 8) =
      let start : 0 + i ≡ i = omega arith in
      packed_at 512 0 i f (omega arith) ∙ ap (λ (k : ℕ). vga_pack8_pixels f (k * 8)) start in
    rw word (
      ap (◌∷◌ (vga_addr_stream_data, vga_pack8_pixels f (i * 8)))
        (prepacked-stream left (i + 1) f (omega arith)))

packed_frame_at :
    (before : List (List ℕ)) (f : List ℕ) (fs : List (List ℕ))
    → get_or (packed_frames (before ++ (f ∷ fs))) (length before) [] ≡ packed 512 0 f
packed_frame_at [] f fs = refl
packed_frame_at (b ∷ before) f fs = packed_frame_at before f fs

packed-Turns :
    (i : ℕ) (before fs all : List (List ℕ)) (v : Video)
    → all ≡ before ++ fs
    → i ≡ length before
    → i + length fs ≡ frame_count
    → Turns (upload_frame (Build.prepacked (packed_frames all))) i fs v
unfolding upload_frame upload_frame_prepacked
packed-Turns i before [] all v e place count = tt
packed-Turns i before (f ∷ fs) all v e place count =
    let word : get_or (packed_frames all) i [] ≡ packed 512 0 f =
      rw (e, place) (packed_frame_at before f fs) in
    (
      rw (word, prepacked-stream 512 0 f (omega arith)) (addressed i f v.writes (omega arith)),
      packed-Turns (i + 1) (before ++ (f ∷ [])) fs all _ (e ∙ sym (append_assoc before (f ∷ []) fs))
          (omega (arith, length-append before (f ∷ []))) (omega arith),
    )

-- The build with the frames that the host has packed, eight pixels to a word, returns and writes
-- the same as the build that reads the header of the script, for twelve frames of 4096 characters,
-- either mode and fewer than 65536 bytes.
pub main-packed :
    (id fuel : ℕ) (use_delta : Bool) (frames : List (List ℕ)) (header : Header) (rounds : ℕ)
    (v : Video)
    → frame_size < fuel
    → length frames ≡ frame_count
    → AreFrames frames
    → generate_header fuel use_delta frames ≡ some header
    → length header.compressed_data < 2 ^ 16
    → length v.frame_buffer ≡ frame_size
    → main id (Build.prepacked (packed_frames (colors frames))) rounds v
      ≡ main id (compressed use_delta header) rounds v
unfolding begun
main-packed id fuel use_delta frames header rounds v enough count full written small size =
    let all = colors frames in
    let twelve = length-colors frames ∙ count in
    Turns-Plays id (Build.prepacked (packed_frames all)) all rounds v twelve
      (packed-Turns 0 [] all all (begun v) refl refl (omega arith))
    ∙ sym (main-Plays id fuel use_delta frames header rounds v enough count full written small size)
