-- ===== src/Nyancat/Play.antt =====
-- What the program of 4-soc/csrc/nyancat.c writes to the display: its frames in their order, and
-- then the number of each in turn.
use mycpu_4soc_game_port.Common.{
  ℕ, zero, suc, ◌+◌, ◌*◌, ◌^◌, ◌%◌, ◌<◌, bit_and, bit_or, ◌≡◌, refl, sym, ap, subst, ◌∙◌, arith,
  Bool, false, ltb, ◌==◌, if◌then◌else◌, Bool-cases, inl, inr, List, [], ◌∷◌, ◌++◌, length,
  length-append, u32, for_range, all_below, all_below_sound,
}
use mathlib.Core.List.{append_assoc, append-nil}
use mycpu_4soc_game_port.Vga.{vga_addr_upload_addr, vga_addr_ctrl, stream_words}
use mycpu_4soc_game_port.Nyancat.Decoder.{frame_size}
use mycpu_4soc_game_port.Nyancat.Generator.{flatten, header_of}
use mycpu_4soc_game_port.Nyancat.Upload.{
  frame_count, Video, frame_bytes, upload_addr, upload_frame_delta, upload_frame_rle, animate,
}
use mycpu_4soc_game_port.Nyancat.Layout.{frame_bytes_lem}
use mycpu_4soc_game_port.Nyancat.Codes.{AreFrames, IsCode, AreCodes, AreChanges}

-- The writes that put a frame into its place of the display.
abbrev pub screen : ℕ → List ℕ → List (ℕ × ℕ)
screen i f = (vga_addr_upload_addr, i * 2 ^ 16) ∷ stream_words 512 0 f

abbrev pub screens : ℕ → List (List ℕ) → List (ℕ × ℕ)
screens i [] = []
screens i (f ∷ fs) = screen i f ++ screens (i + 1) fs

-- The writes that show the places of the display in turn, from the round `k` on.
abbrev pub cycle : ℕ → ℕ → List (ℕ × ℕ)
cycle zero k = []
cycle (suc rounds) k = (vga_addr_ctrl, k % frame_count * 16 + 1) ∷ cycle rounds (k + 1)

plain_addr : ℕ → Bool
plain_addr i = bit_or (u32 (bit_and i 15 * 2 ^ 16)) 0 == i * 2 ^ 16

upload_addr_lem : (i : ℕ) → i < frame_count → upload_addr i ≡ (vga_addr_upload_addr, i * 2 ^ 16)
unfolding all_below plain_addr
upload_addr_lem i h =
    let row = all_below_sound frame_count plain_addr i refl h in
    let same : bit_or (u32 (bit_and i 15 * 2 ^ 16)) 0 ≡ i * 2 ^ 16 = ground (arith, row) in
    ap (λ (a : ℕ). (vga_addr_upload_addr, a)) same

plain_ctrl : ℕ → Bool
plain_ctrl i = bit_or (u32 (i * 2 ^ 4)) 1 == i * 16 + 1

pub animate-cycle : (rounds k f : ℕ) → f ≡ k % frame_count → animate rounds f ≡ cycle rounds k
unfolding animate all_below plain_ctrl
animate-cycle zero k f e = refl
animate-cycle (suc rounds) k f e =
    let small : f < frame_count = omega arith in
    let row = all_below_sound frame_count plain_ctrl f refl small in
    let same : bit_or (u32 (f * 2 ^ 4)) 1 ≡ k % frame_count * 16 + 1 = ground (arith, row) in
    let next : (if ltb (f + 1) frame_count then f + 1 else 0) ≡ (k + 1) % frame_count =
      elim (Bool-cases (ltb (f + 1) frame_count)) [
        | inl more ↦ rw more (ground arith)
        | inr last ↦ rw last (ground arith)
      ] in
    rw same
      (ap (◌∷◌ (vga_addr_ctrl, k % frame_count * 16 + 1)) (animate-cycle rounds (k + 1) _ next))

module _ (round : ℕ → Video → Video) where
  -- Each round writes the next of the frames.
  abbrev pub Turns : ℕ → List (List ℕ) → Video → Type 0
  Turns i [] v = Unit {0}
  Turns i (f ∷ fs) v = ((round i v).writes ≡ v.writes ++ screen i f) × Turns (i + 1) fs (round i v)

  pub Turns-screens :
      (i : ℕ) (fs : List (List ℕ)) (v : Video)
      → Turns i fs v
      → (for_range (length fs) i round v).writes ≡ v.writes ++ screens i fs
  unfolding for_range
  Turns-screens i [] v h = sym (append-nil v.writes)
  Turns-screens i (f ∷ fs) v h =
      Turns-screens (i + 1) fs (round i v) h.1
      ∙ ap (λ before. before ++ screens (i + 1) fs) h.0
      ∙ append_assoc v.writes (screen i f) (screens (i + 1) fs)

-- The writes of a round, given those of its upload.
pub addressed :
    (i : ℕ) (f : List ℕ) (writes : List (ℕ × ℕ))
    → i < frame_count
    → writes ++ (upload_addr i ∷ stream_words 512 0 f) ≡ writes ++ screen i f
addressed i f writes h =
    ap (λ (addr : ℕ × ℕ). writes ++ (addr ∷ stream_words 512 0 f)) (upload_addr_lem i h)

module _ (all : List (List ℕ)) (small : length (flatten all) < 2 ^ 16) where
  bytes_at :
      (before : List (List ℕ)) (c : List ℕ) (after : List (List ℕ)) (i : ℕ)
      → all ≡ before ++ (c ∷ after)
      → i ≡ length before
      → i + suc (length after) ≡ frame_count
      → frame_bytes (header_of all) i ≡ c
  bytes_at before c after i e place count =
      ap (λ (cs : List (List ℕ)). frame_bytes (header_of cs) i) e
      ∙ ap (frame_bytes (header_of (before ++ (c ∷ after)))) place
      ∙ frame_bytes_lem before c after
          (subst (λ (cs : List (List ℕ)). length (flatten cs) < 2 ^ 16) e small) (omega arith)

  -- A frame that the frame before it gives.
  after_change : ℕ → List ℕ → Video → Video
  after_change i f v = record {
    frame_buffer = f;
    prev_frame_buffer = f;
    writes = v.writes ++ (upload_addr i ∷ stream_words 512 0 f);
  }

  pub changes-Turns :
      (i : ℕ) (before cs fs : List (List ℕ)) (v : Video)
      → all ≡ before ++ cs
      → i ≡ length before
      → 0 < i
      → i + length cs ≡ frame_count
      → AreChanges v.prev_frame_buffer fs cs
      → Turns (upload_frame_delta (header_of all)) i fs v
  unfolding upload_frame_delta after_change
  changes-Turns i before cs [] v e place pos count codes = tt
  changes-Turns i before [] (f ∷ fs) v e place pos count codes = absurd codes
  changes-Turns i before (c ∷ cs) (f ∷ fs) v e place pos count codes =
      let later : (i == 0) ≡ false = ground arith in
      let step : upload_frame_delta (header_of all) i v ≡ after_change i f v =
        rw (bytes_at before c cs i e place count, later, codes.0) refl in
      (
        ap (λ (w : Video). w.writes) step ∙ addressed i f v.writes (omega arith),
        subst (λ (w : Video). Turns (upload_frame_delta (header_of all)) (i + 1) fs w) (sym step)
            (changes-Turns (i + 1) (before ++ (c ∷ [])) cs fs (after_change i f v)
              (e ∙ sym (append_assoc before (c ∷ []) cs))
              (omega (arith, length-append before (c ∷ []))) (omega arith) (omega arith) codes.1),
      )

  -- A frame that its own bytes give.
  after_code : ℕ → List ℕ → Video → Video
  after_code i f v = record v {
    frame_buffer = f;
    writes = v.writes ++ (upload_addr i ∷ stream_words 512 0 f);
  }

  pub codes-Turns :
      (i : ℕ) (before cs fs : List (List ℕ)) (v : Video)
      → all ≡ before ++ cs
      → i ≡ length before
      → i + length cs ≡ frame_count
      → length v.frame_buffer ≡ frame_size
      → AreFrames fs
      → AreCodes fs cs
      → Turns (upload_frame_rle (header_of all)) i fs v
  unfolding upload_frame_rle after_code
  codes-Turns i before cs [] v e place count size full codes = tt
  codes-Turns i before [] (f ∷ fs) v e place count size full codes = absurd codes
  codes-Turns i before (c ∷ cs) (f ∷ fs) v e place count size full codes =
      let step : upload_frame_rle (header_of all) i v ≡ after_code i f v =
        rw (bytes_at before c cs i e place count, codes.0 v.frame_buffer size) refl in
      (
        ap (λ (w : Video). w.writes) step ∙ addressed i f v.writes (omega arith),
        subst (λ (w : Video). Turns (upload_frame_rle (header_of all)) (i + 1) fs w) (sym step)
            (codes-Turns (i + 1) (before ++ (c ∷ [])) cs fs (after_code i f v)
              (e ∙ sym (append_assoc before (c ∷ []) cs))
              (omega (arith, length-append before (c ∷ []))) (omega arith) full.0 full.1 codes.1),
      )

  -- Frame 0 by its own bytes, and the others by what they change.
  pub delta-Turns :
      (c f : List ℕ) (cs fs : List (List ℕ)) (v : Video)
      → all ≡ c ∷ cs
      → suc (length cs) ≡ frame_count
      → length v.frame_buffer ≡ frame_size
      → IsCode f c
      → AreChanges f fs cs
      → Turns (upload_frame_delta (header_of all)) 0 (f ∷ fs) v
  unfolding upload_frame_delta after_change
  delta-Turns c f cs fs v e count size code codes =
      let step : upload_frame_delta (header_of all) 0 v ≡ after_change 0 f v =
        rw (bytes_at [] c cs 0 e refl (omega arith), code v.frame_buffer size) refl in
      (
        ap (λ (w : Video). w.writes) step ∙ addressed 0 f v.writes (omega arith),
        subst (λ (w : Video). Turns (upload_frame_delta (header_of all)) 1 fs w) (sym step)
            (changes-Turns 1 (c ∷ []) cs fs (after_change 0 f v) e refl (omega arith) (omega arith)
              codes),
      )
