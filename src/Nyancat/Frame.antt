-- ===== src/Nyancat/Frame.antt =====
-- A frame that is coded by itself: what 4-soc/csrc/nyancat.c makes of what
-- scripts/gen-nyancat-data.py writes.
use mycpu_4soc_game_port.Common.{
  ℕ, zero, suc, ◌+◌, ◌*◌, ◌≤◌, ◌<◌, bit_or, ◌≡◌, refl, sym, ap, ◌∙◌, arith, true, false, ltb, ◌==◌,
  Bool-cases, inl, inr, Option, none, some, List, [], ◌∷◌, ◌++◌, length, take, replicate,
  length-append, length-replicate,
}
use mathlib.Core.List.{append-nil, append_assoc}
use mycpu_4soc_game_port.Nyancat.Decoder.{
  frame_size, end_of_frame, Decoder, rle_round, rle_loop, fill_rest, decode_rle,
}
use mycpu_4soc_game_port.Nyancat.Encoder.{drop, set_color, count_same, encode_run, compress_rle}
use mycpu_4soc_game_port.Nyancat.Opcode.{
  opcode-Reads, set_color-IsOpcode, repeat_1-IsOpcode, op_30-IsOpcode,
}
use mycpu_4soc_game_port.Nyancat.Cells.{at}
use mycpu_4soc_game_port.Nyancat.Runs.{
  take-drop, length-take, length-drop, IsRun, Repeats, encode_run-Repeats,
}

-- Every color is a palette index.
abbrev pub AreColors : List ℕ → Type 0
AreColors [] = Unit {0}
AreColors (c ∷ cs) = (c < 16) × AreColors cs

pub AreColors-drop : (n : ℕ) (cs : List ℕ) → AreColors cs → AreColors (drop n cs)
AreColors-drop zero cs h = h
AreColors-drop (suc n) [] h = tt
AreColors-drop (suc n) (c ∷ cs) h = AreColors-drop n cs h.1

same_split : (c : ℕ) (cs : List ℕ) → cs ≡ replicate (count_same c cs) c ++ drop (count_same c cs) cs
unfolding count_same
same_split c [] = refl
same_split c (x ∷ cs) = elim (Bool-cases (x == c)) [
  | inl e ↦ let same : x ≡ c = ground arith in rw e (rw same (ap (◌∷◌ c) (same_split c cs)))
  | inr e ↦ rw e refl
]

rle_step :
    (b : ℕ) (p : List ℕ) (d : Decoder)
    → d.index < frame_size
    → (b == end_of_frame) ≡ false
    → rle_loop (b ∷ p) d ≡ rle_loop p (rle_round b d)
unfolding rle_loop
rle_step b p d h e = let room : ltb d.index frame_size ≡ true = ground arith in rw (room, e) refl

rle_color :
    (k : ℕ) (p : List ℕ) (d : Decoder)
    → k < 16
    → d.index < frame_size
    → rle_loop (bit_or 0x00 k ∷ p) d ≡ rle_loop p (record d { color = k })
unfolding rle_round
rle_color k p d small h =
    let r = opcode-Reads 0x00 k set_color-IsOpcode small in
    rle_step (bit_or 0x00 k) p d h r.goes_on ∙ rw (r.kind, r.value) refl

rle_short : (k : ℕ) → k < 16 → IsRun rle_loop (bit_or 0x20 k) (k + 1)
unfolding rle_round
rle_short k small p d h =
    let r = opcode-Reads 0x20 k repeat_1-IsOpcode small in
    rle_step (bit_or 0x20 k) p d h r.goes_on ∙ rw (r.kind, r.value) refl

rle_long : (k : ℕ) → k < 16 → IsRun rle_loop (bit_or 0x30 k) ((k + 1) * 16)
unfolding rle_round
rle_long k small p d h =
    let r = opcode-Reads 0x30 k op_30-IsOpcode small in
    rle_step (bit_or 0x30 k) p d h r.goes_on ∙ rw (r.kind, r.value) refl

-- The color that the script takes to be current is that of the decoder.
abbrev pub Agrees : Option ℕ → ℕ → Type 0
Agrees none c = Unit {0}
Agrees (some current) c = current ≡ c

-- An opcode that sets the color of the loop.
abbrev pub SetsColor : (List ℕ → Decoder → Decoder) → Type 0
SetsColor loop =
    (k : ℕ) (p : List ℕ) (d : Decoder)
    → k < 16
    → d.index < frame_size
    → loop (bit_or 0x00 k ∷ p) d ≡ loop p (record d { color = k })

pub set_color_lem :
    (loop : List ℕ → Decoder → Decoder) (current : Option ℕ) (k c : ℕ) (p done rest : List ℕ)
    → SetsColor loop
    → Agrees current c
    → k < 16
    → length done < frame_size
    → loop (set_color current k ++ p) (at done c rest) ≡ loop p (at done k rest)
unfolding set_color
set_color_lem loop none k c p done rest sets agrees small h = sets k p (at done c rest) small h
set_color_lem loop (some current) k c p done rest sets agrees small h =
    elim (Bool-cases (k == current)) [
      | inl e ↦ let same : c ≡ k = ground arith in rw e (ap (λ t. loop p (at done t rest)) same)
      | inr e ↦ rw e (sets k p (at done c rest) small h)
    ]

-- Bytes that make the loop write the colors over the cells that are left.
pub record Writes (loop : List ℕ → Decoder → Decoder) (done pixels old : List ℕ) (c : ℕ)
    (result : Option (List ℕ)) : Type 0 where
  pub bytes : List ℕ
  pub last : ℕ
  pub returns : result ≡ some bytes
  pub decodes : loop bytes (at done c old) ≡ at (done ++ pixels) last []

rle_end : (d : Decoder) → rle_loop (0xFF ∷ []) d ≡ d
unfolding rle_loop
rle_end d = elim (Bool-cases (ltb d.index frame_size)) [ inl e ↦ rw e refl | inr e ↦ rw e refl ]

pub done_frame : (done : List ℕ) (c : ℕ) → at done c [] ≡ at (done ++ []) c []
done_frame done c = ap (λ cells. at cells c []) (sym (append-nil done))

-- One round of the script, when the rounds behind it are right.
module _ (fuel : ℕ) (k : ℕ) (pixels done old : List ℕ) (current : Option ℕ) (c : ℕ) where
  more : ℕ
  more = count_same k pixels

  fewer : length pixels ≡ more + length (drop more pixels)
  unfolding more
  fewer = omega (
    arith,
    ap length (same_split k pixels),
    length-append (replicate more k) (drop more pixels),
    length-replicate more k,
  )

  whole : (done ++ replicate (more + 1) k) ++ drop more pixels ≡ done ++ (k ∷ pixels)
  unfolding more
  whole =
      let next : more + 1 ≡ suc more = omega arith in
      append_assoc done (replicate (more + 1) k) (drop more pixels)
      ∙ ap (λ n. done ++ (replicate n k ++ drop more pixels)) next
      ∙ ap (λ cells. done ++ (k ∷ cells)) (sym (same_split k pixels))

  rle_round-Writes :
      k < 16
      → length done + suc (length pixels) ≡ frame_size
      → length old ≡ suc (length pixels)
      → Agrees current c
      → Writes rle_loop
          (done ++ replicate (more + 1) k)
          (drop more pixels)
          (drop (more + 1) old)
          k
          (compress_rle fuel (drop more pixels) (some k))
      → Writes rle_loop done (k ∷ pixels) old c (compress_rle (suc fuel) (k ∷ pixels) current)
  unfolding compress_rle more
  rle_round-Writes small size same agrees later = record {
    bytes = set_color current k ++ (run.bytes ++ later.bytes);
    last = later.last;
    returns = rw (run.returns, later.returns) refl;
    decodes =
        set_color_lem rle_loop current k c (run.bytes ++ later.bytes) done old rle_color agrees
          small (omega arith)
        ∙ ap (λ cells. rle_loop (run.bytes ++ later.bytes) (at done k cells))
            (take-drop (more + 1) old)
        ∙ run.decodes later.bytes done (take (more + 1) old) (drop (more + 1) old) k
            (length-take (more + 1) old (omega (arith, fewer))) (omega (arith, fewer))
        ∙ later.decodes
        ∙ ap (λ cells. at cells later.last []) whole;
  }
    where
      run : Repeats rle_loop (more + 1) (encode_run 0x30 (more + 2) (more + 1))
      run = encode_run-Repeats rle_loop 0x30 rle_short rle_long (more + 2) (more + 1) (omega arith)

compress_rle-Writes :
    (fuel : ℕ) (pixels done old : List ℕ) (current : Option ℕ) (c : ℕ)
    → length pixels < fuel
    → AreColors pixels
    → length done + length pixels ≡ frame_size
    → length old ≡ length pixels
    → Agrees current c
    → Writes rle_loop done pixels old c (compress_rle fuel pixels current)
unfolding compress_rle more
compress_rle-Writes zero pixels done old current c h colors size same agrees = absurd (omega arith)
compress_rle-Writes (suc fuel) [] done [] current c h colors size same agrees = record {
  bytes = 0xFF ∷ [];
  last = c;
  returns = refl;
  decodes = rle_end (at done c []) ∙ done_frame done c;
}
compress_rle-Writes (suc fuel) [] done (x ∷ old) current c h colors size same agrees =
    absurd (omega arith)
compress_rle-Writes (suc fuel) (k ∷ pixels) done old current c h colors size same agrees =
    let n = count_same k pixels in
    let fewer' = fewer fuel k pixels done old current c in
    rle_round-Writes fuel k pixels done old current c colors.0 size same agrees (
      compress_rle-Writes fuel (drop n pixels) (done ++ replicate (n + 1) k) (drop (n + 1) old)
        (some k) k (omega (arith, fewer')) (AreColors-drop n pixels colors.1)
        (omega
          (arith, fewer', length-append done (replicate (n + 1) k), length-replicate (n + 1) k))
        (omega (arith, fewer', length-drop (n + 1) old)) refl)

fill_rest_done : (left : ℕ) (d : Decoder) → frame_size ≤ d.index → fill_rest left d ≡ d
unfolding fill_rest
fill_rest_done zero d h = refl
fill_rest_done (suc left) d h =
    let full : ltb d.index frame_size ≡ false = ground arith in rw full refl

-- A frame by its bytes.
pub record Coded (frame : List ℕ) (decode : List ℕ → List ℕ) (result : Option (List ℕ))
    : Type 0 where
  pub bytes : List ℕ
  pub returns : result ≡ some bytes
  pub decoded : decode bytes ≡ frame

-- For every frame of 4096 palette indices the script returns, with more fuel than pixels, and what
-- the decoder of frame 0 makes of its bytes is that frame, whatever the frame buffer held before.
pub decode_rle-compress_rle :
    (frame buffer : List ℕ) (fuel : ℕ)
    → length frame ≡ frame_size
    → length buffer ≡ frame_size
    → AreColors frame
    → frame_size < fuel
    → Coded frame (λ bytes. decode_rle bytes buffer) (compress_rle fuel frame none)
unfolding decode_rle
decode_rle-compress_rle frame buffer fuel size size' colors h =
    let coded =
      compress_rle-Writes fuel frame [] buffer none 0 (omega arith) colors (omega arith)
        (omega arith) tt in
    record {
      bytes = coded.bytes;
      returns = coded.returns;
      decoded =
          ap (λ d. (fill_rest frame_size d).buffer) coded.decodes
          ∙ ap (λ d. d.buffer) (fill_rest_done frame_size (at frame coded.last []) (omega arith))
          ∙ append-nil frame;
    }
