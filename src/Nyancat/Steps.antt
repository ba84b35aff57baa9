-- ===== src/Nyancat/Steps.antt =====
-- One opcode of the changes of a frame, and the pixels that scripts/gen-nyancat-data.py counts for it.
use mycpu_4soc_game_port.Common.{
  ℕ, ◌+◌, ◌*◌, ◌≤◌, ◌<◌, bit_or, ◌≡◌, refl, ap, ◌∙◌, arith, true, false, not, ◌&&◌, ltb, ◌==◌,
  Bool-cases, inl, inr, List, [], ◌∷◌, ◌++◌, length, take, replicate,
}
use mycpu_4soc_game_port.Nyancat.Decoder.{
  frame_size, end_of_frame, Decoder, delta_round, delta_loop,
}
use mycpu_4soc_game_port.Nyancat.Encoder.{drop, count_unchanged, count_changed}
use mycpu_4soc_game_port.Nyancat.Opcode.{
  opcode-Reads, set_color-IsOpcode, skip_1-IsOpcode, repeat_1-IsOpcode, op_30-IsOpcode,
  op_40-IsOpcode, skip_64-IsOpcode,
}
use mycpu_4soc_game_port.Nyancat.Runs.{IsRun}
use mycpu_4soc_game_port.Nyancat.Skips.{IsSkip}
use mycpu_4soc_game_port.Nyancat.Frame.{SetsColor}

pub delta_step :
    (b : ℕ) (p : List ℕ) (d : Decoder)
    → d.index < frame_size
    → (b == end_of_frame) ≡ false
    → delta_loop (b ∷ p) d ≡ delta_loop p (delta_round b d)
unfolding delta_loop
delta_step b p d h e = let room : ltb d.index frame_size ≡ true = ground arith in rw (room, e) refl

pub delta-SetsColor : SetsColor delta_loop
unfolding delta_round
delta-SetsColor k p d small h =
    let r = opcode-Reads 0x00 k set_color-IsOpcode small in
    delta_step (bit_or 0x00 k) p d h r.goes_on ∙ rw (r.kind, r.value) refl

pub delta-IsSkip_1 : (k : ℕ) → k < 16 → IsSkip delta_loop (bit_or 0x10 k) (k + 1)
unfolding delta_round
delta-IsSkip_1 k small p d h =
    let r = opcode-Reads 0x10 k skip_1-IsOpcode small in
    delta_step (bit_or 0x10 k) p d h r.goes_on ∙ rw (r.kind, r.value) refl

pub delta-IsRun_1 : (k : ℕ) → k < 16 → IsRun delta_loop (bit_or 0x20 k) (k + 1)
unfolding delta_round
delta-IsRun_1 k small p d h =
    let r = opcode-Reads 0x20 k repeat_1-IsOpcode small in
    delta_step (bit_or 0x20 k) p d h r.goes_on ∙ rw (r.kind, r.value) refl

pub delta-IsSkip_16 : (k : ℕ) → k < 16 → IsSkip delta_loop (bit_or 0x30 k) ((k + 1) * 16)
unfolding delta_round
delta-IsSkip_16 k small p d h =
    let r = opcode-Reads 0x30 k op_30-IsOpcode small in
    delta_step (bit_or 0x30 k) p d h r.goes_on ∙ rw (r.kind, r.value) refl

pub delta-IsRun_16 : (k : ℕ) → k < 16 → IsRun delta_loop (bit_or 0x40 k) ((k + 1) * 16)
unfolding delta_round
delta-IsRun_16 k small p d h =
    let r = opcode-Reads 0x40 k op_40-IsOpcode small in
    delta_step (bit_or 0x40 k) p d h r.goes_on ∙ rw (r.kind, r.value) refl

pub delta-IsSkip_64 : (k : ℕ) → k < 16 → IsSkip delta_loop (bit_or 0x50 k) ((k + 1) * 64)
unfolding delta_round
delta-IsSkip_64 k small p d h =
    let r = opcode-Reads 0x50 k skip_64-IsOpcode small in
    delta_step (bit_or 0x50 k) p d h r.goes_on ∙ rw (r.kind, r.value) refl

pub delta_end : (d : Decoder) → delta_loop (0xFF ∷ []) d ≡ d
unfolding delta_loop
delta_end d = elim (Bool-cases (ltb d.index frame_size)) [ inl e ↦ rw e refl | inr e ↦ rw e refl ]

pub unchanged_same :
    (prev curr : List ℕ)
    → take (count_unchanged prev curr) prev ≡ take (count_unchanged prev curr) curr
unfolding count_unchanged
unchanged_same [] curr = refl
unchanged_same (p ∷ prev) [] = refl
unchanged_same (p ∷ prev) (c ∷ curr) = elim (Bool-cases (p == c)) [
  | inl e ↦
      let same : p ≡ c = ground arith in rw e (rw same (ap (◌∷◌ c) (unchanged_same prev curr)))
  | inr e ↦ rw e refl
]

pub unchanged-le : (prev curr : List ℕ) → count_unchanged prev curr ≤ length curr
unfolding count_unchanged
unchanged-le [] curr = omega arith
unchanged-le (p ∷ prev) [] = omega arith
unchanged-le (p ∷ prev) (c ∷ curr) = ground (arith, unchanged-le prev curr)

pub changed_split :
    (k : ℕ) (prev curr : List ℕ)
    → curr ≡ replicate (count_changed k prev curr) k ++ drop (count_changed k prev curr) curr
unfolding count_changed
changed_split k [] curr = refl
changed_split k (p ∷ prev) [] = refl
changed_split k (p ∷ prev) (c ∷ curr) = elim (Bool-cases (c == k && not (p == c))) [
  | inl e ↦
      let same : c ≡ k = ground arith in rw e (rw same (ap (◌∷◌ k) (changed_split k prev curr)))
  | inr e ↦ rw e refl
]
