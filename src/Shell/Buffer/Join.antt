-- ===== src/Shell/Buffer/Join.antt =====
-- A word of the line buffer of 4-soc/csrc/shell.c as its four bytes.
use mycpu_4soc_game_port.Common.{
  ℕ, ◌+◌, ◌*◌, ◌/◌, ◌%◌, ◌^◌, ◌<◌, bit_and, bit_or, ◌≡◌, refl, arith, u32,
}
use mycpu_4soc_game_port.Common.Bits.{bit_and-zero}
use mycpu_4soc_game_port.Common.Parts.{
  bit_and-cut, bit_or-cut, bit_or-zero, zero-bit_or, bit_and_255,
}
use mycpu_4soc_game_port.Shell.Buffer.{insert_byte}

-- A word by its four bytes.

abbrev pub joined : ℕ → ℕ → ℕ → ℕ → ℕ
joined a b c d = ((d * 2 ^ 8 + c) * 2 ^ 8 + b) * 2 ^ 8 + a

abbrev pub AreBytes : ℕ → ℕ → ℕ → ℕ → Type 0
AreBytes a b c d = (a < 256) × (b < 256) × (c < 256) × (d < 256)

module _ (a b c d : ℕ) (ha : a < 256) (hb : b < 256) (hc : c < 256) (hd : d < 256) where
  pub and-joined :
      (p q r s : ℕ)
      → p < 256
      → q < 256
      → r < 256
      → bit_and (joined a b c d) (joined p q r s)
        ≡ joined (bit_and a p) (bit_and b q) (bit_and c r) (bit_and d s)
  and-joined p q r s hp hq hr =
      rw
        (
          bit_and-cut 8 ((d * 2 ^ 8 + c) * 2 ^ 8 + b) a ((s * 2 ^ 8 + r) * 2 ^ 8 + q) p ha hp,
          bit_and-cut 8 (d * 2 ^ 8 + c) b (s * 2 ^ 8 + r) q hb hq,
          bit_and-cut 8 d c s r hc hr,
        )
        refl

  pub or-joined :
      (p q r s : ℕ)
      → p < 256
      → q < 256
      → r < 256
      → bit_or (joined a b c d) (joined p q r s)
        ≡ joined (bit_or a p) (bit_or b q) (bit_or c r) (bit_or d s)
  or-joined p q r s hp hq hr =
      rw
        (
          bit_or-cut 8 ((d * 2 ^ 8 + c) * 2 ^ 8 + b) a ((s * 2 ^ 8 + r) * 2 ^ 8 + q) p ha hp,
          bit_or-cut 8 (d * 2 ^ 8 + c) b (s * 2 ^ 8 + r) q hb hq,
          bit_or-cut 8 d c s r hc hr,
        )
        refl

pub byte_kept : (a : ℕ) → a < 256 → bit_and a 255 ≡ a
byte_kept a h = omega (arith, bit_and_255 a)

module _ (a b c d v : ℕ) (ha : a < 256) (hb : b < 256) (hc : c < 256) (hd : d < 256)
    (hv : v < 256) where
  pub insert_0 : insert_byte 0 v (joined a b c d) ≡ joined v b c d
  unfolding insert_byte
  insert_0 =
      let e : u32 (v * 2 ^ 0) ≡ joined v 0 0 0 = omega arith in
      rw
        (
          e,
          and-joined a b c d ha hb hc hd 0 255 255 255 (omega arith) (omega arith) (omega arith),
          bit_and-zero a,
          byte_kept b hb,
          byte_kept c hc,
          byte_kept d hd,
          or-joined 0 b c d (omega arith) hb hc hd v 0 0 0 hv (omega arith) (omega arith),
          zero-bit_or v,
          bit_or-zero b,
          bit_or-zero c,
          bit_or-zero d,
        )
        refl

  pub insert_8 : insert_byte 8 v (joined a b c d) ≡ joined a v c d
  unfolding insert_byte
  insert_8 =
      let e : u32 (v * 2 ^ 8) ≡ joined 0 v 0 0 = omega arith in
      rw
        (
          e,
          and-joined a b c d ha hb hc hd 255 0 255 255 (omega arith) (omega arith) (omega arith),
          byte_kept a ha,
          bit_and-zero b,
          byte_kept c hc,
          byte_kept d hd,
          or-joined a 0 c d ha (omega arith) hc hd 0 v 0 0 (omega arith) hv (omega arith),
          bit_or-zero a,
          zero-bit_or v,
          bit_or-zero c,
          bit_or-zero d,
        )
        refl

  pub insert_16 : insert_byte 16 v (joined a b c d) ≡ joined a b v d
  unfolding insert_byte
  insert_16 =
      let e : u32 (v * 2 ^ 16) ≡ joined 0 0 v 0 = omega arith in
      rw
        (
          e,
          and-joined a b c d ha hb hc hd 255 255 0 255 (omega arith) (omega arith) (omega arith),
          byte_kept a ha,
          byte_kept b hb,
          bit_and-zero c,
          byte_kept d hd,
          or-joined a b 0 d ha hb (omega arith) hd 0 0 v 0 (omega arith) (omega arith) hv,
          bit_or-zero a,
          bit_or-zero b,
          zero-bit_or v,
          bit_or-zero d,
        )
        refl

  pub insert_24 : insert_byte 24 v (joined a b c d) ≡ joined a b c v
  unfolding insert_byte
  insert_24 =
      let e : u32 (v * 2 ^ 24) ≡ joined 0 0 0 v = omega arith in
      rw
        (
          e,
          and-joined a b c d ha hb hc hd 255 255 255 0 (omega arith) (omega arith) (omega arith),
          byte_kept a ha,
          byte_kept b hb,
          byte_kept c hc,
          bit_and-zero d,
          or-joined a b c 0 ha hb hc (omega arith) 0 0 0 v (omega arith) (omega arith)
              (omega arith),
          bit_or-zero a,
          bit_or-zero b,
          bit_or-zero c,
          zero-bit_or v,
        )
        refl

pub split_word :
    (w : ℕ)
    → w < 2 ^ 32
    → w ≡ joined (w % 2 ^ 8) (w / 2 ^ 8 % 2 ^ 8) (w / 2 ^ 16 % 2 ^ 8) (w / 2 ^ 24 % 2 ^ 8)
split_word w h = omega arith
