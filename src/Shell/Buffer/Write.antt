-- ===== src/Shell/Buffer/Write.antt =====
-- `line_buf_write_byte` of 4-soc/csrc/shell.c as a store to the bytes.
use mycpu_4soc_game_port.Common.{
  ℕ, zero, suc, ◌*◌, ◌/◌, ◌%◌, ◌^◌, ◌<◌, bit_and, ◌≡◌, refl, sym, ap, subst, ◌∙◌, arith, [], ◌∷◌,
  length, set, length-set,
}
use mycpu_4soc_game_port.Common.Bits.{bit_and_three}
use mycpu_4soc_game_port.Shell.Buffer.{Words, line_buf, insert_byte, line_buf_write_byte}
-- A word by its four bytes.
use mycpu_4soc_game_port.Shell.Buffer.Join.{
  joined, AreBytes, split_word, insert_0, insert_8, insert_16, insert_24,
}

-- Every word is a 32-bit value.
abbrev pub AreWords : Words → Type 0
AreWords [] = Unit {0}
AreWords (w ∷ ws) = (w < 2 ^ 32) × AreWords ws

bytes_of_joined :
    (a b c d : ℕ) (ws : Words)
    → AreBytes a b c d
    → line_buf (joined a b c d ∷ ws) ≡ a ∷ b ∷ c ∷ d ∷ line_buf ws
unfolding line_buf
bytes_of_joined a b c d ws h =
    let e0 : joined a b c d % 2 ^ 8 ≡ a = omega arith in
    let e1 : joined a b c d / 2 ^ 8 % 2 ^ 8 ≡ b = omega arith in
    let e2 : joined a b c d / 2 ^ 16 % 2 ^ 8 ≡ c = omega arith in
    let e3 : joined a b c d / 2 ^ 24 % 2 ^ 8 ≡ d = omega arith in cc (e0, e1, e2, e3)

write_later :
    (w v i : ℕ) (ws : Words)
    → line_buf_write_byte (suc (suc (suc (suc i)))) v (w ∷ ws) ≡ w ∷ line_buf_write_byte i v ws
unfolding line_buf_write_byte
write_later w v i ws =
    let word_idx : suc (suc (suc (suc i))) / 4 ≡ suc (i / 4) = omega arith in
    let byte_idx : bit_and (suc (suc (suc (suc i)))) 3 ≡ bit_and i 3 =
      omega (arith, bit_and_three (suc (suc (suc (suc i)))), bit_and_three i) in
    rw (word_idx, byte_idx) refl

module _ (a b c d v : ℕ) (ws : Words) (ok : AreBytes a b c d) (hv : v < 256) where
  write_first :
      (i : ℕ)
      → i < 4
      → line_buf (line_buf_write_byte i v (joined a b c d ∷ ws))
        ≡ set (a ∷ b ∷ c ∷ d ∷ line_buf ws) i v
  unfolding line_buf_write_byte
  write_first zero h =
      ap (λ w. line_buf (w ∷ ws)) (insert_0 a b c d v ok.0 ok.1 ok.2 ok.3 hv)
      ∙ bytes_of_joined v b c d ws (omega arith)
  write_first (suc zero) h =
      ap (λ w. line_buf (w ∷ ws)) (insert_8 a b c d v ok.0 ok.1 ok.2 ok.3 hv)
      ∙ bytes_of_joined a v c d ws (omega arith)
  write_first (suc (suc zero)) h =
      ap (λ w. line_buf (w ∷ ws)) (insert_16 a b c d v ok.0 ok.1 ok.2 ok.3 hv)
      ∙ bytes_of_joined a b v d ws (omega arith)
  write_first (suc (suc (suc zero))) h =
      ap (λ w. line_buf (w ∷ ws)) (insert_24 a b c d v ok.0 ok.1 ok.2 ok.3 hv)
      ∙ bytes_of_joined a b c v ws (omega arith)
  write_first (suc (suc (suc (suc i)))) h = absurd (omega arith)

  first_word : (i : ℕ) → i < 4 → insert_byte (bit_and i 3 * 2 ^ 3) v (joined a b c d) < 2 ^ 32
  first_word zero h = omega (arith, insert_0 a b c d v ok.0 ok.1 ok.2 ok.3 hv)
  first_word (suc zero) h = omega (arith, insert_8 a b c d v ok.0 ok.1 ok.2 ok.3 hv)
  first_word (suc (suc zero)) h = omega (arith, insert_16 a b c d v ok.0 ok.1 ok.2 ok.3 hv)
  first_word (suc (suc (suc zero))) h = omega (arith, insert_24 a b c d v ok.0 ok.1 ok.2 ok.3 hv)
  first_word (suc (suc (suc (suc i)))) h = absurd (omega arith)

word_stays :
    (a b c d v : ℕ) (ws : Words)
    → AreBytes a b c d
    → v < 256
    → (i : ℕ) → i < 4
    → AreWords ws
    → AreWords (line_buf_write_byte i v (joined a b c d ∷ ws))
unfolding line_buf_write_byte
word_stays a b c d v ws ok hv zero h rest = (first_word a b c d v ws ok hv 0 h, rest)
word_stays a b c d v ws ok hv (suc zero) h rest = (first_word a b c d v ws ok hv 1 h, rest)
word_stays a b c d v ws ok hv (suc (suc zero)) h rest = (first_word a b c d v ws ok hv 2 h, rest)
word_stays a b c d v ws ok hv (suc (suc (suc zero))) h rest =
    (first_word a b c d v ws ok hv 3 h, rest)
word_stays a b c d v ws ok hv (suc (suc (suc (suc i)))) h rest = absurd (omega arith)

-- A store to a word of a line, seen as its bytes and as a 32-bit value.
abbrev Stores : ℕ → ℕ → Words → Words → Type 0
Stores i v ws out = (line_buf out ≡ set (line_buf ws) i v) × AreWords out

write_low :
    (i v w : ℕ) (ws : Words)
    → i < 4
    → v < 256
    → w < 2 ^ 32
    → AreWords ws
    → Stores i v (w ∷ ws) (line_buf_write_byte i v (w ∷ ws))
write_low i v w ws h hv hw rest =
    subst (λ t. Stores i v (t ∷ ws) (line_buf_write_byte i v (t ∷ ws))) (sym (split_word w hw))
      (write_joined i h)
  where
    a : ℕ
    a = w % 2 ^ 8

    b : ℕ
    b = w / 2 ^ 8 % 2 ^ 8

    c : ℕ
    c = w / 2 ^ 16 % 2 ^ 8

    d : ℕ
    d = w / 2 ^ 24 % 2 ^ 8

    ok : AreBytes a b c d
    ok = omega arith

    bytes : line_buf (joined a b c d ∷ ws) ≡ a ∷ b ∷ c ∷ d ∷ line_buf ws
    bytes = bytes_of_joined a b c d ws ok

    write_joined :
        (i : ℕ)
        → i < 4
        → Stores i v (joined a b c d ∷ ws) (line_buf_write_byte i v (joined a b c d ∷ ws))
    write_joined i h = (
      write_first a b c d v ws ok hv i h ∙ ap (λ bs. set bs i v) (sym bytes),
      word_stays a b c d v ws ok hv i h rest,
    )

stores_later :
    (i v w : ℕ) (ws out : Words)
    → line_buf out ≡ set (line_buf ws) i v
    → line_buf (w ∷ out) ≡ set (line_buf (w ∷ ws)) (suc (suc (suc (suc i)))) v
unfolding line_buf
stores_later i v w ws out e = cc e

-- On 32-bit words, `line_buf_write_byte` with a byte `v` changes the byte with the given index and
-- no other byte, and leaves 32-bit words.
pub line_buf_write_byte-Stores :
    (i v : ℕ) (ws : Words)
    → v < 256
    → AreWords ws
    → (line_buf (line_buf_write_byte i v ws) ≡ set (line_buf ws) i v)
      × AreWords (line_buf_write_byte i v ws)
line_buf_write_byte-Stores i v [] hv ok = unfold line_buf line_buf_write_byte in (refl, tt)
line_buf_write_byte-Stores zero v (w ∷ ws) hv ok = write_low 0 v w ws (omega arith) hv ok.0 ok.1
line_buf_write_byte-Stores (suc zero) v (w ∷ ws) hv ok =
    write_low 1 v w ws (omega arith) hv ok.0 ok.1
line_buf_write_byte-Stores (suc (suc zero)) v (w ∷ ws) hv ok =
    write_low 2 v w ws (omega arith) hv ok.0 ok.1
line_buf_write_byte-Stores (suc (suc (suc zero))) v (w ∷ ws) hv ok =
    write_low 3 v w ws (omega arith) hv ok.0 ok.1
line_buf_write_byte-Stores (suc (suc (suc (suc i)))) v (w ∷ ws) hv ok =
    let (bytes, words) = line_buf_write_byte-Stores i v ws hv ok.1 in
    rw (write_later w v i ws)
      (stores_later i v w ws (line_buf_write_byte i v ws) bytes, (ok.0, words))

pub length-line_buf : (ws : Words) → length (line_buf ws) ≡ 4 * length ws
unfolding line_buf
length-line_buf [] = refl
length-line_buf (w ∷ ws) = omega (arith, length-line_buf ws)

pub length-line_buf_write_byte :
    (i v : ℕ) (ws : Words) → length (line_buf_write_byte i v ws) ≡ length ws
unfolding line_buf_write_byte
length-line_buf_write_byte i v ws = length-set ws (i / 4) _
