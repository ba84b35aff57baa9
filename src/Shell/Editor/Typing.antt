-- ===== src/Shell/Editor/Typing.antt =====
-- What `read_line` makes of the keys before the one that ends the line.
use mycpu_4soc_game_port.Common.{
  ℕ, ◌+◌, ◌-◌, ◌%◌, ◌≤◌, ◌<◌, bit_and, ◌≡◌, refl, ap, ◌∙◌, arith, true, false, ◌&&◌, ltb,
  if◌then◌else◌, Bool-cases, inl, inr, Option, some, List, [], ◌∷◌, ◌++◌, length, set,
}
use mycpu_4soc_game_port.Common.Parts.{bit_and_255}
use mycpu_4soc_game_port.Shell.Buffer.{
  line_buf_size, line_buf_length, Words, line_buf, line_buf_write_byte,
}
use mycpu_4soc_game_port.Shell.Buffer.Write.{
  AreWords, line_buf_write_byte-Stores, length-line_buf, length-line_buf_write_byte,
}
use mycpu_4soc_game_port.Shell.Editor.{
  Editor, is_enter, is_backspace, is_printable, edit_round, end_line, read_loop, read_line,
}

abbrev pub drop_last : List ℕ → List ℕ
drop_last [] = []
drop_last (x ∷ []) = []
drop_last (x ∷ y ∷ xs) = x ∷ drop_last (y ∷ xs)

-- A line of text as its user sees it: a key appends its character while there is room, and a
-- backspace takes the last one off.
abbrev pub type_key : ℕ → List ℕ → List ℕ
type_key c text =
    if is_backspace c
    then drop_last text
    else if is_printable c && ltb (length text) 79
    then text ++ (c ∷ [])
    else text

abbrev pub type_keys : List ℕ → List ℕ → List ℕ
type_keys [] text = text
type_keys (c ∷ keys) text = type_keys keys (type_key c text)

-- A text at the front of an array.
abbrev pub Starts : List ℕ → List ℕ → Type 0
Starts text bytes = (rest : List ℕ) × (bytes ≡ text ++ rest)

set_end :
    (text rest : List ℕ) (c : ℕ)
    → length text < length (text ++ rest)
    → Starts (text ++ (c ∷ [])) (set (text ++ rest) (length text) c)
set_end [] [] c h = absurd (omega arith)
set_end [] (x ∷ rest) c h = (rest, refl)
set_end (t ∷ text) rest c h =
    let (more, e) = set_end text rest c (omega arith) in (more, ap (◌∷◌ t) e)

length-drop_last : (text : List ℕ) → length (drop_last text) ≡ length text - 1
length-drop_last [] = omega arith
length-drop_last (x ∷ []) = omega arith
length-drop_last (x ∷ y ∷ xs) = omega (arith, length-drop_last (y ∷ xs))

drop_last-Starts : (text rest : List ℕ) → Starts (drop_last text) (text ++ rest)
drop_last-Starts [] rest = (rest, refl)
drop_last-Starts (x ∷ []) rest = (x ∷ rest, refl)
drop_last-Starts (x ∷ y ∷ xs) rest =
    let (more, e) = drop_last-Starts (y ∷ xs) rest in (more, ap (◌∷◌ x) e)

abbrev pub AllPrintable : List ℕ → Type 0
AllPrintable [] = Unit {0}
AllPrintable (c ∷ text) = (32 ≤ c) × (c < 127) × AllPrintable text

drop_last-AllPrintable : (text : List ℕ) → AllPrintable text → AllPrintable (drop_last text)
drop_last-AllPrintable [] h = tt
drop_last-AllPrintable (x ∷ []) h = tt
drop_last-AllPrintable (x ∷ y ∷ xs) h = (h.0, h.1, drop_last-AllPrintable (y ∷ xs) h.2)

append-AllPrintable :
    (text : List ℕ) (c : ℕ) → AllPrintable text → 32 ≤ c → c < 127 → AllPrintable (text ++ (c ∷ []))
append-AllPrintable [] c h lo hi = (lo, hi, tt)
append-AllPrintable (x ∷ text) c h lo hi = (h.0, h.1, append-AllPrintable text c h.2 lo hi)

length-snoc : (text : List ℕ) (c : ℕ) → length (text ++ (c ∷ [])) ≡ length text + 1
length-snoc [] c = omega arith
length-snoc (x ∷ text) c = omega (arith, length-snoc text c)

-- 21 words of 32 bits whose bytes start with a text.
pub record Carries (text : List ℕ) (words : Words) : Type 0 where
  pub size : length words ≡ line_buf_length
  pub widths : AreWords words
  pub starts : Starts text (line_buf words)

-- The editor holds a text: in the buffer and by its length.
pub record Holds (text : List ℕ) (e : Editor) : Type 0 where
  pub carries : Carries text e.words
  pub count : e.len ≡ length text
  pub room : length text ≤ line_buf_size - 1
  pub plain : AllPrintable text

write_end :
    (text : List ℕ) (c : ℕ) (words : Words)
    → Carries text words
    → c < 256
    → length text < 84
    → Carries (text ++ (c ∷ [])) (line_buf_write_byte (length text) c words)
write_end text c words h hc room =
    let (rest, e) = h.starts in
    let (stored, widths) = line_buf_write_byte-Stores (length text) c words hc h.widths in
    let inside : length text < length (text ++ rest) =
      omega (arith, ap length e, length-line_buf words, h.size) in
    let (more, e') = set_end text rest c inside in
    record {
      size = length-line_buf_write_byte (length text) c words ∙ h.size;
      widths = widths;
      starts = (more, stored ∙ ap (λ bs. set bs (length text) c) e ∙ e');
    }

drop_last-Carries :
    (text : List ℕ) (words : Words) → Carries text words → Carries (drop_last text) words
drop_last-Carries text words h =
    let (rest, e) = h.starts in
    let (more, e') = drop_last-Starts text rest in
    record { size = h.size; widths = h.widths; starts = (more, e ∙ e') }

drop_last_short : (text : List ℕ) → ltb 0 (length text) ≡ false → drop_last text ≡ text
drop_last_short [] h = refl
drop_last_short (x ∷ text) h = absurd (ground arith)

backspace-Holds :
    (text : List ℕ) (c : ℕ) (e : Editor)
    → is_backspace c ≡ true
    → Holds text e
    → Holds (drop_last text) (edit_round c e)
unfolding edit_round
backspace-Holds text c e back h = elim (Bool-cases (ltb 0 e.len)) [
  | inl more ↦
      rw (back, more)
        (record {
          carries = drop_last-Carries text e.words h.carries;
          count = omega (arith, h.count, length-drop_last text);
          room = omega (arith, h.room, length-drop_last text);
          plain = drop_last-AllPrintable text h.plain;
        })
  | inr empty ↦
      let short : ltb 0 (length text) ≡ false = rw (← h.count) empty in
      rw (back, empty, drop_last_short text short) h
]

printable-Holds :
    (text : List ℕ) (c : ℕ) (e : Editor)
    → is_backspace c ≡ false
    → Holds text e
    → Holds
        (if is_printable c && ltb (length text) 79 then text ++ (c ∷ []) else text)
        (edit_round c e)
unfolding edit_round
printable-Holds text c e other h = elim (Bool-cases (is_printable c && ltb (length text) 79)) [
  | inl fits ↦
      rw (other, h.count, fits)
        (record {
          carries = write_end text c e.words h.carries (ground arith) (ground arith);
          count = omega (arith, length-snoc text c);
          room = ground (arith, length-snoc text c);
          plain = append-AllPrintable text c h.plain (ground arith) (ground arith);
        })
  | inr full ↦
      let full' : (is_printable c && ltb e.len 79) ≡ false = rw h.count full in
      rw (other, full, full') h
]

edit_round-Holds :
    (text : List ℕ) (c : ℕ) (e : Editor) → Holds text e → Holds (type_key c text) (edit_round c e)
edit_round-Holds text c e h = elim (Bool-cases (is_backspace c)) [
  | inl back ↦ rw back (backspace-Holds text c e back h)
  | inr other ↦ rw other (printable-Holds text c e other h)
]

-- The bytes that the UART delivers, without the upper bits of a read.
abbrev pub received : List ℕ → List ℕ
received [] = []
received (recv ∷ input) = recv % 256 ∷ received input

abbrev pub NoEnter : List ℕ → Type 0
NoEnter [] = Unit {0}
NoEnter (c ∷ keys) = (is_enter c ≡ false) × NoEnter keys

-- A line that has been read: its text and the 0 behind it at the front of the buffer, its length,
-- and the input that is left.
pub record ReadsLine (text left : List ℕ) (result : Option (Editor × List ℕ)) : Type 0 where
  pub editor : Editor
  pub returns : result ≡ some (editor, left)
  pub count : editor.len ≡ length text
  pub room : length text ≤ line_buf_size - 1
  pub plain : AllPrintable text
  pub carries : Carries (text ++ (0 ∷ [])) editor.words

end_line-ReadsLine :
    (text left : List ℕ) (e : Editor) → Holds text e → ReadsLine text left (some (end_line e, left))
unfolding end_line
end_line-ReadsLine text left e h = record {
  editor = end_line e;
  returns = refl;
  count = h.count;
  room = h.room;
  plain = h.plain;
  carries = rw h.count (write_end text 0 e.words h.carries (omega arith) (omega (arith, h.room)));
}

read_loop-ReadsLine :
    (keys : List ℕ) (recv : ℕ) (left text : List ℕ) (e : Editor)
    → NoEnter (received keys)
    → is_enter (recv % 256) ≡ true
    → Holds text e
    → ReadsLine (type_keys (received keys) text) left (read_loop (keys ++ (recv ∷ left)) e)
unfolding read_loop
read_loop-ReadsLine [] recv left text e keys_only enter h =
    let ends : is_enter (bit_and recv 255) ≡ true = rw (bit_and_255 recv) enter in
    rw ends (end_line-ReadsLine text left e h)
read_loop-ReadsLine (k ∷ keys) recv left text e keys_only enter h =
    let goes_on : is_enter (bit_and k 255) ≡ false = rw (bit_and_255 k) keys_only.0 in
    rw (goes_on, bit_and_255 k)
      (read_loop-ReadsLine keys recv left (type_key (k % 256) text) (edit_round (k % 256) e)
        keys_only.1 enter (edit_round-Holds text (k % 256) e h))

-- Whatever the 32-bit words of the line buffer were, and whatever bytes arrive, as soon as one of
-- them is a carriage return or a line feed `read_line` returns. The result is the length of the
-- text that the keys before it type: a printable byte is appended while there are fewer than 79, a
-- backspace or delete takes the last one off, and any other byte does nothing. The buffer starts
-- with that text and a 0, and the bytes behind the end of the line are still to be read.
pub read_line-ReadsLine :
    (keys : List ℕ) (recv : ℕ) (left : List ℕ) (words : Words) (sent : List ℕ)
    → length words ≡ line_buf_length
    → AreWords words
    → NoEnter (received keys)
    → is_enter (recv % 256) ≡ true
    → ReadsLine (type_keys (received keys) []) left (read_line (keys ++ (recv ∷ left)) words sent)
unfolding read_line
read_line-ReadsLine keys recv left words sent size widths keys_only enter =
    read_loop-ReadsLine keys recv left [] (record { len = 0; words = words; sent = sent }) keys_only
      enter
      (record {
        carries = record { size = size; widths = widths; starts = (line_buf words, refl) };
        count = refl;
        room = omega arith;
        plain = tt;
      })
