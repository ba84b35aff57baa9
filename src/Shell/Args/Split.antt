-- ===== src/Shell/Args/Split.antt =====
-- A text cut at its spaces.
use mycpu_4soc_game_port.Common.{
  ℕ, zero, suc, ◌≡◌, ◌≢◌, refl, ap, ◌∙◌, arith, ◌==◌, if◌then◌else◌, Bool-cases, inl, inr, List, [],
  ◌∷◌, ◌++◌, replicate,
}
use mathlib.Core.List.{append-nil, append_assoc}

-- A word is put out when it has a character.
abbrev pub emit : List ℕ → List (List ℕ) → List (List ℕ)
emit [] rest = rest
emit (c ∷ cur) rest = (c ∷ cur) ∷ rest

abbrev pub split_words : List ℕ → List ℕ → List (List ℕ)
split_words [] cur = emit cur []
split_words (c ∷ s) cur =
    if c == b' ' then emit cur (split_words s []) else split_words s (cur ++ (c ∷ []))

-- The words of a text: its longest parts without a space.
abbrev pub words_of : List ℕ → List (List ℕ)
words_of s = split_words s []

abbrev pub NoZero : List ℕ → Type 0
NoZero [] = Unit {0}
NoZero (c ∷ s) = (c ≢ 0) × NoZero s

abbrev pub NoSpace : List ℕ → Type 0
NoSpace [] = Unit {0}
NoSpace (c ∷ s) = (c ≢ b' ') × NoSpace s

abbrev pub StartsWord : List ℕ → Type 0
StartsWord [] = Unit {0}
StartsWord (c ∷ s) = c ≢ b' '

abbrev pub EndsWord : List ℕ → Type 0
EndsWord [] = Unit {0}
EndsWord (c ∷ s) = c ≡ b' '

pub record Spaces (s : List ℕ) : Type 0 where
  pub count : ℕ
  pub after : List ℕ
  pub cut : s ≡ replicate count b' ' ++ after
  pub starts : StartsWord after

pub spaces : (s : List ℕ) → Spaces s
spaces [] = record { count = 0; after = []; cut = refl; starts = tt }
spaces (c ∷ s) = elim (Bool-cases (c == b' ')) [
  | inl e ↦
      let rest = spaces s in
      let space : c ≡ b' ' = ground arith in
      record {
        count = suc rest.count;
        after = rest.after;
        cut = rw space (ap (◌∷◌ b' ') rest.cut);
        starts = rest.starts;
      }
  | inr e ↦ record { count = 0; after = c ∷ s; cut = refl; starts = ground arith }
]

pub record Word (s : List ℕ) : Type 0 where
  pub word : List ℕ
  pub after : List ℕ
  pub cut : s ≡ word ++ after
  pub inside : NoSpace word
  pub ends : EndsWord after

pub cut_at_space : (s : List ℕ) → Word s
cut_at_space [] = record { word = []; after = []; cut = refl; inside = tt; ends = tt }
cut_at_space (c ∷ s) = elim (Bool-cases (c == b' ')) [
  | inl e ↦ record { word = []; after = c ∷ s; cut = refl; inside = tt; ends = ground arith }
  | inr e ↦
      let rest = cut_at_space s in
      record {
        word = c ∷ rest.word;
        after = rest.after;
        cut = ap (◌∷◌ c) rest.cut;
        inside = (ground arith, rest.inside);
        ends = rest.ends;
      }
]

pub words_of-spaces : (n : ℕ) (s : List ℕ) → words_of (replicate n b' ' ++ s) ≡ words_of s
words_of-spaces zero s = refl
words_of-spaces (suc n) s = words_of-spaces n s

emit_some : (w : List ℕ) (rest : List (List ℕ)) → w ≢ [] → emit w rest ≡ w ∷ rest
emit_some [] rest h = absurd (h refl)
emit_some (c ∷ w) rest h = refl

split_inside : (w s cur : List ℕ) → NoSpace w → split_words (w ++ s) cur ≡ split_words s (cur ++ w)
split_inside [] s cur h = rw append-nil refl
split_inside (c ∷ w) s cur h =
    ground (arith, split_inside w s (cur ++ (c ∷ [])), append_assoc cur (c ∷ []) w)

pub words_of-last : (w : List ℕ) → NoSpace w → w ≢ [] → words_of (w ++ []) ≡ w ∷ []
words_of-last w h filled = split_inside w [] [] h ∙ emit_some w [] filled

pub words_of-inner :
    (w s : List ℕ) → NoSpace w → w ≢ [] → words_of (w ++ (b' ' ∷ s)) ≡ w ∷ words_of s
words_of-inner w s h filled = split_inside w (b' ' ∷ s) [] h ∙ emit_some w (words_of s) filled

pub NoZero-append_left : (s t : List ℕ) → NoZero (s ++ t) → NoZero s
NoZero-append_left [] t h = tt
NoZero-append_left (c ∷ s) t h = (h.0, NoZero-append_left s t h.1)

pub NoZero-append_right : (s t : List ℕ) → NoZero (s ++ t) → NoZero t
NoZero-append_right [] t h = h
NoZero-append_right (c ∷ s) t h = NoZero-append_right s t h.1
