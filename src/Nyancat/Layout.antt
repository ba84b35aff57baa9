-- ===== src/Nyancat/Layout.antt =====
-- The bytes that 4-soc/csrc/nyancat.c takes for a frame are those that
-- scripts/gen-nyancat-data.py put into the header for it.
use mycpu_4soc_game_port.Common.{
  ℕ, suc, ◌+◌, ◌-◌, ◌^◌, ◌<◌, ◌≡◌, refl, sym, ap, ◌∙◌, arith, true, false, ltb, if◌then◌else◌, List,
  [], ◌∷◌, ◌++◌, length, get_or, take, length-append, u16,
}
use mathlib.Core.List.{append-nil, append_assoc}
use mycpu_4soc_game_port.Nyancat.Encoder.{drop}
use mycpu_4soc_game_port.Nyancat.Generator.{more_offsets, flatten, header_of}
use mycpu_4soc_game_port.Nyancat.Upload.{frame_bytes, frame_count}

drop-append : (xs ys : List ℕ) → drop (length xs) (xs ++ ys) ≡ ys
drop-append [] ys = refl
drop-append (x ∷ xs) ys = drop-append xs ys

take-append : (xs ys : List ℕ) → take (length xs) (xs ++ ys) ≡ xs
take-append [] ys = refl
take-append (x ∷ xs) ys = ap (◌∷◌ x) (take-append xs ys)

flatten-append : (cs ds : List (List ℕ)) → flatten (cs ++ ds) ≡ flatten cs ++ flatten ds
unfolding flatten
flatten-append [] ds = refl
flatten-append (c ∷ cs) ds =
    ap (λ t. c ++ t) (flatten-append cs ds) ∙ sym (append_assoc c (flatten cs) (flatten ds))

more_offsets-cons :
    (last : ℕ) (c d : List ℕ) (cs ds : List (List ℕ))
    → more_offsets last (c ∷ (cs ++ (d ∷ ds)))
      ≡ (last + length c) ∷ more_offsets (last + length c) (cs ++ (d ∷ ds))
unfolding more_offsets
more_offsets-cons last c d [] ds = refl
more_offsets-cons last c d (e ∷ cs) ds = refl

-- The offset of a frame is the number of the bytes before it.
offset_at :
    (last : ℕ) (c : List ℕ) (cs ds : List (List ℕ))
    → get_or (last ∷ more_offsets last (cs ++ (c ∷ ds))) (length cs) 0 ≡ last + length (flatten cs)
unfolding flatten
offset_at last c [] ds = omega arith
offset_at last c (e ∷ cs) ds =
    ap (λ table. get_or table (length cs) 0) (more_offsets-cons last e c cs ds)
    ∙ offset_at (last + length e) c cs ds
    ∙ omega (arith, length-append e (flatten cs))

record Ends (before : List (List ℕ)) (c : List ℕ) (after : List (List ℕ)) : Type 0 where
  pub first :
      u16 (get_or (header_of (before ++ (c ∷ after))).offsets (length before) 0)
      ≡ length (flatten before)
  pub size :
      length (flatten (before ++ (c ∷ after)))
      ≡ length (flatten before) + (length c + length (flatten after))

ends :
    (before : List (List ℕ)) (c : List ℕ) (after : List (List ℕ))
    → length (flatten (before ++ (c ∷ after))) < 2 ^ 16
    → Ends before c after
unfolding flatten
ends before c after small =
    let size =
      ap length (flatten-append before (c ∷ after))
      ∙ length-append (flatten before) (c ++ flatten after)
      ∙ ap (λ n. length (flatten before) + n) (length-append c (flatten after)) in
    record { first = ap u16 (offset_at 0 c before after) ∙ (omega (arith, size)); size = size }

next_offset_lem :
    (before : List (List ℕ)) (c : List ℕ) (after : List (List ℕ))
    → length (flatten (before ++ (c ∷ after))) < 2 ^ 16
    → length before + suc (length after) ≡ frame_count
    → (if ltb (length before) (frame_count - 1)
        then u16 (get_or (header_of (before ++ (c ∷ after))).offsets (length before + 1) 0)
        else u16 (length (flatten (before ++ (c ∷ after)))))
      ≡ length (flatten before) + length c
unfolding flatten
next_offset_lem before c [] small count =
    let last : ltb (length before) 11 ≡ false = ground arith in
    rw last (omega (arith, (ends before c [] small).size))
next_offset_lem before c (d ∷ after) small count =
    let further : ltb (length before) 11 ≡ true = ground arith in
    let joined = append_assoc before (c ∷ []) (d ∷ after) in
    let place : length (before ++ (c ∷ [])) ≡ length before + 1 =
      omega (arith, length-append before (c ∷ [])) in
    let next = ends (before ++ (c ∷ [])) d after (rw joined small) in
    rw further (
      ap (λ (k : ℕ). u16 (get_or (header_of (before ++ (c ∷ (d ∷ after)))).offsets k 0)) (sym place)
      ∙ ap (λ all. u16 (get_or (header_of all).offsets (length (before ++ (c ∷ []))) 0))
          (sym joined)
      ∙ next.first
      ∙ ap length (flatten-append before (c ∷ []))
      ∙ length-append (flatten before) (c ++ [])
      ∙ ap (λ bytes. length (flatten before) + length bytes) (append-nil c))

pub frame_bytes_lem :
    (before : List (List ℕ)) (c : List ℕ) (after : List (List ℕ))
    → length (flatten (before ++ (c ∷ after))) < 2 ^ 16
    → length before + suc (length after) ≡ frame_count
    → frame_bytes (header_of (before ++ (c ∷ after))) (length before) ≡ c
unfolding frame_bytes flatten
frame_bytes_lem before c after small count =
    let from = length (flatten before) in
    let size : from + length c - from ≡ length c = omega arith in
    rw ((ends before c after small).first, next_offset_lem before c after small count, size)
      (ap (λ bytes. take (length c) (drop from bytes)) (flatten-append before (c ∷ after))
        ∙ ap (take (length c)) (drop-append (flatten before) (c ++ flatten after))
        ∙ take-append c (flatten after))
