-- ===== src/Nyancat/Cells.antt =====
-- The frame buffer in the middle of a frame, and what a run and a skip do to it.
use mycpu_4soc_game_port.Common.{
  ℕ, zero, suc, ◌+◌, ◌≤◌, ◌≡◌, refl, sym, ap, ◌∙◌, arith, true, ltb, List, [], ◌∷◌, ◌++◌, length,
  set, set-append, replicate, length-append,
}
use mathlib.Core.List.{append-nil, append_assoc}
use mycpu_4soc_game_port.Nyancat.Decoder.{frame_size, Decoder, fill_run, skip}

-- The cells before the index are done.
abbrev pub at : List ℕ → ℕ → List ℕ → Decoder
at done color rest = record { index = length done; color = color; buffer = done ++ rest }

one_cell :
    (done : List ℕ) (c x : ℕ) (rest : List ℕ)
    → (record {
      index = length done + 1;
      color = c;
      buffer = set (done ++ (x ∷ rest)) (length done) c;
    })
      ≡ at (done ++ (c ∷ [])) c rest
one_cell done c x rest = λ i. record {
  index = place i;
  color = c;
  buffer = (set-append done rest x c ∙ sym (append_assoc done (c ∷ []) rest)) i;
}
  where
    place : length done + 1 ≡ length (done ++ (c ∷ []))
    place = omega (arith, length-append done (c ∷ []))

-- A run overwrites as many cells as it is long.
pub fill_run_lem :
    (n : ℕ) (done : List ℕ) (c : ℕ) (xs rest : List ℕ)
    → length xs ≡ n
    → length done + n ≤ frame_size
    → fill_run n (at done c (xs ++ rest)) ≡ at (done ++ replicate n c) c rest
unfolding fill_run
fill_run_lem zero done c [] rest e h = rw append-nil refl
fill_run_lem zero done c (x ∷ xs) rest e h = absurd (omega arith)
fill_run_lem (suc n) done c [] rest e h = absurd (omega arith)
fill_run_lem (suc n) done c (x ∷ xs) rest e h =
    let room : ltb (length done) frame_size ≡ true = ground arith in
    rw room (
      ap (fill_run n) (one_cell done c x (xs ++ rest))
      ∙ fill_run_lem n (done ++ (c ∷ [])) c xs rest (omega arith)
          (omega (arith, length-append done (c ∷ [])))
      ∙ ap (λ cells. at cells c rest) (append_assoc done (c ∷ []) (replicate n c)))

-- A skip leaves as many cells as they are.
pub skip_lem :
    (n : ℕ) (done : List ℕ) (c : ℕ) (xs rest : List ℕ)
    → length xs ≡ n
    → skip n (at done c (xs ++ rest)) ≡ at (done ++ xs) c rest
skip_lem n done c xs rest e =
    λ i. record { index = place i; color = c; buffer = sym (append_assoc done xs rest) i }
  where
    place : length done + n ≡ length (done ++ xs)
    place = omega (arith, length-append done xs)
