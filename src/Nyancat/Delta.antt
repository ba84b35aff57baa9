-- ===== src/Nyancat/Delta.antt =====
-- A frame that is coded by its changes: what 4-soc/csrc/nyancat.c makes of what
-- scripts/gen-nyancat-data.py writes.
use mycpu_4soc_game_port.Common.{
  ℕ, zero, suc, ◌+◌, ◌≤◌, ◌<◌, ◌≡◌, refl, sym, ap, ◌∙◌, arith, Option, none, some, List, [], ◌∷◌,
  ◌++◌, length, take, replicate, length-append, length-replicate,
}
use mathlib.Core.List.{append-nil, append_assoc}
use mycpu_4soc_game_port.Nyancat.Decoder.{frame_size, delta_loop, decode_delta}
use mycpu_4soc_game_port.Nyancat.Encoder.{
  drop, set_color, count_unchanged, count_changed, encode_run, encode_skip, compress_changed,
  compress_delta,
}
use mycpu_4soc_game_port.Nyancat.Cells.{at}
use mycpu_4soc_game_port.Nyancat.Runs.{
  take-drop, length-take, length-drop, Repeats, encode_run-Repeats,
}
use mycpu_4soc_game_port.Nyancat.Skips.{Leaves, encode_skip-Leaves}
use mycpu_4soc_game_port.Nyancat.Frame.{
  AreColors, AreColors-drop, Agrees, set_color_lem, Writes, done_frame, Coded,
}
use mycpu_4soc_game_port.Nyancat.Steps.{
  delta-SetsColor, delta-IsSkip_1, delta-IsRun_1, delta-IsSkip_16, delta-IsRun_16, delta-IsSkip_64,
  delta_end, unchanged_same, unchanged-le, changed_split,
}

-- What the script writes for pixels of which the first has changed, when the rounds behind them are
-- right.
module _ (next : List ℕ → List ℕ → Option ℕ → Option (List ℕ)) (k p : ℕ) (prev curr done : List ℕ)
    (current : Option ℕ) (c : ℕ) where
  more : ℕ
  more = count_changed k prev curr

  fewer : length curr ≡ more + length (drop more curr)
  unfolding more
  fewer = omega (
    arith,
    ap length (changed_split k prev curr),
    length-append (replicate more k) (drop more curr),
    length-replicate more k,
  )

  whole : (done ++ replicate (more + 1) k) ++ drop more curr ≡ done ++ (k ∷ curr)
  unfolding more
  whole =
      let more_cells : more + 1 ≡ suc more = omega arith in
      append_assoc done (replicate (more + 1) k) (drop more curr)
      ∙ ap (λ n. done ++ (replicate n k ++ drop more curr)) more_cells
      ∙ ap (λ cells. done ++ (k ∷ cells)) (sym (changed_split k prev curr))

  changed_round-Writes :
      k < 16
      → length done + suc (length curr) ≡ frame_size
      → length prev ≡ length curr
      → Agrees current c
      → Writes delta_loop
          (done ++ replicate (more + 1) k)
          (drop more curr)
          (drop more prev)
          k
          (next (drop more prev) (drop more curr) (some k))
      → Writes delta_loop done
          (k ∷ curr)
          (p ∷ prev)
          c
          (compress_changed next (p ∷ prev) (k ∷ curr) current)
  unfolding compress_changed more
  changed_round-Writes small size same agrees later = record {
    bytes = set_color current k ++ (run.bytes ++ later.bytes);
    last = later.last;
    returns = rw (run.returns, later.returns) refl;
    decodes =
        set_color_lem delta_loop current k c (run.bytes ++ later.bytes) done (p ∷ prev)
          delta-SetsColor agrees small (omega arith)
        ∙ ap (λ cells. delta_loop (run.bytes ++ later.bytes) (at done k cells)) split
        ∙ run.decodes later.bytes done (p ∷ take more prev) (drop more prev) k front
            (omega (arith, fewer))
        ∙ later.decodes
        ∙ ap (λ cells. at cells later.last []) whole;
  }
    where
      run : Repeats delta_loop (more + 1) (encode_run 0x40 (more + 2) (more + 1))
      run =
          encode_run-Repeats delta_loop 0x40 delta-IsRun_1 delta-IsRun_16 (more + 2) (more + 1)
            (omega arith)

      split : p ∷ prev ≡ (p ∷ take more prev) ++ drop more prev
      split = ap (◌∷◌ p) (take-drop more prev)

      front : length (p ∷ take more prev) ≡ more + 1
      front = omega (arith, length-take more prev (omega (arith, fewer)))

-- With the fuel the script writes what makes the decoder turn the frame before into this one.
abbrev Goes : ℕ → Type 0
Goes fuel =
    (prev curr done : List ℕ) (current : Option ℕ) (c : ℕ)
    → length curr < fuel
    → AreColors curr
    → length done + length curr ≡ frame_size
    → length prev ≡ length curr
    → Agrees current c
    → Writes delta_loop done curr prev c (compress_delta fuel prev curr current)

changed-Writes :
    (fuel : ℕ) (prev curr done : List ℕ) (current : Option ℕ) (c : ℕ)
    → Goes fuel
    → length curr ≤ fuel
    → AreColors curr
    → length done + length curr ≡ frame_size
    → length prev ≡ length curr
    → Agrees current c
    → Writes delta_loop done curr prev c (compress_changed (compress_delta fuel) prev curr current)
unfolding compress_changed more
changed-Writes fuel [] [] done current c goes h colors size same agrees = record {
  bytes = 0xFF ∷ [];
  last = c;
  returns = refl;
  decodes = delta_end (at done c []) ∙ done_frame done c;
}
changed-Writes fuel [] (k ∷ curr) done current c goes h colors size same agrees =
    absurd (omega arith)
changed-Writes fuel (p ∷ prev) [] done current c goes h colors size same agrees =
    absurd (omega arith)
changed-Writes fuel (p ∷ prev) (k ∷ curr) done current c goes h colors size same agrees =
    let n = count_changed k prev curr in
    let fewer' = fewer (compress_delta fuel) k p prev curr done current c in
    changed_round-Writes (compress_delta fuel) k p prev curr done current c colors.0 size
      (omega arith) agrees
      (goes (drop n prev) (drop n curr) (done ++ replicate (n + 1) k) (some k) k
        (omega (arith, fewer')) (AreColors-drop n curr colors.1)
        (omega
          (arith, fewer', length-append done (replicate (n + 1) k), length-replicate (n + 1) k))
        (omega (arith, fewer', length-drop n curr, length-drop n prev)) refl)

compress_delta-Goes : (fuel : ℕ) → Goes fuel
unfolding compress_delta
compress_delta-Goes zero prev curr done current c h colors size same agrees = absurd (omega arith)
compress_delta-Goes (suc fuel) prev curr done current c h colors size same agrees =
    let rest = rest_of (compress_delta-Goes fuel) in
    record {
      bytes = skips.bytes ++ rest.bytes;
      last = rest.last;
      returns = rw (skips.returns, rest.returns) refl;
      decodes =
          ap (λ cells. delta_loop (skips.bytes ++ rest.bytes) (at done c cells)) (take-drop n prev)
          ∙ skips.decodes rest.bytes done (take n prev) (drop n prev) c
              (length-take n prev (omega (arith, unchanged-le prev curr)))
              (omega (arith, unchanged-le prev curr))
          ∙ ap (λ cells. delta_loop rest.bytes (at (done ++ cells) c (drop n prev)))
              (unchanged_same prev curr)
          ∙ rest.decodes
          ∙ ap (λ cells. at cells rest.last [])
              (append_assoc done (take n curr) (drop n curr)
                ∙ ap (λ cells. done ++ cells) (sym (take-drop n curr)));
    }
  where
    n : ℕ
    n = count_unchanged prev curr

    skips : Leaves delta_loop n (encode_skip (n + 1) n)
    skips =
        encode_skip-Leaves delta_loop delta-IsSkip_1 delta-IsSkip_16 delta-IsSkip_64 (n + 1) n
          (omega arith)

    rest_of :
        Goes fuel
        → Writes delta_loop
            (done ++ take n curr)
            (drop n curr)
            (drop n prev)
            c
            (compress_changed (compress_delta fuel) (drop n prev) (drop n curr) current)
    rest_of goes =
        let front = length-take n curr (unchanged-le prev curr) in
        let sizes = length-append done (take n curr) in
        changed-Writes fuel (drop n prev) (drop n curr) (done ++ take n curr) current c goes
          (omega (arith, length-drop n curr, unchanged-le prev curr)) (AreColors-drop n curr colors)
          (omega (arith, length-drop n curr, unchanged-le prev curr, front, sizes))
          (omega (arith, length-drop n curr, length-drop n prev)) agrees

-- For two frames of 4096 palette indices the script returns, with more fuel than pixels, and what
-- the decoder of the later frames makes of its bytes and the first frame is the second frame.
pub decode_delta-compress_delta :
    (prev curr : List ℕ) (fuel : ℕ)
    → length prev ≡ frame_size
    → length curr ≡ frame_size
    → AreColors curr
    → frame_size < fuel
    → Coded curr (λ bytes. decode_delta bytes prev) (compress_delta fuel prev curr none)
unfolding decode_delta
decode_delta-compress_delta prev curr fuel size size' colors h =
    let coded =
      compress_delta-Goes fuel prev curr [] none 0 (omega arith) colors (omega arith) (omega arith)
        tt in
    record {
      bytes = coded.bytes;
      returns = coded.returns;
      decoded = ap (λ d. d.buffer) coded.decodes ∙ append-nil curr;
    }
