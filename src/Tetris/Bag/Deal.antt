-- ===== src/Tetris/Bag/Deal.antt =====
-- The rounds of `bag_next`, in 4-soc/csrc/tetris/tetris_shape.c.
use mycpu_4soc_game_port.Common.{
  ℕ, zero, suc, ◌+◌, ◌%◌, ◌≤◌, ◌<◌, ◌≡◌, ◌≢◌, refl, ap, ◌∙◌, ◌⊎◌, inl, inr, ◌==◌, if◌then◌else◌,
  leb, Bool-cases, u8, arith,
}
use mycpu_4soc_game_port.Common.{
  List, [], ◌∷◌, length, get_or, set, length-set, get_or-set_self, get_or-set_ne,
}
use mycpu_4soc_game_port.Tetris.Bag.{
  Random, my_rand, fill_bag, swap, shuffle_round, shuffle_bag, shape_random,
}

abbrev is_at : ℕ → ℕ → ℕ
is_at v x = if x == v then 1 else 0

abbrev pub count : ℕ → List ℕ → ℕ
count v [] = 0
count v (x ∷ xs) = is_at v x + count v xs

-- A write takes one element out and puts another in.
count-set :
    (v : ℕ) (xs : List ℕ) (i a : ℕ)
    → i < length xs
    → count v (set xs i a) + is_at v (get_or xs i 0) ≡ count v xs + is_at v a
count-set v [] i a h = absurd (omega arith)
count-set v (x ∷ xs) zero a h = omega arith
count-set v (x ∷ xs) (suc i) a h = omega (arith, count-set v xs i a (omega arith))

-- Each of the seven shapes is in the list once, and nothing else.
pub record IsFull (xs : List ℕ) : Type 0 where
  pub seven : length xs ≡ 7
  pub small : (i : ℕ) → get_or xs i 0 < 7
  pub once : (v : ℕ) → v < 7 → count v xs ≡ 1

-- What holds of the statics once `shape_init` has run.
pub record IsDealt (r : Random) : Type 0 where
  pub full : IsFull r.bag
  pub within : r.bag_pos ≤ 7

module _ (xs : List ℕ) (k j : ℕ) (hk : k < length xs) (hj : j < length xs) (ne : k ≢ j) where
  count-swap : (v : ℕ) → count v (swap xs k j) ≡ count v xs
  unfolding swap
  count-swap v = omega (
    arith,
    count-set v (set xs k (get_or xs j 0)) j (get_or xs k 0)
        (omega (arith, length-set xs k (get_or xs j 0))),
    count-set v xs k (get_or xs j 0) hk,
    ap (is_at v) (get_or-set_ne xs k j (get_or xs j 0) 0 ne),
  )

  get_or-swap-lt : ((i : ℕ) → get_or xs i 0 < 7) → (i : ℕ) → get_or (swap xs k j) i 0 < 7
  unfolding swap
  get_or-swap-lt h i = ground (
    arith,
    h i,
    h j,
    h k,
    get_or-set_self (set xs k (get_or xs j 0)) j (get_or xs k 0) 0,
    get_or-set_ne (set xs k (get_or xs j 0)) j i (get_or xs k 0) 0,
    get_or-set_self xs k (get_or xs j 0) 0,
    get_or-set_ne xs k i (get_or xs j 0) 0,
    length-set xs k (get_or xs j 0),
  )

  swap-IsFull : IsFull xs → IsFull (swap xs k j)
  swap-IsFull h = record {
    seven =
        unfold swap in
        length-set (set xs k (get_or xs j 0)) j (get_or xs k 0)
        ∙ length-set xs k (get_or xs j 0)
        ∙ h.seven;
    small = get_or-swap-lt h.small;
    once = λ v p. count-swap v ∙ h.once v p;
  }

shuffle_round-IsFull : (k : ℕ) (r : Random) → k < 7 → IsFull r.bag → IsFull (shuffle_round k r).bag
unfolding shuffle_round
shuffle_round-IsFull k r hk h =
    let j = u8 ((my_rand r).0 % (k + 1)) in
    elim (Bool-cases (j == k)) [
      | inl e ↦ rw e h
      | inr e ↦
          rw e (
            swap-IsFull r.bag k j (omega (arith, h.seven)) (omega (arith, h.seven)) (ground arith)
              h)
    ]

abbrev in_order : List ℕ
in_order = 0 ∷ 1 ∷ 2 ∷ 3 ∷ 4 ∷ 5 ∷ 6 ∷ []

in_order-small : (i : ℕ) → get_or in_order i 0 < 7
in_order-small zero = omega arith
in_order-small (suc zero) = omega arith
in_order-small (suc (suc zero)) = omega arith
in_order-small (suc (suc (suc zero))) = omega arith
in_order-small (suc (suc (suc (suc zero)))) = omega arith
in_order-small (suc (suc (suc (suc (suc zero))))) = omega arith
in_order-small (suc (suc (suc (suc (suc (suc zero)))))) = omega arith
in_order-small (suc (suc (suc (suc (suc (suc (suc i))))))) = omega arith

in_order-IsFull : IsFull in_order
in_order-IsFull = record { seven = refl; small = in_order-small; once = λ v p. ground arith }

fill_bag_lem :
    (xs : List ℕ) (r : Random) → r.bag ≡ xs → length xs ≡ 7 → (fill_bag 7 0 r).bag ≡ in_order
unfolding fill_bag
fill_bag_lem (a ∷ b ∷ c ∷ d ∷ e ∷ f ∷ g ∷ []) r h n = rw h
fill_bag_lem xs r h n = absurd (omega arith)

-- From any bag of seven bytes and any generator, the shuffle leaves a full bag.
pub shuffle_bag-IsDealt : (r : Random) → length r.bag ≡ 7 → IsDealt (shuffle_bag r)
unfolding shuffle_bag
shuffle_bag-IsDealt r h = record { full = mixed; within = omega arith }
  where
    filled : IsFull (fill_bag 7 0 r).bag
    filled = rw (fill_bag_lem r.bag r refl h) in_order-IsFull

    mixed : IsFull (shuffle_bag r).bag
    mixed = shuffle_round-IsFull 1 _ (omega arith) (
        shuffle_round-IsFull 2 _ (omega arith) (
          shuffle_round-IsFull 3 _ (omega arith) (
            shuffle_round-IsFull 4 _ (omega arith) (
              shuffle_round-IsFull 5 _ (omega arith)
                (shuffle_round-IsFull 6 _ (omega arith) filled)))))

-- Once the bag is dealt, `shape_random` returns one of the seven shapes and keeps it so.
pub shape_random-IsDealt :
    (r : Random) → IsDealt r → ((shape_random r).0 < 7) × IsDealt (shape_random r).1
unfolding shape_random
shape_random-IsDealt r h = elim (Bool-cases (leb 7 r.bag_pos)) [
  | inl e ↦
      let h' = shuffle_bag-IsDealt r h.full.seven in
      rw e (h'.full.small 0, record { full = h'.full; within = omega arith })
  | inr e ↦ rw e (h.full.small r.bag_pos, record { full = h.full; within = ground arith })
]

-- The shapes that `n` calls of `shape_random` return, and the statics after them.
pub deal : ℕ → Random → List ℕ × Random
deal zero r = ([], r)
deal (suc n) r =
    let (shape, r') = shape_random r in let (shapes, r'') = deal n r' in (shape ∷ shapes, r'')

deal_full :
    (xs : List ℕ) (r : Random)
    → r.bag ≡ xs
    → length xs ≡ 7
    → r.bag_pos ≡ 0
    → ((deal 7 r).0 ≡ xs) × ((deal 7 r).1.bag_pos ≡ 7)
unfolding deal shape_random
deal_full (a ∷ b ∷ c ∷ d ∷ e ∷ f ∷ g ∷ []) r h n p = rw (h, p) (refl, refl)
deal_full xs r h n p = absurd (omega arith)

deal-IsDealt : (n : ℕ) (r : Random) → IsDealt r → IsDealt (deal n r).1
unfolding deal
deal-IsDealt zero r h = h
deal-IsDealt (suc n) r h = deal-IsDealt n (shape_random r).1 (shape_random-IsDealt r h).1

-- An empty bag is shuffled first.
shape_random_refills : (r : Random) → r.bag_pos ≡ 7 → shape_random r ≡ shape_random (shuffle_bag r)
unfolding shape_random
shape_random_refills r e = rw e

deal_refills : (r : Random) → r.bag_pos ≡ 7 → deal 7 r ≡ deal 7 (shuffle_bag r)
unfolding deal
deal_refills r e = rw (shape_random_refills r e)

-- From a dealt bag at the start of a round, whether it has just been shuffled or is used up, the
-- next seven calls of `shape_random` return each of the seven shapes exactly once, and the bag is
-- dealt and used up again after them.
pub deal-IsFull :
    (r : Random)
    → IsDealt r
    → (r.bag_pos ≡ 0) ⊎ (r.bag_pos ≡ 7)
    → IsFull (deal 7 r).0 × IsDealt (deal 7 r).1 × ((deal 7 r).1.bag_pos ≡ 7)
deal-IsFull r h (inl p) =
    let (same, ends) = deal_full r.bag r refl h.full.seven p in
    (rw same h.full, deal-IsDealt 7 r h, ends)
deal-IsFull r h (inr p) =
    let h' = shuffle_bag-IsDealt r h.full.seven in
    let (same, ends) =
      deal_full (shuffle_bag r).bag (shuffle_bag r) refl h'.full.seven
        (unfold shuffle_bag in refl) in
    rw (deal_refills r p) (rw same h'.full, deal-IsDealt 7 (shuffle_bag r) h', ends)
