-- ===== src/Sharder/Steal.antt =====
-- The loop that gives every stage a layer.
use panofabric_engine.Prelude.{
  ℕ, zero, suc, ◌+◌, ◌-◌, ◌≤◌, ◌<◌, ◌≡◌, refl, sym, ap, subst, ◌∙◌, inl, inr, List, [], ◌∷◌, arith,
  Bool-cases, leb, leb→le, length, get_or, get_or-set, set, length-set, sum, ◌==◌, nat_eq,
}
use panofabric_engine.Prelude.Arg.{arg_max, arg_max-lt, le-arg_max}
use panofabric_engine.Sharder.{steal, steal_all}
use panofabric_engine.Sharder.Shares.{sum-set}

-- Counts of at most one each, one of them 0, add up to less than their number.
sum-small :
    (xs : List ℕ) (i : ℕ) → ((j : ℕ) → j < length xs → get_or xs j 0 ≤ 1) → sum xs ≤ length xs
sum-small [] i small = omega arith
sum-small (x ∷ xs) i small =
    omega (arith, small 0 (omega arith), sum-small xs i (λ j h. small (suc j) (omega arith)))

sum-small_zero :
    (xs : List ℕ) (i : ℕ)
    → i < length xs
    → get_or xs i 0 ≡ 0
    → ((j : ℕ) → j < length xs → get_or xs j 0 ≤ 1)
    → sum xs < length xs
sum-small_zero [] i h e small = absurd (omega arith)
sum-small_zero (x ∷ xs) zero h e small =
    omega (arith, sum-small xs 0 (λ j h. small (suc j) (omega arith)))
sum-small_zero (x ∷ xs) (suc i) h e small = omega (
  arith,
  small 0 (omega arith),
  sum-small_zero xs i (omega arith) e (λ j h. small (suc j) (omega arith)),
)

-- With at least as many layers as stages and an empty stage, the fattest stage has two or more.
donor-rich :
    (xs : List ℕ) (i : ℕ)
    → i < length xs
    → get_or xs i 0 ≡ 0
    → length xs ≤ sum xs
    → 2 ≤ get_or xs (arg_max xs) 0
donor-rich xs i h e enough = elim (Bool-cases (leb 2 (get_or xs (arg_max xs) 0))) [
  | inl b ↦ leb→le 2 _ b
  | inr b ↦
      let top : get_or xs (arg_max xs) 0 ≤ 1 = ground arith in
      absurd (omega (arith, sum-small_zero xs i h e (λ j l. omega (arith, le-arg_max xs j l, top))))
]

-- One run of the inner loop: nothing is lost, stage `i` has a layer, and no other stage becomes empty.
record Stolen (i : ℕ) (xs ys : List ℕ) : Type 0 where
  pub size : length ys ≡ length xs
  pub total : sum ys ≡ sum xs
  pub filled : 1 ≤ get_or ys i 0
  pub others : (j : ℕ) → 1 ≤ get_or xs j 0 → 1 ≤ get_or ys j 0

steal-full : (fuel i : ℕ) (xs : List ℕ) → 1 ≤ get_or xs i 0 → steal fuel i xs ≡ xs
unfolding steal
steal-full zero i xs h = refl
steal-full (suc fuel) i xs h = ground arith

-- What one pass makes of the counts.
moved : ℕ → List ℕ → List ℕ
unfolding arg_max
moved i xs =
    let less = set xs (arg_max xs) (get_or xs (arg_max xs) 0 - 1) in
    set less i (get_or less i 0 + 1)

moved-Stolen :
    (i : ℕ) (xs : List ℕ) → i < length xs → 2 ≤ get_or xs (arg_max xs) 0 → Stolen i xs (moved i xs)
unfolding moved
moved-Stolen i xs h rich =
    let d = arg_max xs in
    let v = get_or xs d 0 - 1 in
    let less = set xs d v in
    let w = get_or less i 0 + 1 in
    let inside : d < length xs = arg_max-lt xs (omega (arith, h)) in
    let same = length-set xs d v in
    let inside' : i < length less = omega (arith, same, h) in
    record {
      size = length-set less i w ∙ same;
      total = omega (arith, sum-set xs d v inside, sum-set less i w inside', rich);
      filled = ground (arith, get_or-set less i i w 0 inside');
      others = λ j k.
          ground (arith, get_or-set less i j w 0 inside', get_or-set xs d j v 0 inside, rich);
    }

-- The loop ends after one pass.
steal-once :
    (fuel i : ℕ) (xs : List ℕ)
    → get_or xs i 0 ≡ 0
    → 1 ≤ get_or (moved i xs) i 0
    → steal (suc fuel) i xs ≡ moved i xs
unfolding steal moved
steal-once fuel i xs e f = rw (e, steal) (steal-full fuel i (moved i xs) f)

steal-Stolen :
    (fuel i : ℕ) (xs : List ℕ)
    → 1 ≤ fuel
    → i < length xs
    → length xs ≤ sum xs
    → Stolen i xs (steal fuel i xs)
unfolding steal
steal-Stolen zero i xs f h enough = absurd (omega arith)
steal-Stolen (suc fuel) i xs f h enough = elim (Bool-cases (get_or xs i 0 == 0)) [
  | inl e ↦
      let stolen = moved-Stolen i xs h (donor-rich xs i h (ground arith) enough) in
      subst (Stolen i xs) (sym (steal-once fuel i xs (ground arith) stolen.filled)) stolen
  | inr e ↦
      rw (e, steal) (record { size = refl; total = refl; filled = ground arith; others = λ j k. k })
]

-- The loop over the stages: all layers stay, and every stage of the ones passed has a layer.
pub steal_all-fills :
    (fuel i n : ℕ) (xs : List ℕ)
    → 1 ≤ fuel
    → i + n ≡ length xs
    → length xs ≤ sum xs
    → ((j : ℕ) → j < i → 1 ≤ get_or xs j 0)
    → (length (steal_all fuel i n xs) ≡ length xs)
      × (sum (steal_all fuel i n xs) ≡ sum xs)
      × ((j : ℕ) → j < length xs → 1 ≤ get_or (steal_all fuel i n xs) j 0)
unfolding steal_all
steal_all-fills fuel i zero xs f e enough done = (refl, refl, λ j l. done j (omega (arith, e)))
steal_all-fills fuel i (suc n) xs f e enough done =
    let s = steal-Stolen fuel i xs f (omega (arith, e)) enough in
    let (len, total, filled) =
      steal_all-fills fuel (i + 1) n (steal fuel i xs) f (omega (arith, e, s.size))
        (omega (arith, s.size, s.total, enough)) (λ j l. step j l s) in
    (len ∙ s.size, total ∙ s.total, λ j l. filled j (omega (arith, s.size, l)))
  where
    step : (j : ℕ) → j < i + 1 → Stolen i xs (steal fuel i xs) → 1 ≤ get_or (steal fuel i xs) j 0
    step j l s = elim (Bool-cases (j == i)) [
      | inl same ↦
          ground
            (arith, s.filled, ap (λ k. get_or (steal fuel i xs) k 0) ((nat_eq.beq_iff j i).0 same))
      | inr other ↦ s.others j (done j (ground arith))
    ]
