-- ===== src/Diloco/Fragments/Partition.antt =====
-- The ranges that `_fragment_bounds` cuts.
use panofabric_engine.Prelude.{
  ℕ, ◌+◌, ◌-◌, ◌≤◌, ◌<◌, ◌≡◌, refl, ◌⊎◌, inl, inr, List, [], ◌∷◌, ◌++◌, arith, ltb, ltb→lt,
  Bool-cases, if◌then◌else◌, length, sum, length-append,
}
use panofabric_engine.Prelude.Result.{ok, err, value_error}
use panofabric_engine.Diloco.Fragments.{Range, cuts, cut_loop, fragment_bounds}

-- Non-empty ranges, each beginning where the one before it ends, from `a` to `b`.
abbrev pub IsChain : ℕ → List Range → ℕ → Type 0
IsChain a [] b = a ≡ b
IsChain a ((lo, hi) ∷ rest) b = (lo ≡ a) × (lo < hi) × IsChain hi rest b

pub IsChain-snoc :
    (a b c : ℕ) (rs : List Range) → IsChain a rs b → b < c → IsChain a (rs ++ (b, c) ∷ []) c
IsChain-snoc a b c [] h l = ground arith
IsChain-snoc a b c ((lo, hi) ∷ rest) h l = (h.0, h.1, IsChain-snoc hi b c rest h.2 l)

module _ (num_fragments total n_params : ℕ) where
  -- What holds at the head of the loop: enough parameters are left for the fragments still due.
  record IsFeasible (i start : ℕ) (bounds : List Range) : Type 0 where
    chain : IsChain 0 bounds start
    due : length bounds + 1 ≤ num_fragments
    reached : start ≤ i
    room :
        (num_fragments - length bounds - 1 < n_params - i)
        ⊎ ((num_fragments - length bounds - 1 ≡ 0) × (start < i))

  abbrev next_start : ℕ → ℕ → ℕ → List Range → ℕ
  next_start i start acc bounds =
      if cuts num_fragments total n_params i acc bounds then i + 1 else start

  abbrev next_bounds : ℕ → ℕ → ℕ → List Range → List Range
  next_bounds i start acc bounds =
      if cuts num_fragments total n_params i acc bounds
      then bounds ++ (start, i + 1) ∷ []
      else bounds

  IsFeasible-next :
      (i start acc : ℕ) (bounds : List Range)
      → i < n_params
      → IsFeasible i start bounds
      → IsFeasible (i + 1) (next_start i start acc bounds) (next_bounds i start acc bounds)
  IsFeasible-next i start acc bounds l f =
      elim (Bool-cases (cuts num_fragments total n_params i acc bounds)) [
        | inl e ↦ rw e (record {
          chain = IsChain-snoc 0 start _ bounds f.chain (ground arith);
          due = ground (arith, length-append bounds ((start, i + 1) ∷ []));
          reached = ground arith;
          room = ground (arith, length-append bounds ((start, i + 1) ∷ []));
        })
        | inr e ↦
            rw e
              (record { chain = f.chain; due = f.due; reached = ground arith; room = ground arith })
      ]

  IsFeasible-start : 1 ≤ num_fragments → num_fragments ≤ n_params → IsFeasible 0 0 []
  IsFeasible-start h k = record {
    chain = refl;
    due = h;
    reached = omega arith;
    room = ground arith;
  }

  cut_loop_lem :
      (i start acc : ℕ) (bounds : List Range) (rest : List ℕ)
      → i + length rest ≡ n_params
      → IsFeasible i start bounds
      → IsChain 0 (cut_loop num_fragments total n_params i start acc bounds rest) n_params
        × (length (cut_loop num_fragments total n_params i start acc bounds rest) ≡ num_fragments)
  unfolding cut_loop
  cut_loop_lem i start acc bounds [] e f = (
    IsChain-snoc 0 start _ bounds f.chain (ground arith),
    ground (arith, length-append bounds ((start, n_params) ∷ [])),
  )
  cut_loop_lem i start acc bounds (n ∷ rest) e f =
      cut_loop_lem (i + 1) (next_start i start (acc + n) bounds) (acc + n)
        (next_bounds i start (acc + n) bounds) rest (omega arith)
        (IsFeasible-next i start (acc + n) bounds (omega arith) f)

-- For 1 ≤ num_fragments ≤ the number of parameters, `_fragment_bounds` returns exactly
-- `num_fragments` non-empty adjacent ranges that cover all parameters; for any other count it
-- raises ValueError.
pub fragment_bounds-IsChain :
    (numels : List ℕ) (num_fragments : ℕ)
    → ((1 ≤ num_fragments)
        × (num_fragments ≤ length numels)
        × ((bounds : List Range) × (fragment_bounds numels num_fragments ≡ ok bounds)
            × IsChain 0 bounds (length numels)
            × (length bounds ≡ num_fragments)))
      ⊎ (((num_fragments < 1) ⊎ (length numels < num_fragments))
          × (fragment_bounds numels num_fragments ≡ err value_error))
unfolding fragment_bounds
fragment_bounds-IsChain numels num_fragments = elim (Bool-cases (ltb num_fragments 1)) [
  | inl low ↦ inr (inl (ltb→lt _ _ low), rw low)
  | inr low ↦ elim (Bool-cases (ltb (length numels) num_fragments)) [
    | inl high ↦ inr (inr (ltb→lt _ _ high), rw (low, high))
    | inr high ↦
        let cut =
          cut_loop_lem num_fragments (sum numels) (length numels) 0 0 0 [] numels (omega arith) (
            IsFeasible-start num_fragments (sum numels) (length numels) (ground arith)
              (ground arith)) in
        inl (ground arith, ground arith, (_, rw (low, high) refl, cut.0, cut.1))
  ]
]
