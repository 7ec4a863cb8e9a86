-- ===== src/Sharder/Plan.antt =====
-- The ranges that `plan_ranges` builds, and its errors; its final assert is the end of the chain.
use panofabric_engine.Prelude.{
  ℕ, suc, ◌+◌, ◌-◌, ◌≤◌, ◌<◌, ◌≡◌, refl, ap, subst, ◌∙◌, ◌⊎◌, inl, inr, List, [], ◌∷◌, arith,
  Bool-cases, ltb, ltb→lt, length, length-set, get_or, set, sum, ◌==◌,
}
use panofabric_engine.Prelude.Result.{ok, err, value_error}
use panofabric_engine.Diloco.Fragments.Partition.{IsChain}
use panofabric_engine.Sharder.{discounted, apportion, steal_all, ranges_from, plan_ranges}
use panofabric_engine.Sharder.Shares.{apportion-sum}
use panofabric_engine.Sharder.Steal.{steal_all-fills}

ranges_from-IsChain :
    (lo : ℕ) (counts : List ℕ)
    → ((j : ℕ) → j < length counts → 1 ≤ get_or counts j 0)
    → IsChain lo (ranges_from lo counts) (lo + sum counts)
      × (length (ranges_from lo counts) ≡ length counts)
unfolding ranges_from
ranges_from-IsChain lo [] h = (omega arith, refl)
ranges_from-IsChain lo (c ∷ counts) h =
    let (chain, size) = ranges_from-IsChain (lo + c) counts (λ j l. h (suc j) (omega arith)) in
    let here = h 0 (omega arith) in
    (
      (
        refl,
        omega (arith, here),
        subst (IsChain (lo + c) (ranges_from (lo + c) counts)) (omega arith) chain,
      ),
      ap suc size,
    )

-- With at least two stages, a layer for each, and memory left beside the embeddings and the head,
-- `plan_ranges` returns one non-empty range for each stage, and the ranges cover all layers in order without
-- a gap; otherwise it raises ValueError.
pub plan_ranges-IsChain :
    (num_layers : ℕ) (memory : List ℕ) (embed_bytes head_bytes : ℕ)
    → ((2 ≤ length memory)
        × (length memory ≤ num_layers)
        × (0 < sum (discounted memory embed_bytes head_bytes))
        × ((ranges : List (ℕ × ℕ)) × (plan_ranges num_layers memory embed_bytes head_bytes
              ≡ ok ranges)
            × IsChain 0 ranges num_layers
            × (length ranges ≡ length memory)))
      ⊎ (((length memory < 2)
            ⊎ (num_layers < length memory)
            ⊎ (sum (discounted memory embed_bytes head_bytes) ≡ 0))
          × (plan_ranges num_layers memory embed_bytes head_bytes ≡ err value_error))
unfolding plan_ranges
plan_ranges-IsChain num_layers memory embed_bytes head_bytes =
    elim (Bool-cases (ltb (length memory) 2)) [
      | inl few ↦ inr (inl (ltb→lt _ _ few), rw few)
      | inr few ↦ elim (Bool-cases (ltb num_layers (length memory))) [
        | inl thin ↦ inr (inr (inl (ltb→lt _ _ thin)), rw (few, thin))
        | inr thin ↦ elim (Bool-cases (sum (discounted memory embed_bytes head_bytes) == 0)) [
          | inl empty ↦ inr (inr (inr (ground arith)), rw (few, thin, empty))
          | inr some_left ↦
              let p = planned (ground arith) (ground arith) (ground arith) in
              inl (
                ground arith,
                ground arith,
                ground arith,
                (_, rw (few, thin, some_left) refl, p.0, p.1),
              )
        ]
      ]
    ]
  where
    planned :
        2 ≤ length memory
        → length memory ≤ num_layers
        → 0 < sum (discounted memory embed_bytes head_bytes)
        → (let budgets = discounted memory embed_bytes head_bytes in
            let ranges =
              ranges_from 0
                (steal_all num_layers 0 (length budgets) (apportion num_layers budgets)) in
            IsChain 0 ranges num_layers × (length ranges ≡ length memory))
    planned two enough left =
        let budgets = discounted memory embed_bytes head_bytes in
        let first = set memory 0 (get_or memory 0 0 - embed_bytes) in
        let last = length memory - 1 in
        let size : length budgets ≡ length memory =
          length-set first last (get_or first last 0 - head_bytes)
          ∙ length-set memory 0 (get_or memory 0 0 - embed_bytes) in
        let (total, count) = apportion-sum num_layers budgets left in
        let (len, kept, filled) =
          steal_all-fills num_layers 0 (length budgets) (apportion num_layers budgets)
            (omega (arith, two, enough)) (omega (arith, count))
            (omega (arith, count, total, size, enough)) (λ j l. absurd (omega arith)) in
        let (chain, n) =
          ranges_from-IsChain 0
            (steal_all num_layers 0 (length budgets) (apportion num_layers budgets))
            (λ j l. filled j (omega (arith, len, l))) in
        (subst (IsChain 0 _) (omega (arith, kept, total)) chain, n ∙ len ∙ count ∙ size)
