-- ===== src/Diloco/Fragments.antt =====
-- The fragment layout: `_fragment_bounds`, the slices of the parameter names and their sizes.
pub mod Partition
pub mod Layout
use panofabric_engine.Prelude.{
  ℕ, suc, ◌+◌, ◌-◌, ◌*◌, ◌||◌, Bool, false, List, [], ◌∷◌, ◌++◌, map, leb, ltb, ◌==◌, if◌then◌else◌,
  length, sum, take, drop,
}
use panofabric_engine.Prelude.Result.{Result, ok, err, value_error}

-- A half-open range of parameter indices.
abbrev pub Range : Type 0
Range = ℕ × ℕ

module _ (num_fragments total n_params : ℕ) where
  -- Whether the fragment is cut behind parameter `i`; `acc` includes its size.
  -- `num_fragments - length bounds - 1` is never negative in the source either: see Partition.
  abbrev pub cuts : ℕ → ℕ → List Range → Bool
  cuts i acc bounds =
      let remaining_frags = num_fragments - length bounds - 1 in
      let remaining_params = n_params - (i + 1) in
      if remaining_frags == 0
      then false
      else (leb ((length bounds + 1) * total) (acc * num_fragments)
          || remaining_params == remaining_frags)

  -- The `for` loop over the sizes, with its variables `i`, `start`, `acc` and `bounds`.
  unfoldable pub cut_loop : ℕ → ℕ → ℕ → List Range → List ℕ → List Range
  cut_loop i start acc bounds [] = bounds ++ (start, n_params) ∷ []
  cut_loop i start acc bounds (n ∷ rest) =
      let cut = cuts i (acc + n) bounds in
      cut_loop (i + 1) (if cut then i + 1 else start) (acc + n)
        (if cut then bounds ++ (start, i + 1) ∷ [] else bounds) rest

unfoldable pub fragment_bounds : List ℕ → ℕ → Result (List Range)
unfolding cut_loop
fragment_bounds numels num_fragments =
    let n_params = length numels in
    if ltb num_fragments 1
    then err value_error
    else if ltb n_params num_fragments
    then err value_error
    else ok (cut_loop num_fragments (sum numels) n_params 0 0 0 [] numels)

-- `xs[a:b]`
abbrev pub slice {ℓ} : {A : Type ℓ} → List A → Range → List A
slice xs (a, b) = drop a (take b xs)

-- `_frag_numels`
unfoldable pub frag_numels : List ℕ → List Range → List ℕ
frag_numels numels bounds = map (λ r. sum (slice numels r)) bounds
