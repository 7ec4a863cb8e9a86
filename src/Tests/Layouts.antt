-- ===== src/Tests/Layouts.antt =====
-- Fragment layouts and recommendations.
use panofabric_engine.Prelude.{ℕ, ◌≤◌, ◌<◌, ◌≡◌, ◌⊎◌, List, [], ◌∷◌, length, nat_eq}
use panofabric_engine.Prelude.Result.{ok, err, value_error}
use panofabric_engine.Diloco.Fragments.{Range, fragment_bounds}
use panofabric_engine.Diloco.Fragments.Partition.{IsChain, fragment_bounds-IsChain}

abbrev sizes : List ℕ
sizes = 10 ∷ 1 ∷ 1 ∷ 8 ∷ []

fragment_bounds-IsChain_example :
    ((1 ≤ 2)
      × (2 ≤ length sizes)
      × ((bounds : List Range) × (fragment_bounds sizes 2 ≡ ok bounds)
          × IsChain 0 bounds 4
          × (length bounds ≡ 2)))
    ⊎ (((2 < 1) ⊎ (length sizes < 2)) × (fragment_bounds sizes 2 ≡ err value_error))
fragment_bounds-IsChain_example = fragment_bounds-IsChain sizes 2
