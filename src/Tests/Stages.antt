-- ===== src/Tests/Stages.antt =====
-- Ten layers on three stages, the last of which is left with almost nothing.
use panofabric_engine.Prelude.{ℕ, ◌≤◌, ◌<◌, ◌≡◌, ◌⊎◌, List, [], ◌∷◌, length, sum}
use panofabric_engine.Prelude.Result.{ok, err, value_error}
use panofabric_engine.Diloco.Fragments.Partition.{IsChain}
use panofabric_engine.Sharder.{discounted, plan_ranges}
use panofabric_engine.Sharder.Plan.{plan_ranges-IsChain}

abbrev memory : List ℕ
memory = 24 ∷ 16 ∷ 9 ∷ []

plan_ranges-IsChain_example :
    ((2 ≤ length memory)
      × (length memory ≤ 10)
      × (0 < sum (discounted memory 4 8))
      × ((ranges : List (ℕ × ℕ)) × (plan_ranges 10 memory 4 8 ≡ ok ranges)
          × IsChain 0 ranges 10
          × (length ranges ≡ 3)))
    ⊎ (((length memory < 2) ⊎ (10 < length memory) ⊎ (sum (discounted memory 4 8) ≡ 0))
        × (plan_ranges 10 memory 4 8 ≡ err value_error))
plan_ranges-IsChain_example = plan_ranges-IsChain 10 memory 4 8
