-- ===== src/Sharder.antt =====
-- panoengine/serve/sharder.py: `plan_ranges`, the layers of each pipeline stage. Memory is in whole
-- bytes and the shares are exact fractions; the source has floats there.
pub mod Shares
pub mod Steal
pub mod Plan
use panofabric_engine.Prelude.{
  ℕ, zero, suc, ◌+◌, ◌-◌, ◌*◌, ◌/◌, ◌%◌, List, [], ◌∷◌, map, ltb, ◌==◌, if◌then◌else◌, length,
  get_or, set, take, sum, range_from,
}
use panofabric_engine.Prelude.Arg.{arg_max}
use panofabric_engine.Prelude.Sort.{sort_desc}
use panofabric_engine.Prelude.Result.{Result, ok, err, value_error}

-- The budgets without the embeddings of the first stage and the head of the last.
abbrev pub discounted : List ℕ → ℕ → ℕ → List ℕ
discounted memory embed_bytes head_bytes =
    let first = set memory 0 (get_or memory 0 0 - embed_bytes) in
    let last = length memory - 1 in set first last (get_or first last 0 - head_bytes)

-- `int(x)` of the exact share, and its fractional part over the same denominator.
abbrev pub whole : ℕ → ℕ → ℕ → ℕ
whole num_layers total b = num_layers * b / total

abbrev pub fraction : ℕ → ℕ → ℕ → ℕ
fraction num_layers total b = num_layers * b % total

-- `for i in chosen: counts[i] += 1`
pub bump : List ℕ → List ℕ → List ℕ
bump counts [] = counts
bump counts (i ∷ chosen) = bump (set counts i (get_or counts i 0 + 1)) chosen

-- The whole shares with the remainder on the largest fractional parts.
pub apportion : ℕ → List ℕ → List ℕ
unfolding bump sort_desc
apportion num_layers budgets =
    let total = sum budgets in
    let counts = map (whole num_layers total) budgets in
    let order =
      sort_desc (λ i. fraction num_layers total (get_or budgets i 0))
        (range_from 0 (length budgets)) in
    bump counts (take (num_layers - sum counts) order)

-- `while counts[i] == 0`, on fuel: see Steal for the one pass that it takes.
pub steal : ℕ → ℕ → List ℕ → List ℕ
unfolding arg_max
steal zero i counts = counts
steal (suc fuel) i counts =
    let donor = arg_max counts in
    let less = set counts donor (get_or counts donor 0 - 1) in
    let rest = steal fuel i (set less i (get_or less i 0 + 1)) in
    if get_or counts i 0 == 0 then rest else counts

-- The `for` loop over `n` stages from `i` on.
pub steal_all : ℕ → ℕ → ℕ → List ℕ → List ℕ
unfolding steal
steal_all fuel i zero counts = counts
steal_all fuel i (suc n) counts = steal_all fuel (i + 1) n (steal fuel i counts)

pub ranges_from : ℕ → List ℕ → List (ℕ × ℕ)
ranges_from lo [] = []
ranges_from lo (c ∷ counts) = (lo, lo + c) ∷ ranges_from (lo + c) counts

pub plan_ranges : ℕ → List ℕ → ℕ → ℕ → Result (List (ℕ × ℕ))
unfolding apportion steal_all ranges_from
plan_ranges num_layers memory embed_bytes head_bytes =
    let budgets = discounted memory embed_bytes head_bytes in
    if ltb (length memory) 2
    then err value_error
    else if ltb num_layers (length memory)
    then err value_error
    else if sum budgets == 0
    then err value_error
    else ok (ranges_from 0 (steal_all num_layers 0 (length budgets) (apportion num_layers budgets)))
