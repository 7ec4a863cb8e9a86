-- ===== src/Relay/Sharding/Balance.antt =====
-- The groups of `_partition_names` and their sizes.
use mathlib.Core.List.{Perm, perm_middle}
use mathlib.Core.List.Perm
use panofabric_engine.Prelude.{
  ℕ, zero, suc, ◌+◌, ◌≤◌, ◌<◌, ◌≡◌, refl, sym, ap, ◌∙◌, String, List, [], ◌∷◌, ◌++◌, map,
  append-nil, append_assoc, arith, length, sum, get_or, set, replicate, concat, All, length-set,
  get_or-set, get_or-map, map-set, length-replicate, get_or-replicate,
}
use panofabric_engine.Prelude.Dict.{Dict, keys}
use panofabric_engine.Prelude.Sort.{sort_desc, sort_desc-perm, All-sort_desc}
use panofabric_engine.Prelude.Arg.{arg_min, arg_min-lt, arg_min-le}
use panofabric_engine.Relay.Sharding.{Codec, place, size_of, partition_names}

module _ {ℓ} {A : Type ℓ} where
  -- Adding an element to bin `i` adds it to the contents of all bins.
  concat-set-perm :
      (bins : List (List A)) (i : ℕ) (a : A)
      → i < length bins
      → Perm (concat (set bins i (get_or bins i [] ++ a ∷ []))) (a ∷ concat bins)
  concat-set-perm [] i a h = elim h [ ]
  concat-set-perm (b ∷ bins) zero a h =
      rw (append_assoc b (a ∷ []) (concat bins)) (perm_middle b (concat bins))
  concat-set-perm (b ∷ bins) (suc i) a h =
      Perm.trans (Perm.append_left b (concat-set-perm bins i a (omega arith)))
        (perm_middle b (concat bins))

  concat-replicate : (n : ℕ) → concat (replicate {A = List A} n []) ≡ []
  concat-replicate zero = refl
  concat-replicate (suc n) = concat-replicate n

-- The bytes of a group of names.
abbrev pub group_bytes : (String → ℕ) → List String → ℕ
group_bytes size names = sum (map size names)

-- No bin is ahead of another by more than `m`.
abbrev pub IsBalanced : ℕ → List ℕ → Type 0
IsBalanced m xs = (i j : ℕ) → i < length xs → j < length xs → get_or xs i 0 ≤ get_or xs j 0 + m

module _ (size : String → ℕ) where
  group_bytes-snoc :
      (names : List String) (name : String)
      → group_bytes size (names ++ name ∷ []) ≡ group_bytes size names + size name
  group_bytes-snoc [] name = omega arith
  group_bytes-snoc (n ∷ names) name = omega (arith, group_bytes-snoc names name)

  place-perm :
      (names : List String) (bins : List (List String)) (bin_bytes : List ℕ)
      → length bins ≡ length bin_bytes
      → 0 < length bins
      → Perm (concat (place size names bins bin_bytes).0) (names ++ concat bins)
        × (length (place size names bins bin_bytes).0 ≡ length bins)
  unfolding place
  place-perm [] bins bin_bytes e h = (Perm.refl (concat bins), refl)
  place-perm (name ∷ names) bins bin_bytes e h =
      let idx = arg_min bin_bytes in
      let idx_lt : idx < length bins = omega (arith, arg_min-lt bin_bytes) in
      let bins' = set bins idx (get_or bins idx [] ++ name ∷ []) in
      let bin_bytes' = set bin_bytes idx (get_or bin_bytes idx 0 + size name) in
      let same : length bins' ≡ length bins = length-set bins idx _ in
      let same_bytes : length bin_bytes' ≡ length bin_bytes = length-set bin_bytes idx _ in
      let later = place-perm names bins' bin_bytes' (omega arith) (omega arith) in
      (
        Perm.trans later.0 (
            Perm.trans (Perm.append_left names (concat-set-perm bins idx name idx_lt))
              (perm_middle names (concat bins))),
        later.1 ∙ same,
      )

  place-bytes :
      (names : List String) (bins : List (List String)) (bin_bytes : List ℕ)
      → bin_bytes ≡ map (group_bytes size) bins
      → (place size names bins bin_bytes).1
        ≡ map (group_bytes size) (place size names bins bin_bytes).0
  unfolding place
  place-bytes [] bins bin_bytes e = e
  place-bytes (name ∷ names) bins bin_bytes e =
      let idx = arg_min bin_bytes in
      place-bytes names _ _ (
        rw
          (
            map-set (group_bytes size) bins idx,
            group_bytes-snoc (get_or bins idx []) name,
            ← get_or-map (group_bytes size) bins idx [],
            ← e,
          )
          refl)

  bytes-replicate : (n : ℕ) → replicate n 0 ≡ map (group_bytes size) (replicate n [])
  bytes-replicate zero = refl
  bytes-replicate (suc n) = ap (◌∷◌ 0) (bytes-replicate n)

  place-IsBalanced :
      (m : ℕ) (names : List String) (bins : List (List String)) (bin_bytes : List ℕ)
      → 0 < length bin_bytes
      → All (λ n. size n ≤ m) names
      → IsBalanced m bin_bytes
      → IsBalanced m (place size names bins bin_bytes).1
  unfolding place
  place-IsBalanced m [] bins bin_bytes h a b = b
  place-IsBalanced m (name ∷ names) bins bin_bytes h a b =
      let idx = arg_min bin_bytes in
      let v = get_or bin_bytes idx 0 + size name in
      place-IsBalanced m names _ (set bin_bytes idx v) (omega (arith, length-set bin_bytes idx v))
        a.1
        λ i j hi hj.
          let idx_lt = arg_min-lt bin_bytes h in
          let li : i < length bin_bytes = omega (arith, length-set bin_bytes idx v) in
          let lj : j < length bin_bytes = omega (arith, length-set bin_bytes idx v) in
          ground (
            arith,
            get_or-set bin_bytes idx i v 0 idx_lt,
            get_or-set bin_bytes idx j v 0 idx_lt,
            arg_min-le bin_bytes i li,
            arg_min-le bin_bytes j lj,
            b i j li lj,
            b i idx li idx_lt,
          )

module _ {Tensor Bytes : Type 0} (codec : Codec Tensor Bytes) (state_dict : Dict String Tensor)
    (num_shards : ℕ) (some_shards : 1 ≤ num_shards) where
  -- For num_shards ≥ 1, `_partition_names` makes exactly `num_shards` groups, and the groups put
  -- together hold each parameter name exactly as often as the state dict.
  pub partition_names-perm :
      Perm (concat (partition_names codec state_dict num_shards)) (keys state_dict)
      × (length (partition_names codec state_dict num_shards) ≡ num_shards)
  unfolding partition_names
  partition_names-perm =
      let size = size_of codec state_dict in
      let names = sort_desc size (keys state_dict) in
      let bins_length : length (replicate {A = List String} num_shards []) ≡ num_shards =
        length-replicate num_shards [] in
      let bytes_length : length (replicate {A = ℕ} num_shards 0) ≡ num_shards =
        length-replicate num_shards 0 in
      let placed =
        place-perm size names (replicate num_shards []) (replicate num_shards 0)
          (bins_length ∙ sym bytes_length) (omega arith) in
      (
        Perm.trans placed.0 (
            rw (concat-replicate {A = String} num_shards, append-nil names)
              (sort_desc-perm size (keys state_dict))),
        placed.1 ∙ bins_length,
      )

  -- For num_shards ≥ 1 and parameters of at most `m` bytes, the byte totals of any two groups
  -- that `_partition_names` makes differ by at most `m`.
  pub partition_names-IsBalanced :
      (m : ℕ)
      → All (λ name. size_of codec state_dict name ≤ m) (keys state_dict)
      → IsBalanced m (
          map
            (group_bytes (size_of codec state_dict))
            (partition_names codec state_dict num_shards))
  unfolding partition_names
  partition_names-IsBalanced m small =
      let size = size_of codec state_dict in
      let bins = replicate {A = List String} num_shards [] in
      let bin_bytes = replicate {A = ℕ} num_shards 0 in
      let names = sort_desc size (keys state_dict) in
      rw (← place-bytes size names bins bin_bytes (bytes-replicate size num_shards)) (
        place-IsBalanced size m names bins bin_bytes
          (omega (arith, length-replicate {A = ℕ} num_shards 0))
          (All-sort_desc size (λ n. size n ≤ m) (keys state_dict) small)
          (λ i j hi hj. omega (arith, get_or-replicate {A = ℕ} num_shards i 0)))
