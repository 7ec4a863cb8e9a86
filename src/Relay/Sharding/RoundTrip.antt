-- ===== src/Relay/Sharding/RoundTrip.antt =====
-- Sharding followed by reassembly.
use panofabric_engine.Prelude.{
  ℕ, suc, ◌+◌, ◌≤◌, ◌≡◌, refl, ap, ◌∙◌, sym, String, false, Option, none, some, List, [], ◌∷◌, ◌++◌,
  map, append_assoc, arith, if◌then◌else◌, string_eq, length, get_elem?, concat, length-append,
  Bool-cases, inl, inr, ◌⊎◌, subst,
}
use panofabric_engine.Prelude.Result.{ok}
use panofabric_engine.Prelude.Dict.{
  Dict, keys, lookup, insert, contains, Distinct, Within, Within-append, Within-refl,
  Within-contains, Within-subst, contains-append, contains-perm, contains-key, contains-lookup,
  lookup-insert, insert-Distinct, beq_refl,
}
use panofabric_engine.Relay.Sharding.{
  Codec, CheckpointManifest, select, save_groups, partition_names, shard_state_dict, build_manifest,
  verify_shard, update, merge_shards, reassemble_state_dict,
}
use panofabric_engine.Relay.Sharding.Balance.{partition_names-perm}

get_elem?-append_length {ℓ} :
    {A : Type ℓ} (xs : List A) (a : A) (ys : List A) → get_elem? (xs ++ a ∷ ys) (length xs) ≡ some a
get_elem?-append_length [] a ys = refl
get_elem?-append_length (x ∷ xs) a ys = get_elem?-append_length xs a ys

-- The first of two readings, where it has one.
abbrev or_else : {A : Type 0} → Option A → Option A → Option A
or_else none b = b
or_else (some a) b = some a

module _ {Tensor Bytes : Type 0} (codec : Codec Tensor Bytes) where
  lookup-update :
      (k : String) (merged d : Dict String Tensor)
      → Distinct (keys d)
      → lookup k (update codec merged d) ≡ or_else (lookup k d) (lookup k merged)
  unfolding update lookup
  lookup-update k merged [] h = refl
  lookup-update k merged ((name, t) ∷ d) h =
      lookup-update k (insert name t merged) d h.1
      ∙ ground (
        arith,
        lookup-insert name k t merged,
        string_eq.beq_iff name k,
        contains-lookup name d h.0,
      )

  -- What the comprehension gathers.
  record Selects (d : Dict String Tensor) (names : List String) (acc r : Dict String Tensor)
      : Type 0 where
    distinct : Distinct (keys r)
    reads : (k : String) → lookup k r ≡ (if contains k names then lookup k d else lookup k acc)

  select_lem :
      (d : Dict String Tensor) (names : List String) (acc : Dict String Tensor)
      → Within (keys d) names
      → Distinct (keys acc)
      → (r : Dict String Tensor) × (select codec d names acc ≡ ok r) × Selects d names acc r
  unfolding select contains
  select_lem d [] acc w h = (acc, refl, record { distinct = h; reads = λ k. refl })
  select_lem d (name ∷ names) acc w h =
      let (t, found) = contains-key name d w.0 in
      let (r, e, s) = select_lem d names (insert name t acc) w.1 (insert-Distinct name t acc h) in
      (
        r,
        rw (found, select) e,
        record {
          distinct = s.distinct;
          reads = λ k.
              ground
                (arith, s.reads k, lookup-insert name k t acc, string_eq.beq_iff name k, found);
        },
      )

  read_selected :
      (k : String) (d : Dict String Tensor) (names : List String)
      → Within (keys d) names
      → (contains k names ≡ false) ⊎ ((t : Tensor) × (lookup k d ≡ some t))
  read_selected k d names w = elim (Bool-cases (contains k names)) [
    | inl e ↦ inr (contains-key k d (Within-contains k (keys d) names w e))
    | inr e ↦ inl e
  ]

  module _ (load-save : (d : Dict String Tensor) → codec.load (codec.save d) ≡ ok d) where
    -- The shards of the groups, and what merging them under the right checksums gives.
    record Merges (d : Dict String Tensor) (groups : List (List String)) (shards : List Bytes)
        : Type 0 where
      count : length shards ≡ length groups
      merge :
          (before : List String) (manifest : CheckpointManifest) (merged : Dict String Tensor)
          → manifest.num_shards ≡ length before + length shards
          → manifest.shard_checksums ≡ before ++ map codec.sha256 shards
          → (r : Dict String Tensor) × (merge_shards codec (length before) shards manifest merged
              ≡ ok r)
            × ((k : String)
                → lookup k r ≡ (if contains k (concat groups) then lookup k d else lookup k merged))

    verify_shard_lem :
        (before : List String) (shard : Bytes) (rest : List String) (manifest : CheckpointManifest)
        → length before + 1 ≤ manifest.num_shards
        → manifest.shard_checksums ≡ before ++ codec.sha256 shard ∷ rest
        → verify_shard codec (length before) shard manifest ≡ ok tt
    unfolding verify_shard
    verify_shard_lem before shard rest manifest h e = ground (
      arith,
      ap (λ c. get_elem? c (length before)) e,
      get_elem?-append_length before (codec.sha256 shard) rest,
      beq_refl (codec.sha256 shard),
    )

    save_groups_lem :
        (d : Dict String Tensor) (groups : List (List String))
        → Within (keys d) (concat groups)
        → (shards : List Bytes) × (save_groups codec d groups ≡ ok shards) × Merges d groups shards
    unfolding save_groups merge_shards contains
    save_groups_lem d [] w = (
      [],
      refl,
      record { count = refl; merge = λ before manifest merged e f. (merged, refl, λ k. refl) },
    )
    save_groups_lem d (names ∷ groups) w =
        let (w_names, w_groups) = Within-append (keys d) names (concat groups) w in
        let (shard_sd, e, s) = select_lem d names [] w_names tt in
        let (shards, f, m) = save_groups_lem d groups w_groups in
        let shard = codec.save shard_sd in
        (
          shard ∷ shards,
          rw (e, f) refl,
          record {
            count = ap suc m.count;
            merge = λ before manifest merged num sums.
                let checked =
                  verify_shard_lem before shard (map codec.sha256 shards) manifest (omega arith)
                    sums in
                let (r, g, reads) =
                  m.merge (before ++ codec.sha256 shard ∷ []) manifest
                    (update codec merged shard_sd)
                    (omega (arith, length-append before (codec.sha256 shard ∷ [])))
                    (sums ∙ sym (append_assoc before _ _)) in
                (
                  r,
                  rw (checked, load-save shard_sd)
                      (subst
                        (λ n.
                          merge_shards codec n shards manifest (update codec merged shard_sd)
                          ≡ ok r)
                        (omega (arith, length-append before (codec.sha256 shard ∷ []))) g),
                  λ k. ground (
                    arith,
                    contains-append k names (concat groups),
                    lookup-update k merged shard_sd s.distinct,
                    s.reads k,
                    reads k,
                    read_selected k d names w_names,
                  ),
                );
          },
        )

    -- For num_shards ≥ 1, and if `torch.load` inverts `torch.save`, sharding a state dict succeeds,
    -- and reassembling the shards under their own manifest succeeds with a state dict that reads the
    -- same at every name.
    pub reassemble-shard :
        (d : Dict String Tensor) (num_shards version : ℕ)
        → 1 ≤ num_shards
        → (shards : List Bytes) × (shard_state_dict codec d num_shards ≡ ok shards)
          × (length shards ≡ num_shards)
          × ((r : Dict String Tensor) × (reassemble_state_dict codec shards
                  (build_manifest codec version shards)
                ≡ ok r)
              × ((k : String) → lookup k r ≡ lookup k d))
    unfolding shard_state_dict reassemble_state_dict build_manifest lookup
    reassemble-shard d num_shards version h =
        let (parted, count) = partition_names-perm codec d num_shards h in
        let groups = partition_names codec d num_shards in
        let same : (k : String) → contains k (concat groups) ≡ contains k (keys d) =
          λ k. contains-perm k parted in
        let (shards, e, m) = save_groups_lem d groups (
          Within-subst (concat groups) (keys d) (concat groups) same
            (Within-refl (concat groups))) in
        let (r, f, reads) =
          m.merge [] (build_manifest codec version shards) [] (omega arith) refl in
        (
          shards,
          ground (arith, e),
          m.count ∙ count,
          (r, ground (arith, f), λ k. ground (arith, reads k, same k, contains-lookup k d)),
        )
