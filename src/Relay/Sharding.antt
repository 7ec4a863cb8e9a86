-- ===== src/Relay/Sharding.antt =====
-- Checkpoint <-> verified byte shards. A tensor, `torch.save`, `torch.load` and SHA-256 come from
-- outside: the record `Codec`.
pub mod Balance
pub mod RoundTrip
pub mod Integrity
use panofabric_engine.Prelude.{
  ℕ, suc, ◌+◌, ◌≡◌, String, not, none, some, List, [], ◌∷◌, ◌++◌, map, leb, ltb, ◌==◌,
  if◌then◌else◌, Eq, string_eq, length, get_elem?, get_or, set, replicate,
}
use panofabric_engine.Prelude.Result.{
  Result, ok, err, value_error, key_error, index_error, integrity_error, ◌>>=◌, ◌>>◌,
}
use panofabric_engine.Prelude.Dict.{Dict, keys, lookup, insert}
use panofabric_engine.Prelude.Sort.{sort_desc, insert_desc}
use panofabric_engine.Prelude.Arg.{arg_min}

pub record Codec (Tensor Bytes : Type 0) : Type 0 where
  -- `t.numel() * t.element_size()`
  pub nbytes : Tensor → ℕ
  pub save : Dict String Tensor → Bytes
  pub load : Bytes → Result (Dict String Tensor)
  pub sha256 : Bytes → String
  pub byte_length : Bytes → ℕ

pub record CheckpointManifest : Type 0 where
  pub version : ℕ
  pub num_shards : ℕ
  pub shard_checksums : List String
  pub shard_sizes : List ℕ

-- The loop of `_partition_names` over the sorted names, with `bins` and `bin_bytes`.
pub place : (String → ℕ) → List String → List (List String) → List ℕ → List (List String) × List ℕ
unfolding arg_min
place size [] bins bin_bytes = (bins, bin_bytes)
place size (name ∷ names) bins bin_bytes =
    let idx = arg_min bin_bytes in
    place size names (set bins idx (get_or bins idx [] ++ name ∷ []))
      (set bin_bytes idx (get_or bin_bytes idx 0 + size name))

module _ {Tensor Bytes : Type 0} (codec : Codec Tensor Bytes) where
  -- The size of a tensor by name; the names that are asked for are keys.
  unfoldable pub size_of : Dict String Tensor → String → ℕ
  unfolding lookup
  size_of state_dict name = elim (lookup name state_dict) [ none ↦ 0 | some t ↦ codec.nbytes t ]

  pub partition_names : Dict String Tensor → ℕ → List (List String)
  unfolding place size_of sort_desc
  partition_names state_dict num_shards =
      (place (size_of state_dict) (sort_desc (size_of state_dict) (keys state_dict))
        (replicate num_shards []) (replicate num_shards 0)).0

  -- `{name: state_dict[name] for name in names}`, added to `acc`.
  pub select : Dict String Tensor → List String → Dict String Tensor → Result (Dict String Tensor)
  unfolding lookup insert
  select state_dict [] acc = ok acc
  select state_dict (name ∷ names) acc = elim (lookup name state_dict) [
    | none ↦ err key_error
    | some t ↦ select state_dict names (insert name t acc)
  ]

  -- The loop over the name groups.
  pub save_groups : Dict String Tensor → List (List String) → Result (List Bytes)
  unfolding select
  save_groups state_dict [] = ok []
  save_groups state_dict (names ∷ groups) = do
    shard ← select state_dict names []
    rest ← save_groups state_dict groups
    ok (codec.save shard ∷ rest)

  pub shard_state_dict : Dict String Tensor → ℕ → Result (List Bytes)
  unfolding partition_names save_groups
  shard_state_dict state_dict num_shards =
      if ltb num_shards 1
      then err value_error
      else save_groups state_dict (partition_names state_dict num_shards)

  unfoldable pub build_manifest : ℕ → List Bytes → CheckpointManifest
  build_manifest version shard_bytes = record {
    version = version;
    num_shards = length shard_bytes;
    shard_checksums = map codec.sha256 shard_bytes;
    shard_sizes = map codec.byte_length shard_bytes;
  }

  -- An index is never negative here: the caller enumerates.
  unfoldable pub verify_shard : ℕ → Bytes → CheckpointManifest → Result (Unit {0})
  verify_shard shard_idx shard manifest =
      if leb manifest.num_shards shard_idx
      then err integrity_error
      else elim (get_elem? manifest.shard_checksums shard_idx) [
        | none ↦ err index_error
        | some expected ↦
            if string_eq.beq (codec.sha256 shard) expected then ok tt else err integrity_error
      ]

  -- `merged.update(shard_sd)`
  unfoldable pub update : Dict String Tensor → Dict String Tensor → Dict String Tensor
  unfolding insert
  update merged [] = merged
  update merged ((name, t) ∷ rest) = update (insert name t merged) rest

  -- The loop over the shards from index `idx` on.
  unfoldable pub merge_shards :
      ℕ → List Bytes → CheckpointManifest → Dict String Tensor → Result (Dict String Tensor)
  unfolding verify_shard update
  merge_shards idx [] manifest merged = ok merged
  merge_shards idx (shard ∷ rest) manifest merged = do
    verify_shard idx shard manifest
    shard_sd ← codec.load shard
    merge_shards (idx + 1) rest manifest (update merged shard_sd)

  unfoldable pub reassemble_state_dict :
      List Bytes → CheckpointManifest → Result (Dict String Tensor)
  unfolding merge_shards
  reassemble_state_dict shard_bytes manifest =
      if length shard_bytes == manifest.num_shards
      then merge_shards 0 shard_bytes manifest []
      else err integrity_error
