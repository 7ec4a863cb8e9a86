-- ===== src/Tests/Relaying.antt =====
-- A state dict of three tensors, its shards and a store. A tensor is its size, and the bytes of a state dict are
-- the dict itself.
use panofabric_engine.Prelude.{
  ℕ, ◌≡◌, refl, String, List, [], ◌∷◌, map, concat, arith, length, string_eq, nat_eq,
}
use mathlib.Core.List.{Perm}
use panofabric_engine.Prelude.Dict.{Dict, contains, lookup, insert}
use panofabric_engine.Prelude.Result.{ok}
use panofabric_engine.Relay.Sharding.{
  Codec, CheckpointManifest, size_of, partition_names, shard_state_dict, build_manifest,
  verify_shard, update, merge_shards, reassemble_state_dict,
}
use panofabric_engine.Relay.Sharding.Balance.{
  IsBalanced, group_bytes, partition_names-perm, partition_names-IsBalanced,
}
use panofabric_engine.Relay.Sharding.RoundTrip.{reassemble-shard}
use panofabric_engine.Relay.Sharding.Integrity.{reassemble-Verified}
use panofabric_engine.Relay.Store.{RelayServer, publish_manifest}
use panofabric_engine.Relay.Store.Eviction.{IsValid}
use panofabric_engine.Relay.Store.Retention.{IsBounded, publish_manifest-IsBounded}

abbrev pub Bytes : Type 0
Bytes = Dict String ℕ

abbrev first_name : Bytes → String
first_name [] = "empty"
first_name ((name, t) ∷ d) = name

abbrev pub codec : Codec ℕ Bytes
codec = record {
  nbytes = λ n. n;
  save = λ d. d;
  load = λ b. ok b;
  sha256 = first_name;
  byte_length = length;
}

abbrev pub state_dict : Bytes
state_dict = ("wq", 8) ∷ ("wk", 4) ∷ ("norm", 1) ∷ []

reassemble-shard_example :
    (shards : List Bytes) × (shard_state_dict codec state_dict 2 ≡ ok shards)
    × (length shards ≡ 2)
    × ((r : Bytes) × (reassemble_state_dict codec shards (build_manifest codec 3 shards) ≡ ok r)
        × ((k : String) → lookup k r ≡ lookup k state_dict))
reassemble-shard_example = reassemble-shard codec (λ d. refl) state_dict 2 3 (omega arith)

abbrev shards : List Bytes
shards = (("wq", 8) ∷ []) ∷ (("wk", 4) ∷ ("norm", 1) ∷ []) ∷ []

abbrev manifest : CheckpointManifest
manifest = record {
  version = 3;
  num_shards = 2;
  shard_checksums = "wq" ∷ "wk" ∷ [];
  shard_sizes = 1 ∷ 2 ∷ [];
}

reassemble-Verified_example : length shards ≡ 2
unfolding reassemble_state_dict merge_shards verify_shard update insert
reassemble-Verified_example = (reassemble-Verified codec shards manifest state_dict refl).0

partition_names-perm_example :
    Perm (concat (partition_names codec state_dict 2)) ("wq" ∷ "wk" ∷ "norm" ∷ [])
    × (length (partition_names codec state_dict 2) ≡ 2)
partition_names-perm_example = partition_names-perm codec state_dict 2 (omega arith)

partition_names-IsBalanced_example :
    IsBalanced 8 (map (group_bytes (size_of codec state_dict)) (partition_names codec state_dict 2))
unfolding size_of lookup
partition_names-IsBalanced_example =
    partition_names-IsBalanced codec state_dict 2 (omega arith) 8
      (omega arith, (omega arith, (omega arith, tt)))

abbrev store : RelayServer Bytes
store = record { retain_last = 1; shards = (2, []) ∷ []; manifests = (2, manifest) ∷ [] }

store-IsValid : IsValid store
unfolding contains
store-IsValid = record { distinct = (refl, tt); same = λ v. refl }

publish_manifest-IsBounded_example : IsBounded (publish_manifest store 3 manifest)
publish_manifest-IsBounded_example = (publish_manifest-IsBounded store 3 manifest store-IsValid).0
