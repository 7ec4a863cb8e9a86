-- ===== src/Relay/Store.antt =====
-- `RelayServer`: the in-memory store of one relay node and its four HTTP handlers. The handlers run
-- one after another: none awaits between its reads and its writes.
pub mod Order
pub mod Eviction
pub mod Retention
use panofabric_engine.Prelude.{
  ℕ, suc, ◌≤◌, Bool, true, false, Option, none, some, List, [], ◌∷◌, leb, if◌then◌else◌, max, Eq,
  nat_eq, length, take,
}
use panofabric_engine.Prelude.Result.{Result, ok, err, key_error}
use panofabric_engine.Prelude.Dict.{Dict, keys, contains, lookup, insert, remove}
use panofabric_engine.Prelude.Sort.{sort_desc, insert_desc}
use panofabric_engine.Relay.Sharding.{CheckpointManifest}

module _ (Bytes : Type 0) where
  pub record RelayServer : Type 0 where
    pub retain_last : ℕ
    pub shards : Dict ℕ (Dict ℕ Bytes)
    pub manifests : Dict ℕ CheckpointManifest

-- `max(xs)` of a non-empty list whose first element is `x`.
pub max_from : ℕ → List ℕ → ℕ
max_from x [] = x
max_from x (y ∷ ys) = max_from (if leb y x then x else y) ys

pub max_key : List ℕ → Option ℕ
unfolding max_from
max_key [] = none
max_key (v ∷ vs) = some (max_from v vs)

module _ {Bytes : Type 0} where
  pub init : ℕ → RelayServer Bytes
  init retain_last = record { retain_last = retain_last; shards = []; manifests = [] }

  unfoldable pub latest_version : RelayServer Bytes → Option ℕ
  unfolding max_key
  latest_version s = max_key (keys s.manifests)

  -- The `for` loop over a copy of the versions.
  pub evict_loop : List ℕ → List ℕ → RelayServer Bytes → RelayServer Bytes
  unfolding contains remove
  evict_loop kept [] s = s
  evict_loop kept (version ∷ versions) s = evict_loop kept versions (
      if contains version kept
      then s
      else record s { manifests = remove version s.manifests; shards = remove version s.shards })

  abbrev pub newest : RelayServer Bytes → List ℕ
  newest s = take s.retain_last (sort_desc (λ v. v) (keys s.manifests))

  pub evict_old : RelayServer Bytes → RelayServer Bytes
  unfolding evict_loop sort_desc
  evict_old s =
      if leb (length s.manifests) s.retain_last
      then s
      else evict_loop (newest s) (keys s.manifests) s

  -- `self._shards.setdefault(version, {})`
  abbrev pub set_default : ℕ → Dict ℕ (Dict ℕ Bytes) → Dict ℕ (Dict ℕ Bytes)
  set_default version shards = elim (lookup version shards) [
    | none ↦ insert version [] shards
    | some _ ↦ shards
  ]

  unfoldable pub publish_manifest : RelayServer Bytes → ℕ → CheckpointManifest → RelayServer Bytes
  unfolding evict_old insert lookup
  publish_manifest s version manifest = evict_old (record s {
    manifests = insert version manifest s.manifests;
    shards = set_default version s.shards;
  })

  -- The second lookup cannot fail while every manifest has an entry in `shards`: see Retention.
  unfoldable pub publish_shard : RelayServer Bytes → ℕ → ℕ → Bytes → Result (RelayServer Bytes)
  unfolding insert lookup
  publish_shard s version idx body = elim (lookup version s.manifests) [
    | none ↦ err key_error
    | some _ ↦ elim (lookup version s.shards) [
      | none ↦ err key_error
      | some held ↦ ok (record s { shards = insert version (insert idx body held) s.shards })
    ]
  ]

  unfoldable pub get_manifest : RelayServer Bytes → ℕ → Option CheckpointManifest
  unfolding lookup
  get_manifest s version = lookup version s.manifests

  unfoldable pub get_shard : RelayServer Bytes → ℕ → ℕ → Option Bytes
  unfolding lookup
  get_shard s version idx = elim (lookup version s.shards) [
    | none ↦ none
    | some held ↦ lookup idx held
  ]

  -- The handlers: the status, and what a 200 carries.
  unfoldable pub handle_publish_manifest :
      RelayServer Bytes → ℕ → CheckpointManifest → RelayServer Bytes × ℕ
  unfolding publish_manifest
  handle_publish_manifest s version manifest = (publish_manifest s version manifest, 204)

  unfoldable pub handle_publish_shard : RelayServer Bytes → ℕ → ℕ → Bytes → RelayServer Bytes × ℕ
  unfolding publish_shard
  handle_publish_shard s version idx body = elim (publish_shard s version idx body) [
    | err _ ↦ (s, 404)
    | ok s' ↦ (s', 204)
  ]

  unfoldable pub handle_manifest_latest : RelayServer Bytes → ℕ × Option CheckpointManifest
  unfolding latest_version get_manifest
  handle_manifest_latest s = elim (latest_version s) [
    | none ↦ (404, none)
    | some version ↦ (200, get_manifest s version)
  ]

  unfoldable pub handle_get_shard : RelayServer Bytes → ℕ → ℕ → ℕ × Option Bytes
  unfolding get_shard
  handle_get_shard s version idx = elim (get_shard s version idx) [
    | none ↦ (404, none)
    | some body ↦ (200, some body)
  ]
