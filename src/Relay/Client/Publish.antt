-- ===== src/Relay/Client/Publish.antt =====
-- `RelayClient.publish`, and what the stores of the relays answer to a client.
use panofabric_engine.Prelude.{
  ℕ, ◌+◌, String, Option, none, some, List, [], ◌∷◌, ltb, ◌==◌, if◌then◌else◌, nat_eq, string_eq,
}
use panofabric_engine.Prelude.Result.{Result, ok, err, io_error}
use panofabric_engine.Prelude.Dict.{Dict, lookup, insert}
use panofabric_engine.Relay.Sharding.{CheckpointManifest}
use panofabric_engine.Relay.Store.{
  RelayServer, handle_publish_manifest, handle_publish_shard, handle_manifest_latest,
  handle_get_shard,
}
use panofabric_engine.Relay.Client.{Got, missing, broken, got, Relays}

-- What a handler's response is to the client.
abbrev pub response : {A : Type 0} → ℕ × Option A → Got A
response (status, none) = if status == 404 then missing else broken
response (status, some a) = if ltb status 400 then got a else broken

-- `resp.raise_for_status()`
abbrev pub raise_for_status : ℕ → Result (Unit {0})
raise_for_status status = if ltb status 400 then ok tt else err io_error

module _ {Bytes : Type 0} where
  -- The loop of `publish` over the shards from index `idx` on, at one relay.
  unfoldable pub publish_shards :
      RelayServer Bytes → ℕ → ℕ → List Bytes → RelayServer Bytes × Result (Unit {0})
  unfolding handle_publish_shard
  publish_shards s version idx [] = (s, ok tt)
  publish_shards s version idx (bytes ∷ shards) =
      let (s', status) = handle_publish_shard s version idx bytes in
      let rest = publish_shards s' version (idx + 1) shards in
      elim (raise_for_status status) [ err e ↦ (s', err e) | ok _ ↦ rest ]

  unfoldable pub publish_relay :
      RelayServer Bytes
      → ℕ
      → List Bytes
      → CheckpointManifest
      → RelayServer Bytes × Result (Unit {0})
  unfolding handle_publish_manifest publish_shards
  publish_relay s version shards manifest =
      let (s', status) = handle_publish_manifest s version manifest in
      elim (raise_for_status status) [
        | err e ↦ (s', err e)
        | ok _ ↦ publish_shards s' version 0 shards
      ]

  -- `publish`, over the relays that can be reached.
  unfoldable pub publish :
      Dict String (RelayServer Bytes)
      → List String
      → ℕ
      → List Bytes
      → CheckpointManifest
      → Dict String (RelayServer Bytes) × Result (Unit {0})
  unfolding publish_relay lookup insert
  publish stores [] version shards manifest = (stores, ok tt)
  publish stores (url ∷ targets) version shards manifest = elim (lookup url stores) [
    | none ↦ (stores, err io_error)
    | some s ↦
        let (s', r) = publish_relay s version shards manifest in
        let stores' = insert url s' stores in
        elim r [ err e ↦ (stores', err e) | ok _ ↦ publish stores' targets version shards manifest ]
  ]

  abbrev pub served_by :
      {A : Type 0} → (RelayServer Bytes → Got A) → Option (RelayServer Bytes) → Got A
  served_by answer none = broken
  served_by answer (some s) = answer s

  abbrev pub relays_of : Dict String (RelayServer Bytes) → (String → ℕ) → Relays Bytes
  relays_of stores elapsed = record {
    latest = λ url. served_by (λ s. response (handle_manifest_latest s)) (lookup url stores);
    shard = λ url version idx.
        served_by (λ s. response (handle_get_shard s version idx)) (lookup url stores);
    elapsed = elapsed;
  }
