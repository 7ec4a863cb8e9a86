-- ===== src/Relay/Client/Holding.antt =====
-- One relay behind `publish`.
use panofabric_engine.Prelude.{
  ℕ, zero, suc, ◌+◌, ◌≤◌, ◌<◌, ◌≡◌, refl, sym, ap, subst, ◌∙◌, true, some, List, [], ◌∷◌, arith,
  nat_eq, get_elem?,
}
use panofabric_engine.Prelude.Result.{Result, ok}
use panofabric_engine.Prelude.Dict.{
  Dict, keys, contains, lookup, insert, lookup-insert, contains-key, contains-eq-is_some,
}
use panofabric_engine.Relay.Sharding.{CheckpointManifest}
use panofabric_engine.Relay.Store.{
  RelayServer, max_key, latest_version, publish_manifest, publish_shard, get_manifest, get_shard,
  handle_publish_manifest, handle_publish_shard, handle_manifest_latest, handle_get_shard,
}
use panofabric_engine.Relay.Store.Eviction.{IsValid}
use panofabric_engine.Relay.Store.Retention.{publish_manifest-IsBounded, latest_version-publish}
use panofabric_engine.Relay.Client.Publish.{publish_shards, publish_relay}

module _ {Bytes : Type 0} where
  -- What the relay answers to a fetch.
  pub record IsHolding (version : ℕ) (manifest : CheckpointManifest) (shards : List Bytes)
      (s : RelayServer Bytes) : Type 0 where
    pub latest : handle_manifest_latest s ≡ (200, some manifest)
    pub shard :
        (i : ℕ) (bytes : Bytes)
        → get_elem? shards i ≡ some bytes
        → handle_get_shard s version i ≡ (200, some bytes)

  -- What the loop over the shards leaves.
  record Uploads (version idx : ℕ) (shards : List Bytes) (held : Dict ℕ Bytes)
      (s : RelayServer Bytes) (r : RelayServer Bytes × Result (Unit {0})) : Type 0 where
    succeeds : r.1 ≡ ok tt
    same : r.0.manifests ≡ s.manifests
    held' : Dict ℕ Bytes
    at_version : lookup version r.0.shards ≡ some held'
    before : (i : ℕ) → i < idx → lookup i held' ≡ lookup i held
    uploaded :
        (i : ℕ) (bytes : Bytes)
        → get_elem? shards i ≡ some bytes
        → lookup (idx + i) held' ≡ some bytes

  uploaded_at :
      (version idx : ℕ) (bytes : Bytes) (shards : List Bytes) (held : Dict ℕ Bytes)
      (s : RelayServer Bytes) (r : RelayServer Bytes × Result (Unit {0}))
      (u : Uploads version (idx + 1) shards (insert idx bytes held) s r) (i : ℕ) (b : Bytes)
      → get_elem? (bytes ∷ shards) i ≡ some b
      → lookup (idx + i) u.held' ≡ some b
  uploaded_at version idx bytes shards held s r u zero b e =
      ap (λ j. lookup j u.held') (omega arith)
      ∙ u.before idx (omega arith)
      ∙ ground (arith, e, lookup-insert idx idx bytes held)
  uploaded_at version idx bytes shards held s r u (suc i) b e =
      ap (λ j. lookup j u.held') (omega arith) ∙ u.uploaded i b e

  upload_lem :
      (s : RelayServer Bytes) (version idx : ℕ) (bytes : Bytes) (shards : List Bytes)
      (manifest : CheckpointManifest) (held : Dict ℕ Bytes)
      → lookup version s.manifests ≡ some manifest
      → lookup version s.shards ≡ some held
      → publish_shards s version idx (bytes ∷ shards)
        ≡ publish_shards
            (record s { shards = insert version (insert idx bytes held) s.shards })
            version
            (idx + 1)
            shards
  unfolding publish_shards handle_publish_shard publish_shard
  upload_lem s version idx bytes shards manifest held known at =
      let accepted : publish_shard s version idx bytes
          ≡ ok (record s { shards = insert version (insert idx bytes held) s.shards }) =
        rw (publish_shard, known, at) refl in
      let handled : handle_publish_shard s version idx bytes
          ≡ (record s { shards = insert version (insert idx bytes held) s.shards }, 204) =
        rw (handle_publish_shard, accepted) refl in
      rw (publish_shards, handled) (ap (λ r. publish_shards r.0 version (idx + 1) shards) handled)

  publish_shards-Uploads :
      (s : RelayServer Bytes) (version idx : ℕ) (shards : List Bytes)
      (manifest : CheckpointManifest) (held : Dict ℕ Bytes)
      → lookup version s.manifests ≡ some manifest
      → lookup version s.shards ≡ some held
      → Uploads version idx shards held s (publish_shards s version idx shards)
  unfolding publish_shards handle_publish_shard publish_shard
  publish_shards-Uploads s version idx [] manifest held known at = record {
    succeeds = refl;
    same = refl;
    held' = held;
    at_version = at;
    before = λ i h. refl;
    uploaded = λ i bytes e. cc;
  }
  publish_shards-Uploads s version idx (bytes ∷ shards) manifest held known at =
      let s1 = record s { shards = insert version (insert idx bytes held) s.shards } in
      let stored : lookup version s1.shards ≡ some (insert idx bytes held) =
        ground (arith, lookup-insert version version (insert idx bytes held) s.shards) in
      let u =
        publish_shards-Uploads s1 version (idx + 1) shards manifest (insert idx bytes held) known
          stored in
      subst (Uploads version idx (bytes ∷ shards) held s)
        (sym (upload_lem s version idx bytes shards manifest held known at))
        (record {
          succeeds = u.succeeds;
          same = u.same;
          held' = u.held';
          at_version = u.at_version;
          before = λ i h.
              u.before i (omega (arith, h)) ∙ ground (arith, h, lookup-insert idx i bytes held);
          uploaded = uploaded_at version idx bytes shards held s1 _ u;
        })

  latest_lem :
      (s : RelayServer Bytes) (version : ℕ) (manifest : CheckpointManifest)
      → latest_version s ≡ some version
      → lookup version s.manifests ≡ some manifest
      → handle_manifest_latest s ≡ (200, some manifest)
  unfolding handle_manifest_latest get_manifest
  latest_lem s version manifest e f = rw (handle_manifest_latest, e, get_manifest, f) refl

  shard_lem :
      (s : RelayServer Bytes) (version i : ℕ) (bytes : Bytes) (held : Dict ℕ Bytes)
      → lookup version s.shards ≡ some held
      → lookup i held ≡ some bytes
      → handle_get_shard s version i ≡ (200, some bytes)
  unfolding handle_get_shard get_shard
  shard_lem s version i bytes held e f = rw (handle_get_shard, get_shard, e, f) refl

  -- A relay of a valid store that keeps at least one version answers with what was published under the
  -- newest one.
  pub publish_relay-IsHolding :
      (s : RelayServer Bytes) (version : ℕ) (shards : List Bytes) (manifest : CheckpointManifest)
      → IsValid s
      → 1 ≤ s.retain_last
      → ((w : ℕ) → contains w (keys s.manifests) ≡ true → w ≤ version)
      → ((publish_relay s version shards manifest).1 ≡ ok tt)
        × IsHolding version manifest shards (publish_relay s version shards manifest).0
  unfolding publish_relay handle_publish_manifest handle_manifest_latest handle_get_shard get_shard
      get_manifest latest_version
  publish_relay-IsHolding s version shards manifest h keeps newest =
      let s1 = publish_manifest s version manifest in
      let (is_latest, known) = latest_version-publish s version manifest h keeps newest in
      let valid = (publish_manifest-IsBounded s version manifest h).0.valid in
      let (held, at) =
        contains-key version s1.shards
          (ground (arith, valid.same version, contains-eq-is_some version s1.manifests, known)) in
      let u = publish_shards-Uploads s1 version 0 shards manifest held known at in
      (
        u.succeeds,
        record {
          latest =
              latest_lem (publish_relay s version shards manifest).0 version manifest
                (ap (λ (ms : Dict ℕ CheckpointManifest). max_key (keys ms)) u.same ∙ is_latest)
                (ap (λ (ms : Dict ℕ CheckpointManifest). lookup version ms) u.same ∙ known);
          shard = λ i bytes e.
              shard_lem (publish_relay s version shards manifest).0 version i bytes u.held'
                u.at_version (ap (λ j. lookup j u.held') (omega arith) ∙ u.uploaded i bytes e);
        },
      )
