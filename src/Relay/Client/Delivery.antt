-- ===== src/Relay/Client/Delivery.antt =====
-- `publish` of a checkpoint to all relays, and a `fetch_latest` behind it.
use panofabric_engine.Prelude.{
  ℕ, suc, ◌+◌, ◌≤◌, ◌<◌, ◌≡◌, refl, sym, ap, subst, ◌∙◌, inl, inr, String, true, false, some, List,
  [], ◌∷◌, arith, ltb, string_eq, nat_eq, length, get_elem?, Bool-cases,
}
use panofabric_engine.Prelude.Result.{Result, ok}
use panofabric_engine.Prelude.Dict.{
  Dict, keys, contains, Distinct, lookup, insert, lookup-insert, beq_refl,
}
use native.Mathlib.Nat.{zero-add}
use panofabric_engine.Relay.Sharding.{
  Codec, CheckpointManifest, shard_state_dict, build_manifest, reassemble_state_dict,
}
use panofabric_engine.Relay.Sharding.RoundTrip.{reassemble-shard}
use panofabric_engine.Relay.Store.{RelayServer}
use panofabric_engine.Relay.Store.Eviction.{IsValid}
use panofabric_engine.Relay.Client.{
  Floats, Random, IsRandom, RelayClient, Relays, got, found, fetch_manifest, shard_loop,
  fetch_shards, try_relay, fetch_latest,
}
use panofabric_engine.Relay.Client.Publish.{publish_relay, publish, relays_of}
use panofabric_engine.Relay.Client.Search.{fetch_latest-Returns, Offers}
use panofabric_engine.Relay.Client.Holding.{IsHolding, publish_relay-IsHolding}

nonempty : (us : List String) → 1 ≤ length us → (u : String) × (contains u us ≡ true)
unfolding contains
nonempty [] h = absurd (omega arith)
nonempty (u ∷ us) h = (u, rw (beq_refl u) refl)

module _ {Bytes : Type 0} where
  -- A relay that can be reached and takes this version as its newest.
  pub record IsReady (stores : Dict String (RelayServer Bytes)) (version : ℕ) (url : String)
      : Type 0 where
    pub store : RelayServer Bytes
    pub present : lookup url stores ≡ some store
    pub valid : IsValid store
    pub keeps : 1 ≤ store.retain_last
    pub newest : (w : ℕ) → contains w (keys store.manifests) ≡ true → w ≤ version

  record Holder (version : ℕ) (manifest : CheckpointManifest) (shards : List Bytes)
      (stores : Dict String (RelayServer Bytes)) (url : String) : Type 0 where
    store : RelayServer Bytes
    present : lookup url stores ≡ some store
    holds : IsHolding version manifest shards store

  record Publishes (version : ℕ) (manifest : CheckpointManifest) (shards : List Bytes)
      (targets : List String) (stores : Dict String (RelayServer Bytes))
      (r : Dict String (RelayServer Bytes) × Result (Unit {0})) : Type 0 where
    succeeds : r.1 ≡ ok tt
    holders : (url : String) → contains url targets ≡ true → Holder version manifest shards r.0 url
    others : (url : String) → contains url targets ≡ false → lookup url r.0 ≡ lookup url stores

  publish-Publishes :
      (stores : Dict String (RelayServer Bytes)) (targets : List String) (version : ℕ)
      (shards : List Bytes) (manifest : CheckpointManifest)
      → Distinct targets
      → ((url : String) → contains url targets ≡ true → IsReady stores version url)
      → Publishes version manifest shards targets stores
          (publish stores targets version shards manifest)
  unfolding publish contains
  publish-Publishes stores [] version shards manifest d ready = record {
    succeeds = refl;
    holders = λ url e. cc;
    others = λ url e. refl;
  }
  publish-Publishes stores (url ∷ targets) version shards manifest d ready =
      let r = ready url (rw (beq_refl url) refl) in
      let (accepted, holds) =
        publish_relay-IsHolding r.store version shards manifest r.valid r.keeps r.newest in
      let s' = (publish_relay r.store version shards manifest).0 in
      let apart : (v : String)
          → contains v targets ≡ true
          → lookup v (insert url s' stores) ≡ lookup v stores =
        λ v e. ground (arith, e, d.0, string_eq.beq_iff url v, lookup-insert url v s' stores) in
      let p = publish-Publishes (insert url s' stores) targets version shards manifest d.1 (λ v e.
        let q = ready v (ground (arith, e)) in
        record {
          store = q.store;
          present = apart v e ∙ q.present;
          valid = q.valid;
          keeps = q.keeps;
          newest = q.newest;
        }) in
      subst (Publishes version manifest shards (url ∷ targets) stores)
        (sym (rw (publish, r.present, accepted) refl))
        (record {
          succeeds = p.succeeds;
          holders = λ v e. elim (Bool-cases (string_eq.beq url v)) [
            | inl same ↦
                subst (Holder version manifest shards _) ((string_eq.beq_iff url v).0 same)
                  (record {
                    store = s';
                    present =
                        p.others url d.0
                        ∙ ground (arith, beq_refl url, lookup-insert url url s' stores);
                    holds = holds;
                  })
            | inr other ↦ p.holders v (ground (arith, e, other))
          ];
          others = λ v e.
              p.others v (ground (arith, e)) ∙ ground (arith, e, lookup-insert url v s' stores);
        })

module _ {F Tensor Bytes : Type 0} (fl : Floats F) (codec : Codec Tensor Bytes)
    (relays : Relays Bytes) where
  shard_loop_lem :
      (url : String) (version idx : ℕ) (shards : List Bytes)
      → ((i : ℕ) (bytes : Bytes)
          → get_elem? shards i ≡ some bytes
          → relays.shard url version (idx + i) ≡ got bytes)
      → shard_loop fl codec relays url version idx (length shards) ≡ some shards
  unfolding shard_loop
  shard_loop_lem url version idx [] h = refl
  shard_loop_lem url version idx (bytes ∷ shards) h =
      let first : relays.shard url version idx ≡ got bytes =
        ap (relays.shard url version) (omega arith) ∙ h 0 bytes refl in
      let rest =
        shard_loop_lem url version (idx + 1) shards
          (λ i b e. ap (relays.shard url version) (omega arith) ∙ h (suc i) b e) in
      rw (first, rest) refl

  try_relay_lem :
      (c : RelayClient F) (url : String) (min_version : ℕ) (m : CheckpointManifest)
      (shards : List Bytes) (d : Dict String Tensor)
      → relays.latest url ≡ got m
      → min_version < m.version
      → shard_loop fl codec relays url m.version 0 m.num_shards ≡ some shards
      → reassemble_state_dict codec shards m ≡ ok d
      → (try_relay fl codec relays c url min_version).1 ≡ found m.version d
  unfolding try_relay
  try_relay_lem c url min_version m shards d is_latest newer all whole =
      let is_newer : ltb min_version m.version ≡ true = ground (arith, newer) in
      let has : fetch_manifest fl codec relays c url min_version ≡ (c, some m) =
        rw (fetch_manifest, is_latest, is_newer) refl in
      rw (has, fetch_shards, all, whole) refl

module _ {F G Tensor Bytes : Type 0} (fl : Floats F) (rng : Random F G) (law : IsRandom rng)
    (codec : Codec Tensor Bytes)
    (load-save : (d : Dict String Tensor) → codec.load (codec.save d) ≡ ok d) where
  -- What a relay that holds the checkpoint gives to a client that has an older one.
  Holder-Offers :
      (stores : Dict String (RelayServer Bytes)) (elapsed : String → ℕ) (url : String)
      (version min_version : ℕ) (shards : List Bytes) (r : Dict String Tensor)
      → Holder version (build_manifest codec version shards) shards stores url
      → reassemble_state_dict codec shards (build_manifest codec version shards) ≡ ok r
      → min_version < version
      → Offers fl rng law codec (relays_of stores elapsed) min_version url version r
  unfolding build_manifest
  Holder-Offers stores elapsed url version min_version shards r h whole newer =
      let relays = relays_of stores elapsed in
      let manifest = build_manifest codec version shards in
      λ c.
        try_relay_lem fl codec relays c url min_version manifest shards r
          (rw (h.present, h.holds.latest) refl) newer
          (shard_loop_lem fl codec relays url version 0 shards
            (λ i b e. rw (h.present, zero-add i, h.holds.shard i b e) refl))
          whole

  -- A state dict is cut into at least one shard and published to all relays of a client, each with a valid
  -- store that keeps at least one version, and has no newer one. Then a client of these relays that has an
  -- older version fetches it, in whatever order it tries them: sharding and publishing succeed, and
  -- `fetch_latest` returns the version and a state dict that reads the same at every name.
  pub fetch_latest-publish :
      (c : RelayClient F) (g : G) (stores : Dict String (RelayServer Bytes)) (elapsed : String → ℕ)
      (d : Dict String Tensor) (num_shards version min_version : ℕ)
      → 1 ≤ num_shards
      → min_version < version
      → 1 ≤ length c.relay_urls
      → Distinct c.relay_urls
      → ((url : String) → contains url c.relay_urls ≡ true → IsReady stores version url)
      → (shards : List Bytes) × (shard_state_dict codec d num_shards ≡ ok shards)
        × (let published =
              publish stores c.relay_urls version shards (build_manifest codec version shards) in
            (published.1 ≡ ok tt)
            × ((r : Dict String Tensor) × ((fetch_latest fl codec
                    (relays_of published.0 elapsed)
                    rng
                    c
                    g
                    min_version).0
                  ≡ ok (some (version, r)))
                × ((k : String) → lookup k r ≡ lookup k d)))
  unfolding contains
  fetch_latest-publish c g stores elapsed d num_shards version min_version h newer some_url distinct
        ready =
      let (shards, cut, _, back) = reassemble-shard codec load-save d num_shards version h in
      let (r, whole, reads) = back in
      let p =
        publish-Publishes stores c.relay_urls version shards (build_manifest codec version shards)
          distinct ready in
      let published =
        publish stores c.relay_urls version shards (build_manifest codec version shards) in
      let offers : (url : String)
          → contains url c.relay_urls ≡ true
          → Offers fl rng law codec (relays_of published.0 elapsed) min_version url version r =
        λ url e.
          Holder-Offers published.0 elapsed url version min_version shards r (p.holders url e) whole
            newer in
      let (u, within) = nonempty c.relay_urls some_url in
      let result =
        elim (fetch_latest-Returns fl rng law codec (relays_of published.0 elapsed) min_version c g
            (λ url e. inr (version, r, offers url e)))
          as (λ _.
            (fetch_latest fl codec (relays_of published.0 elapsed) rng c g min_version).0
            ≡ ok (some (version, r))) [
              | inl (url, v, d', e, offers', is) ↦ is ∙ cc (offers' c, offers url e c)
              | inr (is, skips) ↦ cc (skips u within c, offers u within c)
            ] in
      (shards, cut, (p.succeeds, (r, result, reads)))
