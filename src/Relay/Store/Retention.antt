-- ===== src/Relay/Store/Retention.antt =====
-- Publishing a manifest, and the latest version.
use panofabric_engine.Prelude.{
  ℕ, ◌≤◌, ◌≡◌, ◌∙◌, ◌⊎◌, true, false, some, arith, ◌==◌, if◌then◌else◌, nat_eq, length,
}
use panofabric_engine.Prelude.Dict.{keys, contains, lookup-insert, contains-insert}
use panofabric_engine.Relay.Sharding.{CheckpointManifest}
use panofabric_engine.Relay.Store.{
  RelayServer, evict_old, publish_manifest, latest_version, get_manifest,
}
use panofabric_engine.Relay.Store.Order.{max_key-eq}
use panofabric_engine.Relay.Store.Eviction.{
  IsValid, evict_old-Retains, with_manifest, with_manifest-IsValid,
}

module _ {Bytes : Type 0} where
  -- The invariant of the store and the bound on its versions.
  pub record IsBounded (s : RelayServer Bytes) : Type 0 where
    pub valid : IsValid s
    pub bounded : length s.manifests ≤ s.retain_last

  -- From a valid store, publishing a manifest leaves a valid store of at most `retain_last`
  -- versions; every version that stays reads as before, or as the new manifest under its version;
  -- every version that goes is no newer than any that stays.
  pub publish_manifest-IsBounded :
      (s : RelayServer Bytes) (version : ℕ) (manifest : CheckpointManifest)
      → IsValid s
      → IsBounded (publish_manifest s version manifest)
        × ((v : ℕ)
            → contains v (keys (publish_manifest s version manifest).manifests) ≡ true
            → get_manifest (publish_manifest s version manifest) v
              ≡ (if version == v then some manifest else get_manifest s v))
        × ((v w : ℕ)
            → contains v (keys (publish_manifest s version manifest).manifests) ≡ true
            → (w ≡ version) ⊎ (contains w (keys s.manifests) ≡ true)
            → contains w (keys (publish_manifest s version manifest).manifests) ≡ false
            → w ≤ v)
  unfolding publish_manifest get_manifest
  publish_manifest-IsBounded s version manifest h =
      let before = with_manifest s version manifest in
      let r = evict_old-Retains before (with_manifest-IsValid s version manifest h) in
      (
        record { valid = r.valid; bounded = omega (arith, r.bounded, r.retain) },
        λ v c. r.manifest_at v c ∙ lookup-insert version v manifest s.manifests,
        λ v w cv cw nw.
            r.newest_stay v w cv (ground (arith, contains-insert version w manifest s.manifests))
              nw,
      )

  -- With retain_last ≥ 1, a manifest published under a version that no stored one exceeds is kept
  -- and is the latest.
  pub latest_version-publish :
      (s : RelayServer Bytes) (version : ℕ) (manifest : CheckpointManifest)
      → IsValid s
      → 1 ≤ s.retain_last
      → ((w : ℕ) → contains w (keys s.manifests) ≡ true → w ≤ version)
      → (latest_version (publish_manifest s version manifest) ≡ some version)
        × (get_manifest (publish_manifest s version manifest) version ≡ some manifest)
  unfolding publish_manifest latest_version
  latest_version-publish s version manifest h r top =
      let before = with_manifest s version manifest in
      let kept = evict_old-Retains before (with_manifest-IsValid s version manifest h) in
      let present : contains version (keys before.manifests) ≡ true =
        ground (arith, contains-insert version version manifest s.manifests) in
      let greatest : (w : ℕ) → contains w (keys before.manifests) ≡ true → w ≤ version =
        λ w c. ground (arith, contains-insert version w manifest s.manifests, top w) in
      let stays = kept.greatest_stays version r present greatest in
      (
        max_key-eq version (keys (evict_old before).manifests) stays
            (λ w c. greatest w (kept.old w c)),
        kept.manifest_at version stays
            ∙ unfold get_manifest in
              ground (arith, lookup-insert version version manifest s.manifests),
      )
