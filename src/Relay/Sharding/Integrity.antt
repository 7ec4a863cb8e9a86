-- ===== src/Relay/Sharding/Integrity.antt =====
-- Reassembly and the manifest's checksums.
use panofabric_engine.Prelude.{
  ℕ, zero, suc, ◌+◌, ◌≡◌, String, some, List, [], ◌∷◌, arith, ◌==◌, string_eq, length, get_elem?,
  Option-cases, Bool-cases, inl, inr,
}
use panofabric_engine.Prelude.Result.{ok, >>=-eq-ok}
use panofabric_engine.Prelude.Dict.{Dict}
use panofabric_engine.Relay.Sharding.{
  Codec, CheckpointManifest, verify_shard, update, merge_shards, reassemble_state_dict,
}

module _ {Tensor Bytes : Type 0} (codec : Codec Tensor Bytes) where
  -- Every shard of the list has its checksum at its place, counted from `idx`.
  abbrev pub Verified : CheckpointManifest → ℕ → List Bytes → Type 0
  Verified manifest idx shards =
      (i : ℕ) (shard : Bytes)
      → get_elem? shards i ≡ some shard
      → get_elem? manifest.shard_checksums (idx + i) ≡ some (codec.sha256 shard)

  verify_shard-checksum :
      (idx : ℕ) (shard : Bytes) (manifest : CheckpointManifest)
      → verify_shard codec idx shard manifest ≡ ok tt
      → get_elem? manifest.shard_checksums idx ≡ some (codec.sha256 shard)
  unfolding verify_shard
  verify_shard-checksum idx shard manifest h =
      elim (Option-cases (get_elem? manifest.shard_checksums idx)) [
        | inl e ↦ ground (arith, e)
        | inr (c, e) ↦ ground (arith, e, string_eq.beq_iff (codec.sha256 shard) c)
      ]

  merge_shards-Verified :
      (idx : ℕ) (shards : List Bytes) (manifest : CheckpointManifest)
      (merged r : Dict String Tensor)
      → merge_shards codec idx shards manifest merged ≡ ok r
      → Verified manifest idx shards
  unfolding merge_shards
  merge_shards-Verified idx [] manifest merged r h = λ i shard e. cc
  merge_shards-Verified idx (shard ∷ shards) manifest merged r h =
      let (u, checked, rest) = >>=-eq-ok (verify_shard codec idx shard manifest) _ h in
      let (sd, loaded, more) = >>=-eq-ok (codec.load shard) _ rest in
      let later = merge_shards-Verified (idx + 1) shards manifest (update codec merged sd) r more in
      λ i b e. check_at i b e (verify_shard-checksum idx shard manifest checked) later
    where
      check_at :
          (i : ℕ) (b : Bytes)
          → get_elem? (shard ∷ shards) i ≡ some b
          → get_elem? manifest.shard_checksums idx ≡ some (codec.sha256 shard)
          → Verified manifest (idx + 1) shards
          → get_elem? manifest.shard_checksums (idx + i) ≡ some (codec.sha256 b)
      check_at zero b e c later = let same : idx + 0 ≡ idx = omega arith in rw same (ground arith)
      check_at (suc i) b e c later =
          let same : idx + suc i ≡ idx + 1 + i = omega arith in rw same (later i b e)

  -- Reassembly succeeds only with as many shards as the manifest names, each with the SHA-256 sum
  -- that the manifest has at its index.
  pub reassemble-Verified :
      (shards : List Bytes) (manifest : CheckpointManifest) (r : Dict String Tensor)
      → reassemble_state_dict codec shards manifest ≡ ok r
      → (length shards ≡ manifest.num_shards)
        × ((i : ℕ) (shard : Bytes)
            → get_elem? shards i ≡ some shard
            → get_elem? manifest.shard_checksums i ≡ some (codec.sha256 shard))
  unfolding reassemble_state_dict
  reassemble-Verified shards manifest r h =
      elim (Bool-cases (length shards == manifest.num_shards)) [
        | inl e ↦ (
          ground arith,
          λ i shard f.
              let same : 0 + i ≡ i = omega arith in
              rw same at (merge_shards-Verified 0 shards manifest [] r (rw e at h) i shard f),
        )
        | inr e ↦ cc (rw e at h)
      ]
