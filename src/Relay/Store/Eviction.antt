-- ===== src/Relay/Store/Eviction.antt =====
-- `_evict_old` and the versions that stay.
use panofabric_engine.Prelude.{
  ℕ, ◌≤◌, ◌≡◌, refl, sym, ◌∙◌, inl, inr, true, false, none, List, [], ◌∷◌, arith, leb,
  if◌then◌else◌, nat_eq, length, length-take, Bool-cases,
}
use panofabric_engine.Prelude.Dict.{
  keys, contains, lookup, insert, remove, Distinct, Within-of_contains, length-Within,
  lookup-remove, insert-Distinct, remove-Distinct, length-keys, contains-perm, contains-insert,
  contains-eq-is_some,
}
use panofabric_engine.Prelude.Sort.{sort_desc, sort_desc-perm, sort_desc-IsDescending, IsDescending}
use panofabric_engine.Relay.Sharding.{CheckpointManifest}
use panofabric_engine.Relay.Store.{
  RelayServer, evict_loop, evict_old, newest, get_manifest, set_default,
}
use panofabric_engine.Relay.Store.Order.{le-of_take, contains-take_greatest}

module _ {Bytes : Type 0} where
  -- The versions with a manifest are those with shards, and no version stands twice.
  pub record IsValid (s : RelayServer Bytes) : Type 0 where
    pub distinct : Distinct (keys s.manifests)
    pub same : (v : ℕ) → contains v (keys s.shards) ≡ contains v (keys s.manifests)

  -- What the loop leaves.
  record Evicts (kept versions : List ℕ) (s s' : RelayServer Bytes) : Type 0 where
    retain : s'.retain_last ≡ s.retain_last
    distinct : Distinct (keys s.manifests) → Distinct (keys s'.manifests)
    manifest_at :
        (v : ℕ)
        → lookup v s'.manifests ≡ (
            if contains v versions
            then (if contains v kept then lookup v s.manifests else none)
            else lookup v s.manifests)
    shards_at :
        (v : ℕ)
        → lookup v s'.shards ≡ (
            if contains v versions
            then (if contains v kept then lookup v s.shards else none)
            else lookup v s.shards)

  evict_loop-Evicts :
      (kept versions : List ℕ) (s : RelayServer Bytes)
      → Evicts kept versions s (evict_loop kept versions s)
  unfolding evict_loop contains
  evict_loop-Evicts kept [] s = record {
    retain = refl;
    distinct = λ d. d;
    manifest_at = λ v. refl;
    shards_at = λ v. refl;
  }
  evict_loop-Evicts kept (version ∷ versions) s = elim (Bool-cases (contains version kept)) [
    | inl e ↦
        let later = evict_loop-Evicts kept versions s in
        rw (e, evict_loop)
          (record {
            retain = later.retain;
            distinct = later.distinct;
            manifest_at = λ v. ground (arith, later.manifest_at v);
            shards_at = λ v. ground (arith, later.shards_at v);
          })
    | inr e ↦
        let dropped : RelayServer Bytes = record s {
          manifests = remove version s.manifests;
          shards = remove version s.shards;
        } in
        let later = evict_loop-Evicts kept versions dropped in
        rw (e, evict_loop)
          (record {
            retain = later.retain;
            distinct = λ d. later.distinct (remove-Distinct version s.manifests d);
            manifest_at =
                λ v. ground (arith, later.manifest_at v, lookup-remove version v s.manifests);
            shards_at = λ v. ground (arith, later.shards_at v, lookup-remove version v s.shards);
          })
  ]

  -- The state after a publication, before the old versions go.
  abbrev pub with_manifest : RelayServer Bytes → ℕ → CheckpointManifest → RelayServer Bytes
  with_manifest s version manifest = record s {
    manifests = insert version manifest s.manifests;
    shards = set_default version s.shards;
  }

  pub with_manifest-IsValid :
      (s : RelayServer Bytes) (version : ℕ) (manifest : CheckpointManifest)
      → IsValid s
      → IsValid (with_manifest s version manifest)
  with_manifest-IsValid s version manifest h = record {
    distinct = insert-Distinct version manifest s.manifests h.distinct;
    same = λ v. ground (
      arith,
      contains-insert version v manifest s.manifests,
      contains-insert version v [] s.shards,
      contains-eq-is_some version s.shards,
      h.same v,
      h.same version,
    );
  }

  -- `_evict_old` keeps the invariant and the readings of what it keeps; what goes is no newer than
  -- what stays, and at most `retain_last` versions stay.
  pub record Retains (s s' : RelayServer Bytes) : Type 0 where
    pub retain : s'.retain_last ≡ s.retain_last
    pub valid : IsValid s'
    pub bounded : length s'.manifests ≤ s.retain_last
    pub old : (v : ℕ) → contains v (keys s'.manifests) ≡ true → contains v (keys s.manifests) ≡ true
    pub manifest_at :
        (v : ℕ) → contains v (keys s'.manifests) ≡ true → get_manifest s' v ≡ get_manifest s v
    pub newest_stay :
        (v w : ℕ)
        → contains v (keys s'.manifests) ≡ true
        → contains w (keys s.manifests) ≡ true
        → contains w (keys s'.manifests) ≡ false
        → w ≤ v
    pub greatest_stays :
        (v : ℕ)
        → 1 ≤ s.retain_last
        → contains v (keys s.manifests) ≡ true
        → ((w : ℕ) → contains w (keys s.manifests) ≡ true → w ≤ v)
        → contains v (keys s'.manifests) ≡ true

  pub evict_old-Retains : (s : RelayServer Bytes) → IsValid s → Retains s (evict_old s)
  unfolding evict_old get_manifest
  evict_old-Retains s h = elim (Bool-cases (leb (length s.manifests) s.retain_last)) [
    | inl e ↦ rw e (record {
      retain = refl;
      valid = h;
      bounded = ground arith;
      old = λ v c. c;
      manifest_at = λ v c. refl;
      newest_stay = λ v w cv cw nw. cc;
      greatest_stays = λ v r c top. c;
    })
    | inr e ↦ rw e (evicted h)
  ]
    where
      sorted : List ℕ
      sorted = sort_desc (λ v. v) (keys s.manifests)

      s' : RelayServer Bytes
      s' = evict_loop (newest s) (keys s.manifests) s

      ev : Evicts (newest s) (keys s.manifests) s s'
      ev = evict_loop-Evicts (newest s) (keys s.manifests) s

      stays :
          (v : ℕ)
          → contains v (keys s'.manifests)
            ≡ (if contains v (newest s) then contains v (keys s.manifests) else false)
      stays v = ground (
        arith,
        ev.manifest_at v,
        contains-eq-is_some v s.manifests,
        contains-eq-is_some v s'.manifests,
      )

      in_sorted : (v : ℕ) → contains v sorted ≡ contains v (keys s.manifests)
      in_sorted v = contains-perm v (sort_desc-perm (λ v. v) (keys s.manifests))

      descending : IsDescending (λ x. x) sorted
      descending = sort_desc-IsDescending (λ v. v) (keys s.manifests)

      evicted : IsValid s → Retains s s'
      evicted h = record {
        retain = ev.retain;
        valid = record {
          distinct = ev.distinct h.distinct;
          same = λ v. ground (
            arith,
            stays v,
            ev.shards_at v,
            contains-eq-is_some v s.shards,
            contains-eq-is_some v s'.shards,
            h.same v,
          );
        };
        bounded = omega (
          arith,
          length-keys s'.manifests,
          length-take s.retain_last sorted,
          length-Within (keys s'.manifests) (newest s) (ev.distinct h.distinct)
              (Within-of_contains (newest s) (keys s'.manifests) (λ v c. ground (arith, stays v))),
        );
        old = λ v c. ground (arith, stays v);
        manifest_at = λ v c. ground (arith, stays v, ev.manifest_at v);
        newest_stay = λ v w cv cw nw.
            le-of_take v w s.retain_last sorted descending (ground (arith, stays v))
              (in_sorted w ∙ cw) (ground (arith, stays w));
        greatest_stays = λ v r c top.
            let kept =
              contains-take_greatest v s.retain_last sorted r descending (in_sorted v ∙ c)
                (λ w cw. top w (sym (in_sorted w) ∙ cw)) in
            ground (arith, stays v);
      }
