-- ===== src/Diloco/Server/Coherence.antt =====
-- The snapshot cache against the current parameters.
use panofabric_engine.Prelude.{
  ℕ, ◌≡◌, ◌≢◌, refl, sym, ap, ◌∙◌, inl, inr, String, some, List, [], ◌∷◌, map, arith, not, ◌==◌,
  nat_eq, string_eq, pair_eq, length, concat, Bool-cases,
}
use panofabric_engine.Prelude.Dict.{
  keys, contains, lookup, insert, Distinct, Disjoint, lookup-insert, lookup-keep_keys, beq_refl,
}
use panofabric_engine.Diloco.Fragments.Partition.{IsChain}
use panofabric_engine.Diloco.Server.{
  Hooks, IsLocal, Server, Params, Island, frag_names, commit_step, built_flat, frag_flat,
}

-- The fragment table is a partition of the distinct parameter names.
pub record IsLayout {F Opt : Type 0} (s : Server F Opt) : Type 0 where
  pub distinct : Distinct s.param_names
  pub chain : IsChain 0 s.frag_bounds (length s.param_names)
  pub count : length s.frag_bounds ≡ s.num_fragments

module _ {F Opt : Type 0} (h : Hooks F Opt) where
  -- Every cached buffer is what a fresh snapshot of its fragment would be now, for each island of
  -- its variant.
  pub record IsCoherent (s : Server F Opt) : Type 0 where
    pub fresh :
        (f : ℕ) (v : String) (rev : ℕ) (flat : List F) (island : Island)
        → lookup (f, v) s.snapshot_cache ≡ some (rev, flat)
        → h.variant island ≡ v
        → flat ≡ frag_flat h s f island

  module _ (law : IsLocal h) where
    map-view_variant :
        (o : Opt) (p : Params F) (i j : Island) (ns : List String)
        → h.variant i ≡ h.variant j
        → map (h.view o p i) ns ≡ map (h.view o p j) ns
    map-view_variant o p i j [] e = refl
    map-view_variant o p i j (n ∷ ns) e =
        cc (law.view_variant o p i j n e, map-view_variant o p i j ns e)

    -- A step over other names leaves a snapshot as it is.
    map-view_step :
        (o : Opt) (p g : Params F) (i j : Island) (ns : List String)
        → Disjoint ns (keys g)
        → map (h.view (h.step i o p g).0 (h.step i o p g).1 j) ns ≡ map (h.view o p j) ns
    unfolding contains
    map-view_step o p g i j [] d = refl
    map-view_step o p g i j (n ∷ ns) d = cc (
      law.step_local o p g i j n (d n (rw (beq_refl n))),
      map-view_step o p g i j ns (λ k m. d k (ground arith)),
    )

    pub commit_step-IsCoherent :
        (s : Server F Opt) (grads : Params F) (fragment : ℕ) (island : Island)
        → IsCoherent s
        → ((f : ℕ) → f ≢ fragment → Disjoint (frag_names s (some f)) (keys grads))
        → IsCoherent (commit_step h s grads fragment island)
    unfolding commit_step built_flat frag_names
    commit_step-IsCoherent s grads fragment island c apart = record {
      fresh = λ f v rev flat i found same.
          let kept = lookup-keep_keys (λ k. not (k.0 == fragment)) (f, v) s.snapshot_cache in
          elim (Bool-cases (f == fragment)) [
            | inl e ↦ ground (arith, kept, found)
            | inr e ↦
                c.fresh f v rev flat i (ground (arith, kept, found)) same
                ∙ ap concat (
                    sym (
                      map-view_step s.opt s.params grads island i (frag_names s (some f))
                        (apart f (λ g. ground arith))))
          ];
    }

    pub built_flat-variant :
        (s : Server F Opt) (i j : Island) (ns : List String)
        → h.variant i ≡ h.variant j
        → built_flat h s i ns ≡ built_flat h s j ns
    unfolding built_flat
    built_flat-variant s i j ns e = ap concat (map-view_variant s.opt s.params i j ns e)

    pub cache_fresh-IsCoherent :
        (s : Server F Opt) (f rev : ℕ) (island : Island)
        → IsCoherent s
        → IsCoherent (record s {
          snapshot_cache =
              insert (f, h.variant island) (rev, frag_flat h s f island) s.snapshot_cache;
        })
    unfolding built_flat frag_names
    cache_fresh-IsCoherent s f rev island c = record {
      fresh = λ f' v rev' flat i found same.
          let read =
            lookup-insert (f, h.variant island) (f', v) (rev, frag_flat h s f island)
              s.snapshot_cache in
          elim (Bool-cases (pair_eq.beq (f, h.variant island) (f', v))) [
            | inl e ↦
                let built : flat ≡ frag_flat h s f island = ground (arith, read, found, e) in
                let at : (f, h.variant island) ≡ (f', v) = (pair_eq.beq_iff _ _).0 e in
                built
                ∙ built_flat-variant s island i (frag_names s (some f))
                    (ap (λ (k : ℕ × String). k.1) at ∙ sym same)
                ∙ ap (λ g. frag_flat h s g i) (ap (λ (k : ℕ × String). k.0) at)
            | inr e ↦ c.fresh f' v rev' flat i (ground (arith, read, found, e)) same
          ];
    }
