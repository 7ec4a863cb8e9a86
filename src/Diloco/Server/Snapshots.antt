-- ===== src/Diloco/Server/Snapshots.antt =====
-- `_snapshot_flat` against a snapshot built afresh, and the cache after a commit.
use panofabric_engine.Prelude.{
  ℕ, zero, suc, ◌+◌, ◌≡◌, ◌≢◌, refl, sym, ap, ◌∙◌, inl, inr, String, Option, none, some, List, [],
  ◌∷◌, ◌++◌, map, append-nil, append_assoc, arith, ◌==◌, nat_eq, string_eq, pair_eq, length,
  length-append, get_or, concat, Option-cases, Bool-cases, range_from,
}
use panofabric_engine.Prelude.Dict.{Dict, keys, lookup, Disjoint, contains}
use panofabric_engine.Diloco.Fragments.{slice}
use panofabric_engine.Diloco.Fragments.Layout.{concat-slices}
use panofabric_engine.Diloco.Server.Slices.{fragments-Disjoint, get_or-ge_length}
use panofabric_engine.Diloco.Server.Coherence.{
  IsLayout, IsCoherent, cache_fresh-IsCoherent, commit_step-IsCoherent,
}
use panofabric_engine.Diloco.Server.{
  Hooks, IsLocal, Server, Params, Island, frag_names, commit_step, apply_one, built_flat, frag_flat,
  frag_snapshot, frag_snapshots, snapshot_flat, or_zero,
}

get_or-append_length {ℓ} :
    {A : Type ℓ} (xs : List A) (a d : A) (ys : List A) → get_or (xs ++ a ∷ ys) (length xs) d ≡ a
get_or-append_length [] a d ys = refl
get_or-append_length (x ∷ xs) a d ys = get_or-append_length xs a d ys

-- Reading a list at each of its positions gives the list.
module _ {ℓ κ} {A : Type ℓ} {B : Type κ} (g : A → B) (d : A) (full : List A) where
  map-range_from :
      (k : ℕ) (before xs : List A)
      → full ≡ before ++ xs
      → k ≡ length before
      → map (λ i. g (get_or full i d)) (range_from k (length xs)) ≡ map g xs
  map-range_from k before [] e l = refl
  map-range_from k before (x ∷ xs) e l = cc (
    ap (λ ys. g (get_or ys k d)) e,
    ap (λ i. g (get_or (before ++ x ∷ xs) i d)) l,
    ap g (get_or-append_length before x d xs),
    map-range_from (k + 1) (before ++ x ∷ []) xs (e ∙ sym (append_assoc before (x ∷ []) xs))
        (omega (arith, length-append before (x ∷ []))),
  )

abbrev pub with_cache :
    {F Opt : Type 0} → Server F Opt → Dict (ℕ × String) (ℕ × List F) → Server F Opt
with_cache s c = record s { snapshot_cache = c }

module _ {F Opt : Type 0} (h : Hooks F Opt) where
  built_flat-append :
      (s : Server F Opt) (i : Island) (ns ms : List String)
      → built_flat h s i (ns ++ ms) ≡ built_flat h s i ns ++ built_flat h s i ms
  unfolding built_flat
  built_flat-append s i [] ms = refl
  built_flat-append s i (n ∷ ns) ms =
      ap (◌++◌ (h.view s.opt s.params i n)) (built_flat-append s i ns ms)
      ∙ sym (append_assoc (h.view s.opt s.params i n) _ _)

  -- A snapshot call returns the buffer, and a coherent state that differs from the old one in its
  -- cache alone.
  abbrev pub Snaps : Server F Opt → List F → List F × Server F Opt → Type 0
  Snaps s flat r =
      (c : Dict (ℕ × String) (ℕ × List F)) × (r ≡ (flat, with_cache s c))
      × IsCoherent h (with_cache s c)

  -- The fragments' names side by side are all names.
  all_names :
      (s : Server F Opt)
      → IsLayout s
      → concat (
          map
            (λ i. slice s.param_names (get_or s.frag_bounds i (0, 0)))
            (range_from 0 s.num_fragments))
        ≡ s.param_names
  all_names s l =
      rw
        (
          ← l.count,
          map-range_from (slice s.param_names) (0, 0) s.frag_bounds 0 [] s.frag_bounds refl refl,
        )
        (concat-slices s.param_names s.frag_bounds l.chain)

  -- The names of a push are apart from those of every other fragment.
  covered_apart :
      (s : Server F Opt) (fragment : Option ℕ) (f : ℕ)
      → IsLayout s
      → (fragment ≡ none → s.num_fragments ≡ 1)
      → f ≢ or_zero fragment
      → Disjoint (frag_names s (some f)) (frag_names s fragment)
  unfolding frag_names contains
  covered_apart s (some g) f l whole apart =
      fragments-Disjoint s.param_names s.frag_bounds (length s.param_names) f g l.distinct l.chain
        apart
  covered_apart s none zero l whole apart = absurd (apart refl)
  covered_apart s none (suc f) l whole apart =
      rw (get_or-ge_length s.frag_bounds (suc f) (omega (arith, l.count, whole refl))) (λ k m. cc)

  module _ (law : IsLocal h) where
    frag_snapshot-Snaps :
        (s : Server F Opt) (f : ℕ) (island : Island)
        → IsCoherent h s
        → Snaps s (frag_flat h s f island) (frag_snapshot h s f island)
    unfolding frag_snapshot
    frag_snapshot-Snaps s f island c =
        elim (Option-cases (lookup (f, h.variant island) s.snapshot_cache)) [
          | inl e ↦ (_, rw (e, frag_snapshot), cache_fresh-IsCoherent h law s f s.revision island c)
          | inr ((rev, flat), e) ↦ (
            s.snapshot_cache,
            rw (e, frag_snapshot) (ap (λ b. (b, s)) (c.fresh f _ rev flat island e refl)),
            c,
          )
        ]

    frag_snapshots-Snaps :
        (s : Server F Opt) (c : Dict (ℕ × String) (ℕ × List F)) (f n : ℕ) (island : Island)
        → IsCoherent h (with_cache s c)
        → Snaps s
            (built_flat h s island (concat (map (λ i. frag_names s (some i)) (range_from f n))))
            (frag_snapshots h (with_cache s c) f n island)
    unfolding frag_snapshots built_flat frag_names
    frag_snapshots-Snaps s c f zero island k = (c, refl, k)
    frag_snapshots-Snaps s c f (suc n) island k =
        let (c1, e1, k1) = frag_snapshot-Snaps (with_cache s c) f island k in
        let (c2, e2, k2) = frag_snapshots-Snaps s c1 (f + 1) n island k1 in
        (
          c2,
          rw (e1, frag_snapshots)
              (rw e2 (
                ap (λ b. (b, with_cache s c2))
                  (sym (
                    built_flat-append s island (frag_names s (some f))
                      (concat (map (λ i. frag_names s (some i)) (range_from (f + 1) n))))))),
          k2,
        )

    -- On a partition of the parameter names and a coherent cache, `_snapshot_flat` returns the
    -- current view of every parameter it covers (one fragment's, or the whole model's for any number
    -- of fragments), concatenated in wire order, and changes nothing but the cache, which stays
    -- coherent.
    pub snapshot_flat-eq-built_flat :
        (s : Server F Opt) (fragment : Option ℕ) (island : Island)
        → IsLayout s
        → IsCoherent h s
        → Snaps s
            (built_flat h s island (frag_names s fragment))
            (snapshot_flat h s fragment island)
    unfolding snapshot_flat frag_names
    snapshot_flat-eq-built_flat s (some f) island l k = frag_snapshot-Snaps s f island k
    snapshot_flat-eq-built_flat s none island l k = elim (Bool-cases (s.num_fragments == 1)) [
      | inl e ↦
          let one : s.num_fragments ≡ 1 = ground arith in
          let whole : slice s.param_names (get_or s.frag_bounds 0 (0, 0)) ≡ s.param_names =
            sym (append-nil _)
            ∙ ap
                (λ n.
                  concat (
                    map (λ i. slice s.param_names (get_or s.frag_bounds i (0, 0)))
                      (range_from 0 n)))
                (sym one)
            ∙ all_names s l in
          let (c, r, k') = frag_snapshot-Snaps s 0 island k in
          (
            c,
            rw (e, snapshot_flat) (r ∙ ap (λ ns. (built_flat h s island ns, with_cache s c)) whole),
            k',
          )
      | inr e ↦
          let (c, r, k') = frag_snapshots-Snaps s s.snapshot_cache 0 s.num_fragments island k in
          (
            c,
            rw (e, snapshot_flat)
                (r ∙ ap (λ ns. (built_flat h s island ns, with_cache s c)) (all_names s l)),
            k',
          )
    ]

    -- On a partition and a coherent cache, committing a push over the parameters of its fragment (or
    -- of the whole model, on a server with one fragment) keeps the cache coherent with the new
    -- parameters, moves no name or range, and adds one to the revision and to the applied pushes.
    pub apply_one-IsCoherent :
        (s : Server F Opt) (grads : Params F) (fragment : Option ℕ) (island : Island)
        → IsLayout s
        → IsCoherent h s
        → keys grads ≡ frag_names s fragment
        → (fragment ≡ none → s.num_fragments ≡ 1)
        → IsCoherent h (apply_one h s grads (or_zero fragment) island)
          × IsLayout (apply_one h s grads (or_zero fragment) island)
          × ((apply_one h s grads (or_zero fragment) island).revision ≡ s.revision + 1)
          × ((apply_one h s grads (or_zero fragment) island).applied_pushes ≡ s.applied_pushes + 1)
    unfolding apply_one frag_names
    apply_one-IsCoherent s grads fragment island l k covers whole = (
      commit_step-IsCoherent h law s (h.transform s.opt grads island) (or_zero fragment) island k
          (λ f apart.
            rw (law.transform_keys s.opt grads island, covers)
              (covered_apart s fragment f l whole apart)),
      record { distinct = l.distinct; chain = l.chain; count = l.count },
      unfold commit_step in refl,
      unfold commit_step in refl,
    )
