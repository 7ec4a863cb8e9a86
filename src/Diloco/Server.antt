-- ===== src/Diloco/Server.antt =====
-- The parameter server's model state: `_commit_step_locked`, `_apply_one`, the snapshot cache and
-- `_snapshot_flat`. A tensor is its elements in the flat wire order. Each function is one section
-- under `self._lock`. What a subclass overrides, and the outer optimizer, are `Hooks`.
pub mod Slices
pub mod Coherence
pub mod Snapshots
use panofabric_engine.Prelude.{
  ℕ, zero, suc, ◌+◌, ◌≡◌, String, Bool, true, false, not, Option, none, some, List, [], ◌∷◌, ◌++◌,
  map, ◌==◌, if◌then◌else◌, Eq, nat_eq, string_eq, pair_eq, length, get_or, concat, ltb,
}
use panofabric_engine.Prelude.Dict.{Dict, keys, lookup, insert, keep_keys, Disjoint, contains}
use panofabric_engine.Diloco.Fragments.{Range, slice}

module _ (F : Type 0) where
  abbrev pub Params : Type 0
  Params = Dict String (List F)

-- An island index; `none` is -1, unknown.
abbrev pub Island : Type 0
Island = Option ℕ

-- The overridable methods, over the state `Opt` of the outer optimizers.
pub record Hooks (F Opt : Type 0) : Type 0 where
  -- The gradient that `_apply_one` commits for a pushed one.
  pub transform : Opt → Params F → Island → Params F
  -- `optimizer.step()` with exactly these gradients set.
  pub step : Island → Opt → Params F → Params F → Opt × Params F
  -- `_snapshot_variant`, and the entry of one name in the dict of `_build_snapshot_locked`.
  pub variant : Island → String
  pub view : Opt → Params F → Island → String → List F

-- What the server relies on.
pub record IsLocal {F Opt : Type 0} (h : Hooks F Opt) : Type 0 where
  -- A gradient is transformed name by name.
  pub transform_keys : (o : Opt) (g : Params F) (i : Island) → keys (h.transform o g i) ≡ keys g
  -- The variant alone decides what an island is sent.
  pub view_variant :
      (o : Opt) (p : Params F) (i j : Island) (n : String)
      → h.variant i ≡ h.variant j
      → h.view o p i n ≡ h.view o p j n
  -- A step leaves the parameters that have no gradient, and their optimizer state, alone.
  pub step_local :
      (o : Opt) (p g : Params F) (i j : Island) (n : String)
      → contains n (keys g) ≡ false
      → h.view (h.step i o p g).0 (h.step i o p g).1 j n ≡ h.view o p j n

pub record Server (F Opt : Type 0) : Type 0 where
  pub param_names : List String
  pub frag_bounds : List Range
  pub num_fragments : ℕ
  pub params : Params F
  pub opt : Opt
  pub revision : ℕ
  pub applied_pushes : ℕ
  pub snapshot_cache : Dict (ℕ × String) (ℕ × List F)

-- `fragment or 0`
abbrev pub or_zero : Option ℕ → ℕ
or_zero none = 0
or_zero (some f) = f

module _ {F Opt : Type 0} where
  -- `_frag_names`; `none` is the whole model.
  unfoldable pub frag_names : Server F Opt → Option ℕ → List String
  frag_names s none = s.param_names
  frag_names s (some f) = slice s.param_names (get_or s.frag_bounds f (0, 0))

module _ {F Opt : Type 0} (h : Hooks F Opt) where
  -- `_commit_step_locked`
  unfoldable pub commit_step : Server F Opt → Params F → ℕ → Island → Server F Opt
  unfolding keep_keys
  commit_step s grads fragment island =
      let (opt', params') = h.step island s.opt s.params grads in
      record s {
        opt = opt';
        params = params';
        revision = s.revision + 1;
        applied_pushes = s.applied_pushes + 1;
        snapshot_cache = keep_keys (λ k. not (k.0 == fragment)) s.snapshot_cache;
      }

  unfoldable pub apply_one : Server F Opt → Params F → ℕ → Island → Server F Opt
  unfolding commit_step
  apply_one s grads fragment island = commit_step s (h.transform s.opt grads island) fragment island

  -- `torch.cat([snap[name] for name in names])`, with the snapshot built now.
  unfoldable pub built_flat : Server F Opt → Island → List String → List F
  built_flat s island names = concat (map (h.view s.opt s.params island) names)

  abbrev pub frag_flat : Server F Opt → ℕ → Island → List F
  frag_flat s f island = built_flat s island (frag_names s (some f))

  -- `_frag_snapshot_locked`
  unfoldable pub frag_snapshot : Server F Opt → ℕ → Island → List F × Server F Opt
  unfolding built_flat frag_names lookup insert
  frag_snapshot s fragment island =
      let cache_key : ℕ × String = (fragment, h.variant island) in
      elim (lookup cache_key s.snapshot_cache) [
        | some (_, flat) ↦ (flat, s)
        | none ↦
            let flat = frag_flat s fragment island in
            (
              flat,
              record s { snapshot_cache = insert cache_key (s.revision, flat) s.snapshot_cache },
            )
      ]

  -- The comprehension over `range(num_fragments)`: `n` fragments from `f` on.
  unfoldable pub frag_snapshots : Server F Opt → ℕ → ℕ → Island → List F × Server F Opt
  unfolding frag_snapshot
  frag_snapshots s f zero island = ([], s)
  frag_snapshots s f (suc n) island =
      let (flat, s') = frag_snapshot s f island in
      let (rest, s'') = frag_snapshots s' (f + 1) n island in (flat ++ rest, s'')

  -- `_snapshot_flat`; the revision that it returns with the buffer is `s.revision`.
  unfoldable pub snapshot_flat : Server F Opt → Option ℕ → Island → List F × Server F Opt
  unfolding frag_snapshot frag_snapshots
  snapshot_flat s (some f) island = frag_snapshot s f island
  snapshot_flat s none island =
      if s.num_fragments == 1
      then frag_snapshot s 0 island
      else frag_snapshots s 0 s.num_fragments island
