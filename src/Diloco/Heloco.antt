-- ===== src/Diloco/Heloco.antt =====
-- `HeLoCoServer`: the correction of a push against the momentum, the look-ahead snapshot, and which
-- island gets which. The heatmap and the correction log are files beside the server and are left out.
pub mod Local
use panofabric_engine.Prelude.{
  ℕ, ◌≡◌, String, Bool, true, false, not, ◌&&◌, ◌||◌, Option, none, some, List, [], ◌∷◌, ◌++◌, map,
  if◌then◌else◌, length, take, drop, nat_eq, string_eq, concat,
}
use panofabric_engine.Prelude.Dict.{Dict, keys, contains, lookup}
use panofabric_engine.Diloco.Server.{Hooks, Params, Island}
use panofabric_engine.Diloco.Optim.{
  Torch, add_tensor, sub_tensor, scale, over, DelayedNesterov, NesterovState, nesterov_step,
  heloco_step,
}

pub record Heloco (F : Type 0) : Type 0 where
  pub lr : F
  pub momentum : F
  pub rho : F
  pub c_ok : F
  pub k_s : F
  pub k_d : F
  pub kappa : F
  pub beta_max : F
  pub eps : F
  -- `none` is all islands.
  pub correction_workers : Option (List ℕ)
  -- `correction_scope == "whole_gradient"`
  pub whole_gradient : Bool
  -- The optimizer of the other islands, with `other_islands_method == "diloco"`.
  pub diloco : Option (DelayedNesterov F)

-- The state of both optimizers.
pub record Momenta (F : Type 0) : Type 0 where
  pub heloco : Dict String (List F)
  pub nesterov : NesterovState F

module _ {F : Type 0} (t : Torch F) (c : Heloco F) where
  abbrev at_most : F → F → F
  at_most bound x = if t.less bound x then bound else x

  abbrev at_least : F → F → F
  at_least bound x = if t.less x bound then bound else x

  -- One block of `block_correct` against its momentum (Eqs. 9-15), before the scaling by rho.
  unfoldable pub correct_block : List F → List F → List F
  unfolding add_tensor sub_tensor
  correct_block delta m =
      let norm_d = t.norm delta in
      let norm_m = t.norm m in
      let safe_d = at_least c.eps norm_d in
      let safe_m = at_least c.eps norm_m in
      let cos_b = t.div (t.dot delta m) (t.mul safe_d safe_m) in
      let conf_b = t.div norm_d (t.add (t.add norm_d (t.mul c.kappa norm_m)) c.eps) in
      let u_hat = over t delta safe_d in
      let v_hat = over t m safe_m in
      let beta_b = at_most c.beta_max (t.mul (t.mul c.k_s (t.neg cos_b)) conf_b) in
      let lambda_b = at_most t.one (t.mul (t.mul c.k_d (t.sub t.one cos_b)) conf_b) in
      let u_mix = add_tensor t (scale t (t.sub t.one lambda_b) u_hat) (scale t lambda_b v_hat) in
      let norm_mix = t.norm u_mix in
      if (t.less norm_d c.eps || t.less norm_m c.eps) || t.greater_equal cos_b c.c_ok
      then delta
      else (if t.less cos_b t.zero
          then sub_tensor t delta (scale t (t.mul (t.mul beta_b cos_b) norm_d) v_hat)
          else (if t.less c.eps norm_mix
              then over t (scale t norm_d u_mix) (at_least c.eps norm_mix)
              else delta))

  abbrev pub corrected : List F → Option (List F) → List F
  corrected delta none = scale t c.rho delta
  corrected delta (some m) = scale t c.rho (correct_block delta m)

  unfoldable pub block_correct : Params F → Dict String (List F) → Params F
  unfolding lookup correct_block
  block_correct [] momentum = []
  block_correct ((name, delta) ∷ grads) momentum =
      (name, corrected delta (lookup name momentum)) ∷ block_correct grads momentum

  -- `torch.zeros_like` for a momentum that is not seeded.
  abbrev momentum_or_zeros : List F → Option (List F) → List F
  momentum_or_zeros delta none = map (λ _. t.zero) delta
  momentum_or_zeros delta (some m) = m

  unfoldable pub flat_momentum : Params F → Dict String (List F) → List F
  unfolding lookup
  flat_momentum [] momentum = []
  flat_momentum ((name, delta) ∷ grads) momentum =
      momentum_or_zeros delta (lookup name momentum) ++ flat_momentum grads momentum

  unfoldable pub flat_gradient : Params F → List F
  flat_gradient [] = []
  flat_gradient ((name, delta) ∷ grads) = delta ++ flat_gradient grads

  -- `all(momentum_buffers.get(n) is None for n in names)`
  unfoldable pub none_seeded : Params F → Dict String (List F) → Bool
  unfolding lookup
  none_seeded [] momentum = true
  none_seeded ((name, delta) ∷ grads) momentum = elim (lookup name momentum) [
    | none ↦ none_seeded grads momentum
    | some _ ↦ false
  ]

  -- The slices of the corrected vector, `corrected_flat[offset : offset + n_el]`.
  unfoldable pub split_like : Params F → List F → Params F
  split_like [] flat = []
  split_like ((name, delta) ∷ grads) flat =
      (name, take (length delta) flat) ∷ split_like grads (drop (length delta) flat)

  unfoldable pub whole_gradient_correct : Params F → Dict String (List F) → Params F
  unfolding flat_momentum flat_gradient none_seeded split_like correct_block
  whole_gradient_correct grads momentum = split_like grads (
      corrected (flat_gradient grads)
        (if none_seeded grads momentum then none else some (flat_momentum grads momentum)))

  unfoldable pub worker_gets_correction : Island → Bool
  unfolding contains
  worker_gets_correction none = true
  worker_gets_correction (some i) = elim c.correction_workers [
    | none ↦ true
    | some is ↦ contains i is
  ]

  unfoldable pub worker_is_diloco : Island → Bool
  unfolding worker_gets_correction
  worker_is_diloco island = elim c.diloco [
    | none ↦ false
    | some _ ↦ not (worker_gets_correction island)
  ]

  unfoldable pub rho_scaled : Params F → Params F
  rho_scaled [] = []
  rho_scaled ((name, delta) ∷ grads) = (name, scale t c.rho delta) ∷ rho_scaled grads

  -- The gradient that `_apply_one` commits.
  unfoldable pub transform : Momenta F → Params F → Island → Params F
  unfolding worker_is_diloco worker_gets_correction rho_scaled whole_gradient_correct block_correct
  transform o grads island =
      if worker_is_diloco island
      then grads
      else (if worker_gets_correction island
          then (if c.whole_gradient
              then whole_gradient_correct grads o.heloco
              else block_correct grads o.heloco)
          else rho_scaled grads)

  unfoldable pub step_by_heloco : Momenta F → Params F → Params F → Momenta F × Params F
  unfolding heloco_step
  step_by_heloco o params grads =
      let (state, params') = heloco_step t c.lr c.momentum o.heloco params grads in
      (record o { heloco = state }, params')

  unfoldable pub step_by_nesterov :
      DelayedNesterov F → Momenta F → Params F → Params F → Momenta F × Params F
  unfolding nesterov_step
  step_by_nesterov d o params grads =
      let (state, params') = nesterov_step t d o.nesterov params grads in
      (record o { nesterov = state }, params')

  -- `optimizer.step()` with the optimizer that the island's pushes are committed through.
  unfoldable pub commit : Island → Momenta F → Params F → Params F → Momenta F × Params F
  unfolding worker_is_diloco step_by_heloco step_by_nesterov
  commit island o params grads = elim c.diloco [
    | none ↦ step_by_heloco o params grads
    | some d ↦
        if worker_is_diloco island
        then step_by_nesterov d o params grads
        else step_by_heloco o params grads
  ]

  unfoldable pub plain : Params F → String → List F
  unfolding lookup
  plain params name = elim (lookup name params) [ none ↦ [] | some p ↦ p ]

  -- One parameter of `_lookahead_snapshot` (Eq. 5).
  unfoldable pub lookahead : Momenta F → Params F → String → List F
  unfolding plain lookup sub_tensor
  lookahead o params name = elim (lookup name o.heloco) [
    | none ↦ plain params name
    | some m ↦
        if t.less t.zero c.momentum
        then sub_tensor t (plain params name) (scale t (t.mul c.lr c.momentum) m)
        else plain params name
  ]

  -- What `HeLoCoServer` overrides.
  unfoldable pub heloco_hooks : Hooks F (Momenta F)
  unfolding worker_is_diloco plain lookahead transform commit
  heloco_hooks = record {
    transform = transform;
    step = commit;
    variant = λ island. if worker_is_diloco island then "diloco" else "heloco";
    view = λ o params island name.
        if worker_is_diloco island then plain params name else lookahead o params name;
  }

-- What the base class does, with `DelayedNesterovOptimizer` as its outer optimizer.
unfoldable pub diloco_hooks : {F : Type 0} → Torch F → DelayedNesterov F → Hooks F (NesterovState F)
unfolding nesterov_step lookup
diloco_hooks t d = record {
  transform = λ _ grads _. grads;
  step = λ _ o params grads. nesterov_step t d o params grads;
  variant = λ _. "";
  view = λ _ params _ name. elim (lookup name params) [ none ↦ [] | some p ↦ p ];
}
