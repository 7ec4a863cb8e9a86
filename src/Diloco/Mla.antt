-- ===== src/Diloco/Mla.antt =====
-- panoengine/decentralized/mla.py: `MLAOptimizer`, and `MLAServer`, which is the base class with it.
use panofabric_engine.Prelude.{
  ◌≡◌, refl, ap, ◌∙◌, String, Option, none, some, List, [], ◌∷◌, Option-cases, inl, inr, string_eq,
}
use panofabric_engine.Prelude.Dict.{Dict, contains-lookup, lookup, insert}
use panofabric_engine.Diloco.Server.{Hooks, IsLocal, Params}
use panofabric_engine.Diloco.Optim.{
  Torch, add_tensor, scale, momentum_of, step_all, heloco_one, heloco_step,
}
use panofabric_engine.Diloco.Optim.Loop.{step_all-skips}
use panofabric_engine.Diloco.Optim.Exact.{IsExact, scale-neg_steps}

module _ {F : Type 0} (t : Torch F) where
  -- The update of one parameter.
  unfoldable pub mla_one : F → F → List F → Option (List F) → List F → List F × List F
  unfolding add_tensor
  mla_one lr gamma delta found p =
      let m =
        add_tensor t (scale t gamma (momentum_of t found p)) (scale t (t.sub t.one gamma) delta) in
      (
        m,
        add_tensor t (add_tensor t p (scale t (t.neg (t.mul lr gamma)) m))
            (scale t (t.neg lr) delta),
      )

  -- `MLAOptimizer.step`
  unfoldable pub mla_step :
      F → F → Dict String (List F) → Params F → Params F → Dict String (List F) × Params F
  unfolding mla_one step_all
  mla_step lr gamma state params grads = step_all (mla_one lr gamma) params state grads

  -- `MLAServer`
  unfoldable pub mla_hooks : F → F → Hooks F (Dict String (List F))
  unfolding mla_step lookup
  mla_hooks lr gamma = record {
    transform = λ _ grads _. grads;
    step = λ _ o params grads. mla_step lr gamma o params grads;
    variant = λ _. "";
    view = λ _ params _ name. elim (lookup name params) [ none ↦ [] | some p ↦ p ];
  }

  -- `MLAServer` does what the parameter server relies on.
  pub mla_hooks-IsLocal : (lr gamma : F) → IsLocal (mla_hooks lr gamma)
  unfolding mla_hooks mla_step
  mla_hooks-IsLocal lr gamma = record {
    transform_keys = λ o g i. refl;
    view_variant = λ o p i j n e. refl;
    step_local = λ o p g i j n e.
        ap (λ (r : Option (List F)). elim r as (λ _. List F) [ none ↦ [] | some x ↦ x ])
          (step_all-skips (mla_one lr gamma) p o g n (contains-lookup n g e)).0;
  }

  step_all-same :
      (one two : List F → Option (List F) → List F → List F × List F) (ps state grads : Params F)
      → ((g : List F) (found : Option (List F)) (p : List F) → one g found p ≡ two g found p)
      → step_all one ps state grads ≡ step_all two ps state grads
  unfolding step_all
  step_all-same one two [] state grads same = refl
  step_all-same one two ((name, p) ∷ ps) state grads same =
      elim (Option-cases (lookup name grads)) [
        | inl skipped ↦
            rw (skipped, step_all)
              (ap (λ r. (r.0, (name, p) ∷ r.1)) (step_all-same one two ps state grads same))
        | inr (g, found) ↦
            let (s, q) = two g (lookup name state) p in
            rw (found, step_all)
              (ap
                  (λ (r : List F × List F).
                    let (state', ps') = step_all one ps (insert name r.0 state) grads in
                    (state', (name, r.1) ∷ ps'))
                  (same g (lookup name state) p)
                ∙ ap (λ r. (r.0, (name, q) ∷ r.1))
                    (step_all-same one two ps (insert name s state) grads same))
      ]

  -- In exact arithmetic, a step of `MLAOptimizer` is one of `HeLoCoOptimizer` with the same rate and momentum:
  -- without HeLoCo's corrections the two servers' optimizers agree on every push.
  pub mla_step-eq-heloco_step :
      (lr gamma : F) (state params grads : Params F)
      → IsExact t
      → mla_step lr gamma state params grads ≡ heloco_step t lr gamma state params grads
  unfolding mla_step heloco_step mla_one heloco_one
  mla_step-eq-heloco_step lr gamma state params grads law =
      step_all-same (mla_one lr gamma) (heloco_one t lr gamma) params state grads (λ g found p.
        let m =
          add_tensor t (scale t gamma (momentum_of t found p)) (scale t (t.sub t.one gamma) g) in
        ap (λ q. (m, q)) (scale-neg_steps t law lr gamma p m g))
