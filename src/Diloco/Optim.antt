-- ===== src/Diloco/Optim.antt =====
-- The outer optimizers: the loop over the parameters that have a gradient, `DelayedNesterovOptimizer`
-- and `HeLoCoOptimizer`. The scalar operations are those of the tensor library.
pub mod Loop
pub mod Milestones
pub mod Exact
pub mod Mean
use panofabric_engine.Prelude.{
  ℕ, suc, ◌+◌, ◌%◌, String, Bool, Option, none, some, List, [], ◌∷◌, map, ◌==◌, if◌then◌else◌,
  string_eq,
}
use panofabric_engine.Prelude.Dict.{Dict, lookup, insert}
use panofabric_engine.Diloco.Server.{Params}

-- The tensor library's operations that the optimizers use, on scalars and on whole tensors.
pub record Torch (F : Type 0) : Type 0 where
  pub zero : F
  pub one : F
  pub of_nat : ℕ → F
  pub add : F → F → F
  pub sub : F → F → F
  pub mul : F → F → F
  pub div : F → F → F
  pub neg : F → F
  pub less : F → F → Bool
  -- `x >= y`, which for NaN is not the negation of `x < y`.
  pub greater_equal : F → F → Bool
  pub norm : List F → F
  pub dot : List F → List F → F

module _ {F : Type 0} (t : Torch F) where
  -- Elementwise operations on tensors of one shape.
  unfoldable pub add_tensor : List F → List F → List F
  add_tensor [] ys = []
  add_tensor (x ∷ xs) [] = []
  add_tensor (x ∷ xs) (y ∷ ys) = t.add x y ∷ add_tensor xs ys

  unfoldable pub sub_tensor : List F → List F → List F
  sub_tensor [] ys = []
  sub_tensor (x ∷ xs) [] = []
  sub_tensor (x ∷ xs) (y ∷ ys) = t.sub x y ∷ sub_tensor xs ys

  abbrev pub scale : F → List F → List F
  scale c xs = map (t.mul c) xs

  abbrev pub over : List F → F → List F
  over xs c = map (λ x. t.div x c) xs

  abbrev pub negate : List F → List F
  negate xs = map t.neg xs

  abbrev pub zeros_like : List F → List F
  zeros_like p = map (λ _. t.zero) p

-- `for p in group["params"]: if p.grad is None: continue`, then `one` on the gradient, the state of the
-- parameter if it has one, and the parameter.
unfoldable pub step_all :
    {T S : Type 0}
    → (T → Option S → T → S × T)
    → Dict String T
    → Dict String S
    → Dict String T
    → Dict String S × Dict String T
unfolding lookup insert
step_all one [] state grads = (state, [])
step_all one ((name, p) ∷ ps) state grads = elim (lookup name grads) [
  | none ↦ let (state', ps') = step_all one ps state grads in (state', (name, p) ∷ ps')
  | some g ↦
      let (s, p') = one g (lookup name state) p in
      let (state', ps') = step_all one ps (insert name s state) grads in (state', (name, p') ∷ ps')
]

-- `DelayedNesterovOptimizer`: its group's settings and its state.
pub record DelayedNesterov (F : Type 0) : Type 0 where
  pub lr : F
  pub momentum : F
  pub nesterov_period : ℕ

pub record Buffers (F : Type 0) : Type 0 where
  pub grad_buffer : List F
  pub m : List F

pub record NesterovState (F : Type 0) : Type 0 where
  pub push_count : ℕ
  pub state : Dict String (Buffers F)

module _ {F : Type 0} (t : Torch F) where
  abbrev pub seeded : Option (Buffers F) → List F → Buffers F
  seeded none p = record { grad_buffer = zeros_like t p; m = zeros_like t p }
  seeded (some b) p = b

  -- The update of one parameter.
  unfoldable pub nesterov_one :
      DelayedNesterov F → Bool → List F → Option (Buffers F) → List F → Buffers F × List F
  unfolding add_tensor
  nesterov_one c is_milestone g found p =
      let n = t.of_nat c.nesterov_period in
      let b = seeded found p in
      let buffer = add_tensor t b.grad_buffer g in
      let m = add_tensor t (scale t c.momentum b.m) (over t buffer n) in
      if is_milestone
      then (
        record { grad_buffer = zeros_like t buffer; m = m },
        add_tensor t p (scale t c.lr (negate t (add_tensor t (over t g n) (scale t c.momentum m)))),
      )
      else (
        record { grad_buffer = buffer; m = b.m },
        add_tensor t p (scale t c.lr (over t (negate t g) n)),
      )

  abbrev pub is_milestone : DelayedNesterov F → ℕ → Bool
  is_milestone c count = count % c.nesterov_period == 0

  -- `DelayedNesterovOptimizer.step`
  unfoldable pub nesterov_step :
      DelayedNesterov F → NesterovState F → Params F → Params F → NesterovState F × Params F
  unfolding nesterov_one step_all
  nesterov_step c o params grads =
      let count = o.push_count + 1 in
      let (state, params') =
        step_all (nesterov_one c (is_milestone c count)) params o.state grads in
      (record { push_count = count; state = state }, params')

  abbrev pub momentum_of : Option (List F) → List F → List F
  momentum_of none p = zeros_like t p
  momentum_of (some m) p = m

  -- The update of one parameter by `HeLoCoOptimizer.step` (Eqs. 18-19).
  unfoldable pub heloco_one : F → F → List F → Option (List F) → List F → List F × List F
  unfolding add_tensor
  heloco_one lr mu g found p =
      let m = add_tensor t (scale t mu (momentum_of found p)) (scale t (t.sub t.one mu) g) in
      (m, add_tensor t p (scale t lr (negate t (add_tensor t g (scale t mu m)))))

  unfoldable pub heloco_step :
      F → F → Dict String (List F) → Params F → Params F → Dict String (List F) × Params F
  unfolding heloco_one step_all
  heloco_step lr mu state params grads = step_all (heloco_one lr mu) params state grads
