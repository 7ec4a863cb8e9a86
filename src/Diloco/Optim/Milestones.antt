-- ===== src/Diloco/Optim/Milestones.antt =====
-- `DelayedNesterovOptimizer` under pushes of two fragments that take turns.
use panofabric_engine.Prelude.{
  ℕ, ◌+◌, ◌*◌, ◌/◌, ◌%◌, ◌≡◌, refl, sym, ap, subst, ◌∙◌, inl, inr, String, false, Option, none,
  some, List, [], ◌∷◌, Bool-cases, Option-cases, arith, string_eq, nat_eq, All,
}
use panofabric_engine.Prelude.Dict.{Dict, lookup, insert, lookup-insert}
use panofabric_engine.Diloco.Server.{Params}
use panofabric_engine.Diloco.Optim.{
  Torch, Buffers, DelayedNesterov, NesterovState, zeros_like, nesterov_one, is_milestone,
  nesterov_step, step_all,
}
use panofabric_engine.Diloco.Optim.Loop.{step_all-skips}
use native.Mathlib.Nat.{mod-add-div, mul_assoc}

module _ {F : Type 0} (t : Torch F) (c : DelayedNesterov F) where
  -- A tensor of zeros.
  abbrev IsZero : List F → Type 0
  IsZero xs = All (λ x. x ≡ t.zero) xs

  zeros_like-IsZero : (p : List F) → IsZero (zeros_like t p)
  zeros_like-IsZero [] = tt
  zeros_like-IsZero (x ∷ p) = (refl, zeros_like-IsZero p)

  -- The parameter has no momentum buffer, or one of zeros.
  pub record Unmoved (n : String) (state : Dict String (Buffers F)) : Type 0 where
    pub zeros : (b : Buffers F) → lookup n state ≡ some b → IsZero b.m

  nesterov_one-zeros :
      (g p : List F) (found : Option (Buffers F))
      → ((b : Buffers F) → found ≡ some b → IsZero b.m)
      → IsZero (nesterov_one t c false g found p).0.m
  unfolding nesterov_one
  nesterov_one-zeros g p none u = zeros_like-IsZero p
  nesterov_one-zeros g p (some b) u = u b refl

  step_all-Unmoved :
      (n : String) (ps : Params F) (state : Dict String (Buffers F)) (grads : Params F)
      → Unmoved n state
      → Unmoved n (step_all (nesterov_one t c false) ps state grads).0
  unfolding step_all
  step_all-Unmoved n [] state grads u = u
  step_all-Unmoved n ((name, p) ∷ ps) state grads u = elim (Option-cases (lookup name grads)) [
    | inl skipped ↦ rw (skipped, step_all) (step_all-Unmoved n ps state grads u)
    | inr (g, found) ↦
        let s = nesterov_one t c false g (lookup name state) p in
        rw (found, step_all)
          (step_all-Unmoved n ps (insert name s.0 state) grads (record {
            zeros = λ b e. elim (Bool-cases (string_eq.beq name n)) [
              | inl same ↦
                  let at : name ≡ n = (string_eq.beq_iff name n).0 same in
                  let is : s.0 ≡ b = ground (arith, e, same, lookup-insert name n s.0 state) in
                  subst (λ (b : Buffers F). IsZero b.m) is
                    (nesterov_one-zeros g p (lookup name state)
                      (λ b e. u.zeros b (ap (λ k. lookup k state) (sym at) ∙ e)))
              | inr other ↦ u.zeros b (ground (arith, e, other, lookup-insert name n s.0 state))
            ];
          }))
  ]

  -- Rounds of one push of either fragment.
  pub take_turns :
      List (Params F × Params F) → NesterovState F × Params F → NesterovState F × Params F
  unfolding nesterov_step
  take_turns [] (o, p) = (o, p)
  take_turns ((first, second) ∷ rounds) (o, p) =
      let (o', p') = nesterov_step t c o p first in
      take_turns rounds (nesterov_step t c o' p' second)

  -- The second fragment's pushes never name a parameter of the first.
  abbrev Apart : String → List (Params F × Params F) → Type 0
  Apart n rounds = All (λ r. lookup n r.1 ≡ none) rounds

  odd-milestone : (j k : ℕ) → c.nesterov_period ≡ 2 * k → is_milestone t c (2 * j + 1) ≡ false
  odd-milestone j k e = elim (Bool-cases (is_milestone t c (2 * j + 1))) [
    | inl m ↦
        let q = (2 * j + 1) / c.nesterov_period in
        let split : (2 * j + 1) % c.nesterov_period + c.nesterov_period * q ≡ 2 * j + 1 =
          mod-add-div (2 * j + 1) c.nesterov_period in
        let doubled : c.nesterov_period * q ≡ 2 * (k * q) = ap (λ d. d * q) e ∙ mul_assoc 2 k q in
        let none_left : (2 * j + 1) % c.nesterov_period ≡ 0 = (nat_eq.beq_iff _ 0).0 m in
        absurd (omega (arith, split, doubled, none_left))
    | inr m ↦ m
  ]

  -- With an even period and an even count of pushes at the start, a parameter of the fragment that pushes
  -- first never gets momentum, however many rounds are pushed: its buffer `m` is absent or zero
  -- afterwards, as it was before.
  pub take_turns-Unmoved :
      (n : String) (rounds : List (Params F × Params F)) (o : NesterovState F) (p : Params F)
      (half j : ℕ)
      → c.nesterov_period ≡ 2 * half
      → o.push_count ≡ 2 * j
      → Apart n rounds
      → Unmoved n o.state
      → Unmoved n (take_turns rounds (o, p)).0.state
  unfolding take_turns nesterov_step
  take_turns-Unmoved n [] o p half j even start apart u = u
  take_turns-Unmoved n ((first, second) ∷ rounds) o p half j even start apart u =
      let first_step = nesterov_step t c o p first in
      let second_step = nesterov_step t c first_step.0 first_step.1 second in
      take_turns-Unmoved n rounds second_step.0 second_step.1 half (j + 1) even (omega arith)
        apart.1
        (record {
          zeros = λ b e. first_Unmoved.zeros b (sym (skipped first_step.0 first_step.1) ∙ e);
        })
    where
      first_Unmoved : Unmoved n (nesterov_step t c o p first).0.state
      first_Unmoved = rw (start, odd-milestone j half even) (step_all-Unmoved n p o.state first u)

      skipped :
          (o' : NesterovState F) (p' : Params F)
          → lookup n (nesterov_step t c o' p' second).0.state ≡ lookup n o'.state
      skipped o' p' =
          (step_all-skips (nesterov_one t c (is_milestone t c (o'.push_count + 1))) p' o'.state
            second n apart.0).1
