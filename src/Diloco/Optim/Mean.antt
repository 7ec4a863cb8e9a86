-- ===== src/Diloco/Optim/Mean.antt =====
-- `DelayedNesterovOptimizer` over a window of pushes, against standard Nesterov on their average.
use panofabric_engine.Prelude.{
  ℕ, suc, ◌+◌, ◌%◌, ◌<◌, ◌≡◌, refl, sym, ap, subst, ◌∙◌, String, true, false, Option, some, List,
  [], ◌∷◌, length, arith, string_eq, nat_eq,
}
use panofabric_engine.Prelude.Dict.{keys, Distinct, lookup}
use panofabric_engine.Diloco.Server.{Params}
use panofabric_engine.Diloco.Optim.{
  Torch, Buffers, DelayedNesterov, NesterovState, add_tensor, scale, over, negate, zeros_like,
  seeded, nesterov_one, is_milestone, nesterov_step,
}
use panofabric_engine.Diloco.Optim.Loop.{step_all-at, step_all-keys}
use panofabric_engine.Diloco.Optim.Exact.{
  IsExact, add_tensor_assoc, scale-steps, scale-step, scale-zeros,
}
use native.Mathlib.Nat.{mod-add-mod, mod-eq_of_lt, add-mod_right}

module _ {F : Type 0} (t : Torch F) (c : DelayedNesterov F) where
  -- One step of standard Nesterov: the new momentum, and the parameter.
  pub nesterov_once : List F → List F → List F → List F × List F
  unfolding add_tensor
  nesterov_once m p g =
      let m' = add_tensor t (scale t c.momentum m) g in
      (m', add_tensor t p (scale t c.lr (negate t (add_tensor t g (scale t c.momentum m')))))

  -- The sum of tensors, from `acc` on.
  pub total_from : List F → List (List F) → List F
  unfolding add_tensor
  total_from acc [] = acc
  total_from acc (g ∷ gs) = total_from (add_tensor t acc g) gs

  abbrev pub mean_of : List F → List (List F) → List F
  mean_of p gs = over t (total_from (zeros_like t p) gs) (t.of_nat c.nesterov_period)

  -- Pushes one after the other.
  unfoldable pub steps : List (Params F) → NesterovState F × Params F → NesterovState F × Params F
  unfolding nesterov_step
  steps [] s = s
  steps (push ∷ pushes) (o, p) = steps pushes (nesterov_step t c o p push)

  -- The pushes have these gradients for the parameter.
  abbrev pub HaveGradients : String → List (Params F) → List (List F) → Type 0
  HaveGradients n [] [] = Unit
  HaveGradients n [] (g ∷ gs) = ⊥
  HaveGradients n (push ∷ pushes) [] = ⊥
  HaveGradients n (push ∷ pushes) (g ∷ gs) = (lookup n push ≡ some g) × HaveGradients n pushes gs

  module _ (law : IsExact t) (n : String) (p0 m0 : List F) where
    -- Within a window that began at `p0` with the momentum `m0`: the gradients of the window so far sum up to
    -- `acc`, and the parameter has moved by their part of the average.
    record InWindow (acc : List F) (s : NesterovState F × Params F) : Type 0 where
      p : List F
      has : lookup n s.1 ≡ some p
      buffers : seeded t (lookup n s.0.state) p ≡ record { grad_buffer = acc; m = m0 }
      moved :
          p ≡ add_tensor t p0 (scale t c.lr (negate t (over t acc (t.of_nat c.nesterov_period))))
      distinct : Distinct (keys s.1)

    between_lem :
        (acc g p : List F) (found : Option (Buffers F))
        → seeded t found p ≡ record { grad_buffer = acc; m = m0 }
        → nesterov_one t c false g found p ≡ (
          record { grad_buffer = add_tensor t acc g; m = m0 },
          add_tensor t p (scale t c.lr (over t (negate t g) (t.of_nat c.nesterov_period))),
        )
    unfolding nesterov_one
    between_lem acc g p found e =
        ap
          (λ (b : Buffers F). (
            record { grad_buffer = add_tensor t b.grad_buffer g; m = b.m },
            add_tensor t p (scale t c.lr (over t (negate t g) (t.of_nat c.nesterov_period))),
          ))
          e

    abbrev at_milestone : List F → List F → Buffers F → Buffers F × List F
    at_milestone g p b =
        let n = t.of_nat c.nesterov_period in
        let buffer = add_tensor t b.grad_buffer g in
        let m = add_tensor t (scale t c.momentum b.m) (over t buffer n) in
        (
          record { grad_buffer = zeros_like t buffer; m = m },
          add_tensor t p
              (scale t c.lr (negate t (add_tensor t (over t g n) (scale t c.momentum m)))),
        )

    milestone_one :
        (acc g p : List F) (found : Option (Buffers F))
        → seeded t found p ≡ record { grad_buffer = acc; m = m0 }
        → nesterov_one t c true g found p ≡ at_milestone g p (record { grad_buffer = acc; m = m0 })
    unfolding nesterov_one
    milestone_one acc g p found e = ap (at_milestone g p) e

    step-InWindow :
        (acc g : List F) (o : NesterovState F) (ps push : Params F)
        → InWindow acc (o, ps)
        → lookup n push ≡ some g
        → is_milestone t c (o.push_count + 1) ≡ false
        → InWindow (add_tensor t acc g) (nesterov_step t c o ps push)
    unfolding nesterov_step
    step-InWindow acc g o ps push w e between =
        let one = nesterov_one t c (is_milestone t c (o.push_count + 1)) in
        let (state_at, param_at) = step_all-at one ps o.state push n g w.p w.distinct e w.has in
        let now =
          ap (λ b. nesterov_one t c b g (lookup n o.state) w.p) between
          ∙ between_lem acc g w.p (lookup n o.state) w.buffers in
        let moves = scale t c.lr (over t (negate t g) (t.of_nat c.nesterov_period)) in
        record {
          p = add_tensor t w.p moves;
          has = param_at ∙ ap (λ r. some r.1) now;
          buffers =
              ap (λ r. seeded t r (add_tensor t w.p moves)) (state_at ∙ ap (λ r. some r.0) now);
          moved =
              ap (λ v. add_tensor t v moves) w.moved
              ∙ add_tensor_assoc t law p0 _ moves
              ∙ ap (add_tensor t p0) (scale-step t law c.lr (t.of_nat c.nesterov_period) acc g);
          distinct =
              subst (λ (ks : List String). Distinct ks) (sym (step_all-keys one ps o.state push))
                w.distinct;
        }

    milestone_lem :
        (acc g : List F) (o : NesterovState F) (ps push : Params F)
        → InWindow acc (o, ps)
        → lookup n push ≡ some g
        → is_milestone t c (o.push_count + 1) ≡ true
        → (let avg = over t (add_tensor t acc g) (t.of_nat c.nesterov_period) in
            let s = nesterov_step t c o ps push in
            (lookup n s.1 ≡ some (nesterov_once m0 p0 avg).1)
            × (lookup n s.0.state
                ≡ some (record {
                  grad_buffer = zeros_like t (add_tensor t acc g);
                  m = (nesterov_once m0 p0 avg).0;
                })))
    unfolding nesterov_step nesterov_once
    milestone_lem acc g o ps push w e now =
        let one = nesterov_one t c (is_milestone t c (o.push_count + 1)) in
        let (state_at, param_at) = step_all-at one ps o.state push n g w.p w.distinct e w.has in
        let done =
          ap (λ b. nesterov_one t c b g (lookup n o.state) w.p) now
          ∙ milestone_one acc g w.p (lookup n o.state) w.buffers in
        (
          param_at
              ∙ ap (λ r. some r.1) done
              ∙ ap some (
                  ap (λ v. add_tensor t v _) w.moved
                  ∙ add_tensor_assoc t law p0 _ _
                  ∙ ap (add_tensor t p0)
                      (scale-steps t law c.lr (t.of_nat c.nesterov_period) acc g _)),
          state_at ∙ ap (λ r. some r.0) done,
        )

    -- The parameter and its buffers are behind one step of standard Nesterov by the average of `sum`.
    abbrev pub IsOneStep : List F → NesterovState F × Params F → Type 0
    IsOneStep sum s =
        let (m, p) = nesterov_once m0 p0 (over t sum (t.of_nat c.nesterov_period)) in
        (lookup n s.1 ≡ some p)
        × (lookup n s.0.state ≡ some (record { grad_buffer = zeros_like t sum; m = m }))

    remainder :
        (c0 j : ℕ)
        → c0 % c.nesterov_period ≡ 0
        → j < c.nesterov_period
        → (c0 + j) % c.nesterov_period ≡ j
    remainder c0 j start room =
        sym (mod-add-mod c0 c.nesterov_period j)
        ∙ ap (λ r. (r + j) % c.nesterov_period) start
        ∙ ap (λ r. r % c.nesterov_period) (omega arith)
        ∙ mod-eq_of_lt room

    steps-IsOneStep :
        (acc : List F) (gs : List (List F)) (o : NesterovState F) (ps push : Params F)
        (pushes : List (Params F)) (c0 k : ℕ)
        → InWindow acc (o, ps)
        → HaveGradients n (push ∷ pushes) gs
        → c0 % c.nesterov_period ≡ 0
        → o.push_count ≡ c0 + k
        → k + suc (length pushes) ≡ c.nesterov_period
        → IsOneStep (total_from acc gs) (steps (push ∷ pushes) (o, ps))
    unfolding steps total_from
    steps-IsOneStep acc [] o ps push pushes c0 k w h start count whole = absurd h
    steps-IsOneStep acc (g ∷ g' ∷ gs) o ps push [] c0 k w h start count whole = absurd h.1
    steps-IsOneStep acc (g ∷ []) o ps push [] c0 k w h start count whole =
        let all : o.push_count + 1 ≡ c0 + c.nesterov_period = omega (arith, count, whole) in
        let none_left : (o.push_count + 1) % c.nesterov_period ≡ 0 =
          ap (λ r. r % c.nesterov_period) all ∙ add-mod_right c0 c.nesterov_period ∙ start in
        milestone_lem acc g o ps push w h.0 (ground (arith, none_left))
    steps-IsOneStep acc (g ∷ gs) o ps push (next ∷ pushes) c0 k w h start count whole =
        let s = nesterov_step t c o ps push in
        let counted : s.0.push_count ≡ o.push_count + 1 = unfold nesterov_step in refl in
        let part : (o.push_count + 1) % c.nesterov_period ≡ k + 1 =
          ap (λ r. r % c.nesterov_period) (omega (arith, count))
          ∙ remainder c0 (k + 1) start (omega (arith, whole)) in
        steps-IsOneStep (add_tensor t acc g) gs s.0 s.1 next pushes c0 (k + 1)
          (step-InWindow acc g o ps push w h.0 (ground (arith, part))) h.1 start
          (omega (arith, counted, count)) (omega (arith, whole))

  -- In exact arithmetic, a window of `nesterov_period` pushes that each have a gradient for a parameter,
  -- begun when the period divides the count of pushes and the parameter's buffer is empty or zero:
  -- afterwards the parameter and its momentum are those of one step of standard Nesterov by the average of
  -- the gradients, and the buffer is zero again.
  pub steps-mean :
      (law : IsExact t) (n : String) (o : NesterovState F) (ps push : Params F)
      (pushes : List (Params F)) (gs : List (List F)) (p0 m0 : List F)
      → Distinct (keys ps)
      → lookup n ps ≡ some p0
      → seeded t (lookup n o.state) p0 ≡ record { grad_buffer = zeros_like t p0; m = m0 }
      → HaveGradients n (push ∷ pushes) gs
      → o.push_count % c.nesterov_period ≡ 0
      → suc (length pushes) ≡ c.nesterov_period
      → IsOneStep law n p0 m0 (total_from (zeros_like t p0) gs) (steps (push ∷ pushes) (o, ps))
  steps-mean law n o ps push pushes gs p0 m0 d has empty h start whole =
      steps-IsOneStep law n p0 m0 (zeros_like t p0) gs o ps push pushes o.push_count 0
        (record {
          p = p0;
          has = has;
          buffers = empty;
          moved = sym (scale-zeros t law c.lr (t.of_nat c.nesterov_period) p0);
          distinct = d;
        })
        h start (omega arith) (omega (arith, whole))
