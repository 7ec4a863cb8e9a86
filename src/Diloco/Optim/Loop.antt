-- ===== src/Diloco/Optim/Loop.antt =====
-- The optimizers' loop: what it leaves alone.
use panofabric_engine.Prelude.{
  ◌≡◌, refl, ap, ◌∙◌, inl, inr, String, false, Option, none, some, [], ◌∷◌, if◌then◌else◌,
  Option-cases, Bool-cases, arith, string_eq, subst,
}
use panofabric_engine.Prelude.Dict.{
  Dict, keys, contains, Distinct, lookup, insert, lookup-insert, beq_refl,
}
use panofabric_engine.Diloco.Optim.{step_all}

module _ {T S : Type 0} (one : T → Option S → T → S × T) where
  -- A parameter without a gradient keeps its value and its state.
  pub step_all-skips :
      (ps : Dict String T) (state : Dict String S) (grads : Dict String T) (n : String)
      → lookup n grads ≡ none
      → (lookup n (step_all one ps state grads).1 ≡ lookup n ps)
        × (lookup n (step_all one ps state grads).0 ≡ lookup n state)
  unfolding step_all lookup
  step_all-skips [] state grads n e = (refl, refl)
  step_all-skips ((name, p) ∷ ps) state grads n e = elim (Option-cases (lookup name grads)) [
    | inl skipped ↦
        let (kept, same) = step_all-skips ps state grads n e in
        rw (skipped, step_all) (ap (λ r. if string_eq.beq name n then some p else r) kept, same)
    | inr (g, found) ↦
        let r = one g (lookup name state) p in
        let (kept, same) = step_all-skips ps (insert name r.0 state) grads n e in
        let other : string_eq.beq name n ≡ false =
          ground (arith, string_eq.beq_iff name n, e, found, ap (λ k. lookup k grads)) in
        rw (found, step_all) (rw other kept, same ∙ lookup-insert name n r.0 state ∙ rw other refl)
  ]

  -- The names stay.
  pub step_all-keys :
      (ps : Dict String T) (state : Dict String S) (grads : Dict String T)
      → keys (step_all one ps state grads).1 ≡ keys ps
  unfolding step_all
  step_all-keys [] state grads = refl
  step_all-keys ((name, p) ∷ ps) state grads = elim (Option-cases (lookup name grads)) [
    | inl skipped ↦ rw (skipped, step_all) (ap (◌∷◌ name) (step_all-keys ps state grads))
    | inr (g, found) ↦
        rw (found, step_all)
          (ap (◌∷◌ name)
            (step_all-keys ps (insert name (one g (lookup name state) p).0 state) grads))
  ]

  -- The state of what is no parameter.
  step_all-absent :
      (ps : Dict String T) (state : Dict String S) (grads : Dict String T) (n : String)
      → contains n (keys ps) ≡ false
      → lookup n (step_all one ps state grads).0 ≡ lookup n state
  unfolding step_all contains
  step_all-absent [] state grads n e = refl
  step_all-absent ((name, p) ∷ ps) state grads n e = elim (Option-cases (lookup name grads)) [
    | inl skipped ↦ rw (skipped, step_all) (step_all-absent ps state grads n (ground (arith, e)))
    | inr (g, found) ↦
        let s = (one g (lookup name state) p).0 in
        rw (found, step_all)
          (step_all-absent ps (insert name s state) grads n (ground (arith, e))
            ∙ ground (arith, e, lookup-insert name n s state, string_eq.beq_iff name n))
  ]

  step_all-first :
      (name : String) (q : T) (ps : Dict String T) (state : Dict String S) (grads : Dict String T)
      (g : T)
      → contains name (keys ps) ≡ false
      → lookup name grads ≡ some g
      → (lookup name (step_all one ((name, q) ∷ ps) state grads).0
          ≡ some (one g (lookup name state) q).0)
        × (lookup name (step_all one ((name, q) ∷ ps) state grads).1
            ≡ some (one g (lookup name state) q).1)
  unfolding step_all
  step_all-first name q ps state grads g d e =
      let s = (one g (lookup name state) q).0 in
      rw (e, step_all)
        (
          step_all-absent ps (insert name s state) grads name d
              ∙ lookup-insert name name s state
              ∙ rw (beq_refl name) refl,
          rw (lookup, beq_refl name) refl,
        )

  -- A parameter with a gradient.
  pub step_all-at :
      (ps : Dict String T) (state : Dict String S) (grads : Dict String T) (n : String) (g p : T)
      → Distinct (keys ps)
      → lookup n grads ≡ some g
      → lookup n ps ≡ some p
      → (lookup n (step_all one ps state grads).0 ≡ some (one g (lookup n state) p).0)
        × (lookup n (step_all one ps state grads).1 ≡ some (one g (lookup n state) p).1)
  unfolding step_all lookup
  step_all-at [] state grads n g p d e h = cc
  step_all-at ((name, q) ∷ ps) state grads n g p d e h = elim (Bool-cases (string_eq.beq name n)) [
    | inl same ↦
        let at : name ≡ n = (string_eq.beq_iff name n).0 same in
        let value : q ≡ p = ground (arith, h, same) in
        let now =
          subst
            (λ k.
              (lookup k (step_all one ((name, q) ∷ ps) state grads).0
                ≡ some (one g (lookup k state) q).0)
              × (lookup k (step_all one ((name, q) ∷ ps) state grads).1
                  ≡ some (one g (lookup k state) q).1))
            at (step_all-first name q ps state grads g d.0 (ap (λ k. lookup k grads) at ∙ e)) in
        (
          now.0 ∙ ap (λ x. some (one g (lookup n state) x).0) value,
          now.1 ∙ ap (λ x. some (one g (lookup n state) x).1) value,
        )
    | inr other ↦ elim (Option-cases (lookup name grads)) [
      | inl skipped ↦
          let later = step_all-at ps state grads n g p d.1 e (rw other at h) in
          rw (skipped, step_all) (later.0, rw other later.1)
      | inr (g', found) ↦
          let s = (one g' (lookup name state) q).0 in
          let later = step_all-at ps (insert name s state) grads n g p d.1 e (rw other at h) in
          let state_at : lookup n (insert name s state) ≡ lookup n state =
            lookup-insert name n s state ∙ rw other refl in
          rw (found, step_all)
            (
              later.0 ∙ ap (λ r. some (one g r p).0) state_at,
              rw other (later.1 ∙ ap (λ r. some (one g r p).1) state_at),
            )
    ]
  ]
