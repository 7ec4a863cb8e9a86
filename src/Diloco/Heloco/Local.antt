-- ===== src/Diloco/Heloco/Local.antt =====
-- What the parameter server relies on, for both kinds of server.
use panofabric_engine.Prelude.{
  ◌+◌, ◌≡◌, refl, ap, ◌∙◌, inl, inr, String, false, Option, none, some, List, [], ◌∷◌, Bool-cases,
  Option-cases, string_eq,
}
use panofabric_engine.Prelude.Dict.{Dict, keys, contains, contains-lookup, lookup}
use panofabric_engine.Diloco.Server.{IsLocal, Params, Island}
use panofabric_engine.Diloco.Optim.{
  Torch, DelayedNesterov, nesterov_step, nesterov_one, is_milestone, heloco_step, heloco_one,
}
use panofabric_engine.Diloco.Optim.Loop.{step_all-skips}
use panofabric_engine.Diloco.Heloco.{
  Heloco, Momenta, block_correct, split_like, whole_gradient_correct, worker_gets_correction,
  worker_is_diloco, rho_scaled, transform, step_by_heloco, step_by_nesterov, commit, plain,
  lookahead, heloco_hooks, diloco_hooks,
}

lookup_missing :
    {A : Type 0} (n : String) (d : Dict String A) → contains n (keys d) ≡ false → lookup n d ≡ none
lookup_missing n d e = contains-lookup n d e

module _ {F : Type 0} (t : Torch F) where
  -- The base class with `DelayedNesterovOptimizer` does what the parameter server relies on: a step
  -- over some parameters leaves what the others send, and one variant is sent to all islands.
  pub diloco_hooks-IsLocal : (d : DelayedNesterov F) → IsLocal (diloco_hooks t d)
  unfolding diloco_hooks nesterov_step
  diloco_hooks-IsLocal d = record {
    transform_keys = λ o g i. refl;
    view_variant = λ o p i j n e. refl;
    step_local = λ o p g i j n e.
        let skips =
          step_all-skips (nesterov_one t d (is_milestone t d (o.push_count + 1))) p o.state g n
            (lookup_missing n g e) in
        ap (λ (r : Option (List F)). elim r as (λ _. List F) [ none ↦ [] | some x ↦ x ]) skips.0;
  }

  module _ (c : Heloco F) where
    block_correct-keys :
        (g : Params F) (m : Dict String (List F)) → keys (block_correct t c g m) ≡ keys g
    unfolding block_correct
    block_correct-keys [] m = refl
    block_correct-keys ((n, x) ∷ g) m = ap (◌∷◌ n) (block_correct-keys g m)

    split_like-keys : (g : Params F) (flat : List F) → keys (split_like t c g flat) ≡ keys g
    unfolding split_like
    split_like-keys [] flat = refl
    split_like-keys ((n, x) ∷ g) flat = ap (◌∷◌ n) (split_like-keys g _)

    rho_scaled-keys : (g : Params F) → keys (rho_scaled t c g) ≡ keys g
    unfolding rho_scaled
    rho_scaled-keys [] = refl
    rho_scaled-keys ((n, x) ∷ g) = ap (◌∷◌ n) (rho_scaled-keys g)

    whole_gradient_correct-keys :
        (g : Params F) (m : Dict String (List F)) → keys (whole_gradient_correct t c g m) ≡ keys g
    unfolding whole_gradient_correct
    whole_gradient_correct-keys g m = split_like-keys g _

    transform-keys :
        (o : Momenta F) (g : Params F) (i : Island) → keys (transform t c o g i) ≡ keys g
    unfolding transform
    transform-keys o g i = elim (Bool-cases (worker_is_diloco t c i)) [
      | inl b ↦ rw (b, transform) refl
      | inr b ↦ elim (Bool-cases (worker_gets_correction t c i)) [
        | inl gets ↦ elim (Bool-cases c.whole_gradient) [
          | inl w ↦ rw (b, gets, w, transform) (whole_gradient_correct-keys g o.heloco)
          | inr w ↦ rw (b, gets, w, transform) (block_correct-keys g o.heloco)
        ]
        | inr gets ↦ rw (b, gets, transform) (rho_scaled-keys g)
      ]
    ]

    -- A step with one optimizer leaves the momentum of the other as it was.
    heloco_step-skips :
        (o : Momenta F) (p g : Params F) (n : String)
        → lookup n g ≡ none
        → (lookup n (step_by_heloco t c o p g).1 ≡ lookup n p)
          × (lookup n (step_by_heloco t c o p g).0.heloco ≡ lookup n o.heloco)
          × ((step_by_heloco t c o p g).0.nesterov ≡ o.nesterov)
    unfolding step_by_heloco heloco_step
    heloco_step-skips o p g n e =
        let s = step_all-skips (heloco_one t c.lr c.momentum) p o.heloco g n e in (s.0, s.1, refl)

    nesterov_step-skips :
        (d : DelayedNesterov F) (o : Momenta F) (p g : Params F) (n : String)
        → lookup n g ≡ none
        → (lookup n (step_by_nesterov t c d o p g).1 ≡ lookup n p)
          × ((step_by_nesterov t c d o p g).0.heloco ≡ o.heloco)
    unfolding step_by_nesterov nesterov_step
    nesterov_step-skips d o p g n e =
        let s =
          step_all-skips (nesterov_one t d (is_milestone t d (o.nesterov.push_count + 1))) p
            o.nesterov.state g n e in
        (s.0, refl)

    commit-skips :
        (i : Island) (o : Momenta F) (p g : Params F) (n : String)
        → lookup n g ≡ none
        → (lookup n (commit t c i o p g).1 ≡ lookup n p)
          × (lookup n (commit t c i o p g).0.heloco ≡ lookup n o.heloco)
    unfolding commit
    commit-skips i o p g n e =
        let (hp, hm, _) = heloco_step-skips o p g n e in
        elim (Option-cases c.diloco) [
          | inl off ↦ rw (off, commit) (hp, hm)
          | inr (d, on) ↦ elim (Bool-cases (worker_is_diloco t c i)) [
            | inl b ↦
                let (np, nm) = nesterov_step-skips d o p g n e in
                rw (on, b, commit) (np, ap (lookup n) nm)
            | inr b ↦ rw (on, b, commit) (hp, hm)
          ]
        ]

    view-skips :
        (o o' : Momenta F) (p p' : Params F) (n : String)
        → lookup n p' ≡ lookup n p
        → lookup n o'.heloco ≡ lookup n o.heloco
        → (plain t c p' n ≡ plain t c p n) × (lookahead t c o' p' n ≡ lookahead t c o p n)
    unfolding plain lookahead
    view-skips o o' p p' n ep em =
        let same : plain t c p' n ≡ plain t c p n = rw (ep, plain) refl in
        (
          same,
          elim (Option-cases (lookup n o.heloco)) [
            | inl none_yet ↦ rw (em ∙ none_yet, none_yet, lookahead) same
            | inr (m, found) ↦ rw (em ∙ found, found, lookahead) (rw same refl)
          ],
        )

    variant_view :
        (o : Momenta F) (p : Params F) (i j : Island) (n : String)
        → (heloco_hooks t c).variant i ≡ (heloco_hooks t c).variant j
        → (heloco_hooks t c).view o p i n ≡ (heloco_hooks t c).view o p j n
    unfolding heloco_hooks
    variant_view o p i j n e = elim (Bool-cases (worker_is_diloco t c i)) [
      | inl bi ↦ elim (Bool-cases (worker_is_diloco t c j)) [
        | inl bj ↦ rw (bi, bj) refl
        | inr bj ↦ cc ((string_eq.beq_iff "diloco" "heloco").1 (rw (bi, bj) at e))
      ]
      | inr bi ↦ elim (Bool-cases (worker_is_diloco t c j)) [
        | inl bj ↦ cc ((string_eq.beq_iff "heloco" "diloco").1 (rw (bi, bj) at e))
        | inr bj ↦ rw (bi, bj) refl
      ]
    ]

    -- So does `HeLoCoServer`, for every setting: its corrections keep the names of a push, the variant
    -- decides between the plain and the look-ahead snapshot, and a commit through either optimizer leaves what
    -- the parameters without a gradient send.
    pub heloco_hooks-IsLocal : IsLocal (heloco_hooks t c)
    unfolding heloco_hooks
    heloco_hooks-IsLocal = record {
      transform_keys = transform-keys;
      view_variant = λ o p i j n e. variant_view o p i j n e;
      step_local = λ o p g i j n e.
          let (ep, em) = commit-skips i o p g n (lookup_missing n g e) in
          let (same_plain, same_ahead) =
            view-skips o (commit t c i o p g).0 p (commit t c i o p g).1 n ep em in
          rw (same_plain, same_ahead) refl;
    }
