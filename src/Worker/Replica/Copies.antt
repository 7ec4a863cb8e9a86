-- ===== src/Worker/Replica/Copies.antt =====
-- The loop of an adoption with copies of what the model held.
use mathlib.Core.Option
use panofabric_engine.Prelude.{
  ◌≡◌, refl, ap, ◌∙◌, inl, inr, String, Bool, true, false, Option, none, some, List, [], ◌∷◌, map,
  string_eq, if◌then◌else◌, Bool-cases,
}
use panofabric_engine.Prelude.Dict.{Dict, keys, Distinct, lookup, insert}
use panofabric_engine.Diloco.Server.{Params}
use panofabric_engine.Worker.Adopt.{Detached, copied, install, kept_of}
use panofabric_engine.Worker.Adopt.Installs.{install-lookup}

pub lookup-map :
    {A B : Type 0} (g : String → A → B) (d : Dict String A) (n : String)
    → lookup n (map (λ (k, v). (k, g k v)) d) ≡ Option.map (g n) (lookup n d)
unfolding lookup
lookup-map g [] n = refl
lookup-map g ((k, v) ∷ d) n = elim (Bool-cases (string_eq.beq k n)) [
  | inl same ↦ rw same (ap (λ j. some (g j v)) ((string_eq.beq_iff k n).0 same))
  | inr other ↦ rw other (lookup-map g d n)
]

pub keys-map :
    {A B : Type 0} (g : String → A → B) (d : Dict String A)
    → keys (map (λ (k, v). (k, g k v)) d) ≡ keys d
keys-map g [] = refl
keys-map g ((k, v) ∷ d) = ap (◌∷◌ k) (keys-map g d)

module _ {F : Type 0} (lerp : List F → List F → List F) where
  -- The backup does not depend on the model.
  pub install-globals :
      (local local' : String → Option (Detached F)) (parts globals model model' : Params F)
      → (install lerp local parts (globals, model)).0
        ≡ (install lerp local' parts (globals, model')).0
  unfolding install
  install-globals local local' [] globals model model' = refl
  install-globals local local' ((n, c) ∷ parts) globals model model' =
      install-globals local local' parts (insert n c globals) _ _

  abbrev pub merged : Bool → List F → List F → List F
  merged b c p = if b then lerp c p else c

  -- A model behind the loop, with copies kept of what it held.
  pub install-copied :
      (b : Bool) (parts globals model : Params F) (n : String) (c p : List F)
      → Distinct (keys parts)
      → lookup n parts ≡ some c
      → lookup n model ≡ some p
      → lookup n
          (install lerp
            (kept_of (if b then some (map (λ (k, v). (k, copied v)) model) else none))
            parts
            (globals, model)).1
        ≡ some (merged b c p)
  install-copied true parts globals model n c p d part had =
      (install-lookup lerp (kept_of (some (map (λ (k, v). (k, copied v)) model))) parts globals
        model n d).1
      ∙ rw (part, lookup-map (λ _ v. copied v) model n, had) refl
  install-copied false parts globals model n c p d part had =
      (install-lookup lerp (kept_of none) parts globals model n d).1 ∙ rw part refl
