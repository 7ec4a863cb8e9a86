-- ===== src/Worker/Blending.antt =====
-- The blend of `fragment_update_alpha`: of a whole model, and of a fragment.
use mathlib.Core.Option
use panofabric_engine.Prelude.{
  ℕ, ◌≡◌, refl, sym, ap, subst, ◌∙◌, String, Bool, true, false, Option, none, some, List, [], ◌∷◌,
  map, length, if◌then◌else◌, string_eq, arith, Bool-cases, inl, inr,
}
use panofabric_engine.Prelude.Dict.{keys, Distinct, lookup}
use panofabric_engine.Diloco.Server.{Params}
use panofabric_engine.Worker.{Answer, Worker, value, names_of, numels_of}
use panofabric_engine.Worker.Adopt.{
  copied, detach_cpu, read_detached, chunks, kept_of, cloned, blended, adopt_global, adopt_fragment,
  apply_dylu,
}
use panofabric_engine.Worker.Adopt.Installs.{or_old, blended_part, install-lookup, keys-chunks}
use panofabric_engine.Worker.Boundary.{kept_local}

module _ {F : Type 0} where
  -- What `_sync` keeps under a name.
  lookup-kept_local :
      (on_cpu : Bool) (model : Params F) (n : String) (p : List F)
      → lookup n model ≡ some p
      → lookup n (map (λ (name, p). (name, detach_cpu on_cpu p)) model) ≡ some (detach_cpu on_cpu p)
  unfolding lookup
  lookup-kept_local on_cpu [] n p e = cc
  lookup-kept_local on_cpu ((j, q) ∷ model) n p e = elim (Bool-cases (string_eq.beq j n)) [
    | inl same ↦ rw same (ap (λ (v : List F). some (detach_cpu on_cpu v)) (ground (arith, e, same)))
    | inr other ↦ rw other (lookup-kept_local on_cpu model n p (rw other at e))
  ]

  read_detached-detach_cpu :
      (on_cpu : Bool) (p c : List F)
      → read_detached (detach_cpu on_cpu p) c ≡ (if on_cpu then c else p)
  read_detached-detach_cpu true p c = refl
  read_detached-detach_cpu false p c = refl

  -- The parts of a whole answer, and those of a fragment.
  abbrev pub parts : Worker F → Option ℕ → Answer F → Params F
  parts w fragment a = chunks (names_of w fragment) (numels_of w fragment) a.flat_params

  parts-Distinct :
      (w : Worker F) (fragment : Option ℕ) (a : Answer F)
      → Distinct (names_of w fragment)
      → length (names_of w fragment) ≡ length (numels_of w fragment)
      → Distinct (keys (parts w fragment a))
  parts-Distinct w fragment a d e =
      subst (λ (k : List String). Distinct k)
        (sym (keys-chunks (names_of w fragment) (numels_of w fragment) a.flat_params e)) d

module _ {F : Type 0} (lerp : List F → List F → List F) where
  -- A `_sync` that blends installs the answer's part `c` of a parameter in the backup, and blends it in the
  -- model: with the trained value `p` if the model is on another device. On the CPU what was kept of
  -- `p` is the parameter's own storage, which holds `c` by then: the result is `c` blended with itself,
  -- and what the worker trained is lost.
  pub adopt_global-blend :
      (w : Worker F) (a : Answer F) (n : String) (p c : List F)
      → Distinct w.param_names
      → length w.param_names ≡ length w.param_numels
      → lookup n w.model ≡ some p
      → lookup n (parts w none a) ≡ some c
      → (let w' = adopt_global lerp w a (some (kept_local w)) in
          (lookup n w'.global_params ≡ some c)
          × (lookup n w'.model ≡ some (lerp c (if w.on_cpu then c else p))))
  unfolding adopt_global apply_dylu
  adopt_global-blend w a n p c d e had part =
      let local = kept_of (some (kept_local w)) in
      let held =
        install-lookup lerp local (parts w none a) w.global_params w.model n
          (parts-Distinct w none a d e) in
      (
        held.0 ∙ rw part refl,
        held.1
            ∙ rw (part, lookup-kept_local w.on_cpu w.model n p had)
                (ap (λ v. some (lerp c v)) (read_detached-detach_cpu w.on_cpu p c)),
      )

  blended-copied :
      (b : Bool) (v c : List F)
      → blended lerp (if b then some (copied v) else none) c ≡ (if b then lerp c v else c)
  blended-copied true v c = refl
  blended-copied false v c = refl

  blended_part-cloned :
      (w : Worker F) (n : String) (part : Option (List F))
      → blended_part lerp (cloned lerp w) n part
        ≡ Option.map (λ c. if w.blends then lerp c (value w.model n) else c) part
  blended_part-cloned w n none = refl
  blended_part-cloned w n (some c) = ap some (blended-copied w.blends (value w.model n) c)

  -- Adopting a fragment installs its parts in the backup and the model, where a blend is with the trained
  -- value on every device, and leaves the parameters of the other fragments alone.
  pub adopt_fragment-lookup :
      (w : Worker F) (fragment : ℕ) (a : Answer F) (n : String)
      → Distinct (names_of w (some fragment))
      → length (names_of w (some fragment)) ≡ length (numels_of w (some fragment))
      → (let w' = adopt_fragment lerp w fragment a in
          let part = lookup n (parts w (some fragment) a) in
          let merged = λ (c : List F). if w.blends then lerp c (value w.model n) else c in
          (lookup n w'.global_params ≡ or_old part (lookup n w.global_params))
          × (lookup n w'.model ≡ or_old (Option.map merged part) (lookup n w.model)))
  unfolding adopt_fragment apply_dylu
  adopt_fragment-lookup w fragment a n d e =
      let held =
        install-lookup lerp (cloned lerp w) (parts w (some fragment) a) w.global_params w.model n
          (parts-Distinct w (some fragment) a d e) in
      (
        held.0,
        held.1
            ∙ ap (λ o. or_old o (lookup n w.model))
                (blended_part-cloned w n (lookup n (parts w (some fragment) a))),
      )
