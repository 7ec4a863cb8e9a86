-- ===== src/Worker/Adopt/Installs.antt =====
-- What a worker holds behind an adoption.
use panofabric_engine.Prelude.{
  ℕ, ◌≡◌, refl, sym, ap, ◌∙◌, String, false, Option, none, some, List, [], ◌∷◌, ◌++◌, map, length,
  sum, take, drop, concat, string_eq, take-append-drop, length-append, length-drop, arith,
  Bool-cases, inl, inr,
}
use panofabric_engine.Prelude.Dict.{
  keys, contains, Distinct, lookup, insert, lookup-insert, contains-lookup, contains-key, Within,
  beq_refl,
}
use panofabric_engine.Diloco.Server.{Params}
use panofabric_engine.Worker.{or_empty, value}
use panofabric_engine.Worker.Adopt.{Detached, chunks, blended, install}

abbrev pub or_old {ℓ} : {A : Type ℓ} → Option A → Option A → Option A
or_old none old = old
or_old (some new) old = some new

module _ {F : Type 0} (lerp : List F → List F → List F) (local : String → Option (Detached F)) where
  abbrev pub blended_part : String → Option (List F) → Option (List F)
  blended_part n none = none
  blended_part n (some chunk) = some (blended lerp (local n) chunk)

  -- Every part is in the backup as it came and in the model as it is blended; the rest is as before.
  pub install-lookup :
      (parts globals model : Params F) (n : String)
      → Distinct (keys parts)
      → (lookup n (install lerp local parts (globals, model)).0
          ≡ or_old (lookup n parts) (lookup n globals))
        × (lookup n (install lerp local parts (globals, model)).1
            ≡ or_old (blended_part n (lookup n parts)) (lookup n model))
  unfolding install lookup
  install-lookup [] globals model n d = (refl, refl)
  install-lookup ((j, c) ∷ parts) globals model n d =
      let later =
        install-lookup parts (insert j c globals) (insert j (blended lerp (local j) c) model) n
          d.1 in
      elim (Bool-cases (string_eq.beq j n)) [
        | inl e ↦
            let at : j ≡ n = (string_eq.beq_iff j n).0 e in
            let gone : lookup n parts ≡ none =
              ap (λ i. lookup i parts) (sym at) ∙ contains-lookup j parts d.0 in
            rw e (
              later.0 ∙ rw (gone, lookup-insert, e) refl,
              later.1 ∙ rw (gone, lookup-insert, e) (ap (λ i. some (blended lerp (local i) c)) at),
            )
        | inr e ↦ rw e (later.0 ∙ rw (lookup-insert, e) refl, later.1 ∙ rw (lookup-insert, e) refl)
      ]

  -- The names of the parts read as the parts.
  pub map-value-globals :
      (parts globals model : Params F) (ns : List String)
      → Distinct (keys parts)
      → Within (keys parts) ns
      → map (value (install lerp local parts (globals, model)).0) ns ≡ map (value parts) ns
  map-value-globals parts globals model [] d h = refl
  map-value-globals parts globals model (n ∷ ns) d h =
      let (v, found) = contains-key n parts h.0 in
      rw (map-value-globals parts globals model ns d h.1) (
        let e : lookup n (install lerp local parts (globals, model)).0 ≡ lookup n parts =
          (install-lookup parts globals model n d).0 ∙ rw found refl in
        ap (λ r. or_empty r ∷ map (value parts) ns) e)

  pub map-value-model :
      (parts globals model : Params F) (ns : List String)
      → ((n : String) → local n ≡ none)
      → Distinct (keys parts)
      → Within (keys parts) ns
      → map (value (install lerp local parts (globals, model)).1) ns ≡ map (value parts) ns
  map-value-model parts globals model [] unblended d h = refl
  map-value-model parts globals model (n ∷ ns) unblended d h =
      let (v, found) = contains-key n parts h.0 in
      rw (map-value-model parts globals model ns unblended d h.1) (
        let e : lookup n (install lerp local parts (globals, model)).1 ≡ lookup n parts =
          (install-lookup parts globals model n d).1 ∙ rw (found, unblended n) refl in
        ap (λ r. or_empty r ∷ map (value parts) ns) e)

module _ {F : Type 0} where
  length-zero : (flat : List F) → length flat ≡ 0 → [] ≡ flat
  length-zero [] e = refl
  length-zero (x ∷ flat) e = absurd (omega arith)

  take-append_self : (xs ys : List F) → take (length xs) (xs ++ ys) ≡ xs
  take-append_self [] ys = refl
  take-append_self (x ∷ xs) ys = ap (◌∷◌ x) (take-append_self xs ys)

  drop-append_self : (xs ys : List F) → drop (length xs) (xs ++ ys) ≡ ys
  drop-append_self [] ys = refl
  drop-append_self (x ∷ xs) ys = drop-append_self xs ys

  -- The parts have the names of the layout.
  pub keys-chunks :
      (names : List String) (numels : List ℕ) (flat : List F)
      → length names ≡ length numels
      → keys (chunks names numels flat) ≡ names
  unfolding chunks
  keys-chunks [] numels flat e = refl
  keys-chunks (name ∷ names) [] flat e = absurd (omega arith)
  keys-chunks (name ∷ names) (n ∷ numels) flat e =
      ap (◌∷◌ name) (keys-chunks names numels (drop n flat) (omega arith))

  -- A name that is not asked for can be left out.
  map-value-cons :
      (name : String) (c : List F) (parts : Params F) (ns : List String)
      → contains name ns ≡ false
      → map (value ((name, c) ∷ parts)) ns ≡ map (value parts) ns
  unfolding contains lookup
  map-value-cons name c parts [] h = refl
  map-value-cons name c parts (n ∷ ns) h = elim (Bool-cases (string_eq.beq name n)) [
    | inl e ↦ ground (arith, string_eq.beq_iff name n, string_eq.beq_iff n name, h, e)
    | inr e ↦
        rw (e, value)
          (ap (◌∷◌ (value parts n)) (map-value-cons name c parts ns (ground (arith, h))))
  ]

  -- The parts put together are the buffer.
  pub concat-chunks :
      (names : List String) (numels : List ℕ) (flat : List F)
      → length names ≡ length numels
      → length flat ≡ sum numels
      → Distinct names
      → concat (map (value (chunks names numels flat)) names) ≡ flat
  unfolding chunks lookup
  concat-chunks [] [] flat e s d = length-zero flat (s)
  concat-chunks [] (n ∷ numels) flat e s d = absurd (omega (arith, e))
  concat-chunks (name ∷ names) [] flat e s d = absurd (omega arith)
  concat-chunks (name ∷ names) (n ∷ numels) flat e s d =
      let rest : length (drop n flat) ≡ sum numels = omega (arith, length-drop n flat, s) in
      rw (beq_refl name, value)
        (ap (λ r. take n flat ++ concat r)
            (map-value-cons name (take n flat) (chunks names numels (drop n flat)) names d.0)
          ∙ ap (◌++◌ (take n flat))
              (concat-chunks names numels (drop n flat) (omega (arith, e)) rest d.1)
          ∙ take-append-drop n flat)

  -- Tensors put together and cut by their sizes.
  pub chunks-concat :
      (names : List String) (f : String → List F)
      → chunks names (map (λ name. length (f name)) names) (concat (map f names))
        ≡ map (λ name. (name, f name)) names
  unfolding chunks
  chunks-concat [] f = refl
  chunks-concat (name ∷ names) f =
      rw (take-append_self (f name), drop-append_self (f name), chunks-concat names f) refl

  pub length-concat :
      (names : List String) (f : String → List F)
      → length (concat (map f names)) ≡ sum (map (λ name. length (f name)) names)
  length-concat [] f = refl
  length-concat (name ∷ names) f =
      omega (arith, length-append (f name) (concat (map f names)), length-concat names f)
