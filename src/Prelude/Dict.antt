-- ===== src/Prelude/Dict.antt =====
-- Python's `dict`: entries in insertion order; a write to a present key keeps its place.
mod Keys
unfoldable pub use Keys.*
use panofabric_engine.Prelude.Tests.{Eq, if◌then◌else◌, Bool-cases}
use panofabric_engine.Prelude.Lists.{length}
use Prim.Native.Nat.{suc, ◌+◌, ◌≤◌}
use mathlib.Core.Path.{◌≡◌, refl, sym, ap, ◌∙◌}
use mathlib.Core.Logic.{inl, inr, ∥∥₁_elim}
use mathlib.Core.Bool.{Bool, true, false, Bool-set}
use mathlib.Core.Option.{Option, none, some}
use mathlib.Core.List.{List, [], ◌∷◌, ◌++◌, Perm, Permᴰ}
use native.Mathlib.Omega.{arith}

abbrev pub Dict {ℓ κ} : Type ℓ → Type κ → Type (ℓ ⊔ κ)
Dict K V = List (K × V)

module _ {ℓ κ} {K : Type ℓ} {V : Type κ} where
  abbrev pub keys : Dict K V → List K
  keys [] = []
  keys ((k, v) ∷ d) = k ∷ keys d

  abbrev pub values : Dict K V → List V
  values [] = []
  values ((k, v) ∷ d) = v ∷ values d

  pub length-keys : (d : Dict K V) → length (keys d) ≡ length d
  length-keys [] = refl
  length-keys ((k, v) ∷ d) = ap suc (length-keys d)

abbrev pub is_some {ℓ} : {A : Type ℓ} → Option A → Bool
is_some none = false
is_some (some a) = true

-- What a conditional comprehension reads.
abbrev pub if_kept {ℓ} : {A : Type ℓ} → (A → Bool) → Option A → Option A
if_kept p none = none
if_kept p (some v) = if p v then some v else none

module _ {ℓ κ} {K : Type ℓ} {V : Type κ} ⦃e : Eq K⦄ where
  -- `d.get(k)`
  unfoldable pub lookup : K → Dict K V → Option V
  lookup k [] = none
  lookup k ((j, v) ∷ d) = if e.beq j k then some v else lookup k d

  -- `d[k] = v`
  unfoldable pub insert : K → V → Dict K V → Dict K V
  insert k v [] = (k, v) ∷ []
  insert k v ((j, w) ∷ d) = if e.beq j k then (j, v) ∷ d else (j, w) ∷ insert k v d

  -- `d.pop(k, None)`
  unfoldable pub remove : K → Dict K V → Dict K V
  remove k [] = []
  remove k ((j, w) ∷ d) = let rest = remove k d in if e.beq j k then rest else (j, w) ∷ rest

  -- `{k: v for k, v in d.items() if p k v}`
  unfoldable pub keep_entries : (K → V → Bool) → Dict K V → Dict K V
  keep_entries p [] = []
  keep_entries p ((j, w) ∷ d) = let rest = keep_entries p d in if p j w then (j, w) ∷ rest else rest

  -- The same with a condition on the key alone.
  unfoldable pub keep_keys : (K → Bool) → Dict K V → Dict K V
  keep_keys p [] = []
  keep_keys p ((j, w) ∷ d) = let rest = keep_keys p d in if p j then (j, w) ∷ rest else rest

  pub lookup-keep_keys :
      (p : K → Bool) (k : K) (d : Dict K V)
      → lookup k (keep_keys p d) ≡ (if p k then lookup k d else none)
  unfolding lookup keep_keys
  lookup-keep_keys p k [] = ground arith
  lookup-keep_keys p k ((j, w) ∷ d) = elim (Bool-cases (e.beq j k)) [
    | inl same ↦ ground (arith, ap p ((e.beq_iff j k).0 same), lookup-keep_keys p k d)
    | inr other ↦ ground (arith, lookup-keep_keys p k d)
  ]

  pub lookup-insert :
      (k j : K) (v : V) (d : Dict K V)
      → lookup j (insert k v d) ≡ (if e.beq k j then some v else lookup j d)
  unfolding lookup insert
  lookup-insert k j v [] = refl
  lookup-insert k j v ((i, w) ∷ d) =
      ground (arith, e.beq_iff k j, e.beq_iff i k, e.beq_iff i j, lookup-insert k j v d)

  pub lookup-remove :
      (k j : K) (d : Dict K V) → lookup j (remove k d) ≡ (if e.beq k j then none else lookup j d)
  unfolding lookup remove
  lookup-remove k j [] = ground arith
  lookup-remove k j ((i, w) ∷ d) =
      ground (arith, e.beq_iff k j, e.beq_iff i k, e.beq_iff i j, lookup-remove k j d)

  pub contains-lookup : (k : K) (d : Dict K V) → contains k (keys d) ≡ false → lookup k d ≡ none
  unfolding contains lookup
  contains-lookup k [] h = refl
  contains-lookup k ((j, w) ∷ d) h = ground (arith, contains-lookup k d)

  pub contains-of_lookup : (k : K) (d : Dict K V) → lookup k d ≡ none → contains k (keys d) ≡ false
  unfolding contains lookup
  contains-of_lookup k [] h = refl
  contains-of_lookup k ((j, w) ∷ d) h = ground (arith, contains-of_lookup k d)

  -- A key is present exactly when a lookup finds it.
  pub contains-eq-is_some : (k : K) (d : Dict K V) → contains k (keys d) ≡ is_some (lookup k d)
  unfolding contains lookup
  contains-eq-is_some k [] = refl
  contains-eq-is_some k ((j, w) ∷ d) = ground (arith, contains-eq-is_some k d)

  pub contains-key :
      (k : K) (d : Dict K V) → contains k (keys d) ≡ true → (v : V) × (lookup k d ≡ some v)
  unfolding contains lookup
  contains-key k [] h = cc
  contains-key k ((j, w) ∷ d) h = elim (Bool-cases (e.beq j k)) [
    | inl same ↦ (w, rw same)
    | inr other ↦ rw other (contains-key k d (rw other at h))
  ]

  pub contains-insert :
      (k j : K) (v : V) (d : Dict K V)
      → contains j (keys (insert k v d)) ≡ (if e.beq k j then true else contains j (keys d))
  unfolding contains insert
  contains-insert k j v [] = refl
  contains-insert k j v ((i, w) ∷ d) =
      ground (arith, e.beq_iff k j, e.beq_iff i k, e.beq_iff i j, contains-insert k j v d)

  pub insert-Distinct :
      (k : K) (v : V) (d : Dict K V) → Distinct (keys d) → Distinct (keys (insert k v d))
  unfolding insert contains
  insert-Distinct k v [] h = (refl, tt)
  insert-Distinct k v ((i, w) ∷ d) h =
      ground
        (arith, contains-insert k i v d, e.beq_iff i k, e.beq_iff k i, insert-Distinct k v d h.1)

  contains-remove :
      (k j : K) (d : Dict K V)
      → contains j (keys d) ≡ false
      → contains j (keys (remove k d)) ≡ false
  unfolding contains remove
  contains-remove k j [] h = refl
  contains-remove k j ((i, w) ∷ d) h = ground (arith, contains-remove k j d)

  pub remove-Distinct : (k : K) (d : Dict K V) → Distinct (keys d) → Distinct (keys (remove k d))
  unfolding remove
  remove-Distinct k [] h = tt
  remove-Distinct k ((i, w) ∷ d) h =
      ground (arith, contains-remove k i d h.0, remove-Distinct k d h.1)

  pub length-insert_le : (k : K) (v : V) (d : Dict K V) → length (insert k v d) ≤ length d + 1
  unfolding insert
  length-insert_le k v [] = omega arith
  length-insert_le k v ((i, w) ∷ d) = ground (arith, length-insert_le k v d)

module _ {ℓ κ} {K : Type ℓ} {V : Type κ} ⦃e : Eq K⦄ where
  contains-keep_entries :
      (p : K → V → Bool) (k : K) (d : Dict K V)
      → contains k (keys d) ≡ false
      → contains k (keys (keep_entries p d)) ≡ false
  unfolding contains keep_entries
  contains-keep_entries p k [] h = refl
  contains-keep_entries p k ((j, w) ∷ d) h = ground (arith, contains-keep_entries p k d)

  pub keep_entries-Distinct :
      (p : K → V → Bool) (d : Dict K V) → Distinct (keys d) → Distinct (keys (keep_entries p d))
  unfolding keep_entries
  keep_entries-Distinct p [] h = tt
  keep_entries-Distinct p ((j, w) ∷ d) h =
      ground (arith, contains-keep_entries p j d h.0, keep_entries-Distinct p d h.1)

  pub lookup-keep_entries :
      (p : K → V → Bool) (k : K) (d : Dict K V)
      → Distinct (keys d)
      → lookup k (keep_entries p d) ≡ if_kept (p k) (lookup k d)
  unfolding lookup keep_entries
  lookup-keep_entries p k [] h = refl
  lookup-keep_entries p k ((j, w) ∷ d) h = elim (Bool-cases (e.beq j k)) [
    | inl same ↦
        let at : j ≡ k = (e.beq_iff j k).0 same in
        ground (
          arith,
          ap (λ i. p i w) at,
          contains-lookup j d h.0,
          ap (λ i. lookup i d) at,
          lookup-keep_entries p k d h.1,
        )
    | inr other ↦ ground (arith, lookup-keep_entries p k d h.1)
  ]

pub ruleset dict_laws = (lookup-insert, lookup-remove)
