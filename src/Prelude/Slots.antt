-- ===== src/Prelude/Slots.antt =====
-- Lists as cells at positions: reading and writing the last cell, and any cell.
use panofabric_engine.Prelude.Lists.{length, get_elem?, set, All}
use Prim.Native.Nat.{ℕ, zero, suc, ◌<◌}
use mathlib.Core.Path.{◌≡◌, refl, ap, subst, ◌∙◌}
use mathlib.Core.Logic.{◌⊎◌, inl, inr}
use mathlib.Core.Option.{some}
use mathlib.Core.List.{List, [], ◌∷◌, ◌++◌, map}
use native.Mathlib.Omega.{arith}

module _ {ℓ} {A : Type ℓ} where
  pub get_elem?-last : (xs : List A) (a : A) → get_elem? (xs ++ a ∷ []) (length xs) ≡ some a
  get_elem?-last [] a = refl
  get_elem?-last (x ∷ xs) a = get_elem?-last xs a

  pub set-last : (xs : List A) (a b : A) → set (xs ++ a ∷ []) (length xs) b ≡ xs ++ b ∷ []
  set-last [] a b = refl
  set-last (x ∷ xs) a b = ap (◌∷◌ x) (set-last xs a b)

  -- A position of a list with one more element is the last one or an old one.
  pub get_elem?-snoc :
      (xs : List A) (a : A) (i : ℕ) (b : A)
      → get_elem? (xs ++ a ∷ []) i ≡ some b
      → (b ≡ a)
        ⊎ ((get_elem? xs i ≡ some b)
            × ((v : A) → set (xs ++ a ∷ []) i v ≡ set xs i v ++ a ∷ [])
            × (i < length xs))
  get_elem?-snoc [] a zero b e = inl (ground arith)
  get_elem?-snoc [] a (suc i) b e = cc
  get_elem?-snoc (x ∷ xs) a zero b e = inr (e, λ v. refl, omega arith)
  get_elem?-snoc (x ∷ xs) a (suc i) b e = elim (get_elem?-snoc xs a i b e) [
    | inl same ↦ inl same
    | inr (old, put, less) ↦ inr (old, λ v. ap (◌∷◌ x) (put v), omega arith)
  ]

  pub All-set {κ} :
      (P : A → Type κ) (xs : List A) (i : ℕ) (v : A) → All P xs → P v → All P (set xs i v)
  All-set P [] i v all p = all
  All-set P (x ∷ xs) zero v all p = (p, all.1)
  All-set P (x ∷ xs) (suc i) v all p = (all.0, All-set P xs i v all.1 p)

  pub All-get {κ} :
      (P : A → Type κ) (xs : List A) (i : ℕ) (v : A) → All P xs → get_elem? xs i ≡ some v → P v
  All-get P [] i v all e = cc
  All-get P (x ∷ xs) zero v all e = subst P (ground arith) all.0
  All-get P (x ∷ xs) (suc i) v all e = All-get P xs i v all.1 e

  -- Overwriting an element by one with the same image leaves the images.
  pub map-set_same {κ} :
      {B : Type κ} (f : A → B) (xs : List A) (i : ℕ) (v w : A)
      → get_elem? xs i ≡ some w
      → f v ≡ f w
      → map f (set xs i v) ≡ map f xs
  map-set_same f [] i v w e same = refl
  map-set_same f (x ∷ xs) zero v w e same = ap (λ y. y ∷ map f xs) (same ∙ ap f (ground arith))
  map-set_same f (x ∷ xs) (suc i) v w e same = ap (◌∷◌ (f x)) (map-set_same f xs i v w e same)
