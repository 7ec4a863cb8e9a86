-- ===== src/Prelude/Dict/Keys.antt =====
-- Lists of distinct keys: membership by a Boolean test, and how many distinct elements fit.
use panofabric_engine.Prelude.Tests.{Eq, if◌then◌else◌}
use panofabric_engine.Prelude.Lists.{length}
use Prim.Native.Nat.{◌+◌, ◌≤◌}
use mathlib.Core.Path.{◌≡◌, refl, sym, ◌∙◌}
use mathlib.Core.Logic.{∥∥₁_elim}
use mathlib.Core.Bool.{Bool, true, false, Bool-set}
use mathlib.Core.List.{List, [], ◌∷◌, ◌++◌, Perm, Permᴰ}
use native.Mathlib.Omega.{arith}

module _ {ℓ} {K : Type ℓ} ⦃e : Eq K⦄ where
  -- `k in ks`
  unfoldable pub contains : K → List K → Bool
  contains k [] = false
  contains k (j ∷ js) = if e.beq j k then true else contains k js

  -- The keys of a dictionary are distinct.
  abbrev pub Distinct : List K → Type 0
  Distinct [] = Unit
  Distinct (k ∷ ks) = (contains k ks ≡ false) × Distinct ks

  pub contains-append :
      (k : K) (xs ys : List K)
      → contains k (xs ++ ys) ≡ (if contains k xs then true else contains k ys)
  unfolding contains
  contains-append k [] ys = refl
  contains-append k (x ∷ xs) ys = ground (arith, contains-append k xs ys)

  contains-permᴰ : (k : K) {xs ys : List K} → Permᴰ xs ys → contains k xs ≡ contains k ys
  unfolding contains
  contains-permᴰ k Permᴰ.nil = refl
  contains-permᴰ k (Permᴰ.cons e p) = ground (arith, e, contains-permᴰ k p)
  contains-permᴰ k (Permᴰ.swap e f) = ground (arith, e, f)
  contains-permᴰ k (Permᴰ.trans p q) = contains-permᴰ k p ∙ contains-permᴰ k q

  pub contains-perm : (k : K) {xs ys : List K} → Perm xs ys → contains k xs ≡ contains k ys
  contains-perm k p = ∥∥₁_elim p (Bool-set _ _) (contains-permᴰ k)

  -- Every element of the second list is in the first.
  abbrev pub Within : List K → List K → Type 0
  Within ks [] = Unit
  Within ks (x ∷ xs) = (contains x ks ≡ true) × Within ks xs

  pub Within-cons : (k : K) (ks xs : List K) → Within ks xs → Within (k ∷ ks) xs
  unfolding contains
  Within-cons k ks [] h = tt
  Within-cons k ks (x ∷ xs) h = (ground arith, Within-cons k ks xs h.1)

  pub Within-append : (ks xs ys : List K) → Within ks (xs ++ ys) → Within ks xs × Within ks ys
  Within-append ks [] ys h = (tt, h)
  Within-append ks (x ∷ xs) ys h = let both = Within-append ks xs ys h.1 in ((h.0, both.0), both.1)

  -- No element stands in both lists.
  abbrev pub Disjoint : List K → List K → Type ℓ
  Disjoint xs ys = (k : K) → contains k xs ≡ true → contains k ys ≡ false

  pub Distinct-append :
      (xs ys : List K) → Distinct (xs ++ ys) → Distinct xs × Distinct ys × Disjoint xs ys
  unfolding contains
  Distinct-append [] ys h = (tt, h, λ k c. cc)
  Distinct-append (x ∷ xs) ys h =
      let (dx, dy, apart) = Distinct-append xs ys h.1 in
      (
        (ground (arith, contains-append x xs ys), dx),
        dy,
        λ k c. ground (arith, contains-append x xs ys, e.beq_iff x k, apart k),
      )

  pub beq_refl : (k : K) → e.beq k k ≡ true
  beq_refl k = (e.beq_iff k k).1 refl

  pub Within-refl : (ks : List K) → Within ks ks
  unfolding contains
  Within-refl [] = tt
  Within-refl (k ∷ ks) = (rw (beq_refl k), Within-cons k ks ks (Within-refl ks))

  pub Within-contains :
      (k : K) (ks xs : List K) → Within ks xs → contains k xs ≡ true → contains k ks ≡ true
  unfolding contains
  Within-contains k ks [] h c = cc
  Within-contains k ks (x ∷ xs) h c =
      ground (arith, h.0, e.beq_iff x k, Within-contains k ks xs h.1)

  -- The list without the first occurrence.
  discard : K → List K → List K
  discard k [] = []
  discard k (j ∷ js) = if e.beq j k then js else j ∷ discard k js

  length-discard :
      (k : K) (ks : List K) → contains k ks ≡ true → length (discard k ks) + 1 ≡ length ks
  unfolding contains discard
  length-discard k [] h = cc
  length-discard k (j ∷ js) h = ground (arith, length-discard k js)

  contains-discard :
      (k j : K) (ks : List K)
      → contains k ks ≡ true
      → e.beq j k ≡ false
      → contains k (discard j ks) ≡ true
  unfolding contains discard
  contains-discard k j [] h n = cc
  contains-discard k j (i ∷ is) h n =
      ground (arith, e.beq_iff i k, e.beq_iff i j, e.beq_iff j k, contains-discard k j is)

  Within-discard :
      (k : K) (ks xs : List K) → Within ks xs → contains k xs ≡ false → Within (discard k ks) xs
  unfolding contains
  Within-discard k ks [] h n = tt
  Within-discard k ks (x ∷ xs) h n = (
    contains-discard x k ks h.0 (ground (arith, e.beq_iff x k, e.beq_iff k x)),
    Within-discard k ks xs h.1 (ground arith),
  )

  -- Distinct elements of a list are no more than its length.
  pub length-Within : (xs ks : List K) → Distinct xs → Within ks xs → length xs ≤ length ks
  length-Within [] ks d h = omega arith
  length-Within (x ∷ xs) ks d h = omega (
    arith,
    length-discard x ks h.0,
    length-Within xs (discard x ks) d.1 (Within-discard x ks xs h.1 d.0),
  )

  pub Within-of_contains :
      (ks xs : List K) → ((k : K) → contains k xs ≡ true → contains k ks ≡ true) → Within ks xs
  unfolding contains
  Within-of_contains ks [] f = tt
  Within-of_contains ks (x ∷ xs) f =
      (f x (ground (arith, beq_refl x)), Within-of_contains ks xs (λ k h. f k (ground arith)))

  pub Within-subst :
      (ks js xs : List K) → ((k : K) → contains k ks ≡ contains k js) → Within ks xs → Within js xs
  Within-subst ks js [] e h = tt
  Within-subst ks js (x ∷ xs) e h = (sym (e x) ∙ h.0, Within-subst ks js xs e h.1)
