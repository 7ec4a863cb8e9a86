-- ===== src/Prelude/Sort.antt =====
-- `sorted(xs, key=key, reverse=True)`: the greatest key first, equal keys in their old order.
use mathlib.Core.List.{Perm}
use mathlib.Core.List.Perm
use panofabric_engine.Prelude.Tests.{leb, leb→le, Bool-cases}
use panofabric_engine.Prelude.Lists.{length, All, length-perm}
use Prim.Native.Nat.{ℕ, ◌≤◌}
use mathlib.Core.Path.{◌≡◌}
use mathlib.Core.Logic.{inl, inr}
use mathlib.Core.Bool.{true, false}
use mathlib.Core.List.{List, [], ◌∷◌}
use native.Mathlib.Omega.{arith}

module _ {ℓ} {A : Type ℓ} (key : A → ℕ) where
  unfoldable pub insert_desc : A → List A → List A
  insert_desc x [] = x ∷ []
  insert_desc x (y ∷ ys) = elim (leb (key y) (key x)) [
    | true ↦ x ∷ y ∷ ys
    | false ↦ y ∷ insert_desc x ys
  ]

  unfoldable pub sort_desc : List A → List A
  unfolding insert_desc
  sort_desc [] = []
  sort_desc (x ∷ xs) = insert_desc x (sort_desc xs)

  -- Each element bounds the keys of all that follow it.
  abbrev pub IsDescending : List A → Type 0
  IsDescending [] = Unit
  IsDescending (x ∷ xs) = All (λ y. key y ≤ key x) xs × IsDescending xs

  insert_desc-perm : (x : A) (ys : List A) → Perm (insert_desc x ys) (x ∷ ys)
  unfolding insert_desc
  insert_desc-perm x [] = Perm.refl (x ∷ [])
  insert_desc-perm x (y ∷ ys) = elim (Bool-cases (leb (key y) (key x))) [
    | inl e ↦ rw (e, insert_desc) (Perm.refl (x ∷ y ∷ ys))
    | inr e ↦
        rw (e, insert_desc) (Perm.trans (Perm.cons y (insert_desc-perm x ys)) (Perm.swap x y ys))
  ]

  pub sort_desc-perm : (xs : List A) → Perm (sort_desc xs) xs
  unfolding sort_desc
  sort_desc-perm [] = Perm.refl []
  sort_desc-perm (x ∷ xs) =
      Perm.trans (insert_desc-perm x (sort_desc xs)) (Perm.cons x (sort_desc-perm xs))

  pub length-sort_desc : (xs : List A) → length (sort_desc xs) ≡ length xs
  length-sort_desc xs = length-perm (sort_desc-perm xs)

  All-le_trans : (k m : ℕ) (ys : List A) → k ≤ m → All (λ y. key y ≤ k) ys → All (λ y. key y ≤ m) ys
  All-le_trans k m [] h a = tt
  All-le_trans k m (y ∷ ys) h a = (omega arith, All-le_trans k m ys h a.1)

  All-insert_desc {κ} :
      (P : A → Type κ) (x : A) (ys : List A) → P x → All P ys → All P (insert_desc x ys)
  unfolding insert_desc
  All-insert_desc P x [] h a = (h, tt)
  All-insert_desc P x (y ∷ ys) h a = elim (Bool-cases (leb (key y) (key x))) [
    | inl e ↦ rw (e, insert_desc) (h, a)
    | inr e ↦ rw (e, insert_desc) (a.0, All-insert_desc P x ys h a.1)
  ]

  pub All-sort_desc {κ} : (P : A → Type κ) (xs : List A) → All P xs → All P (sort_desc xs)
  unfolding sort_desc
  All-sort_desc P [] a = tt
  All-sort_desc P (x ∷ xs) a = All-insert_desc P x (sort_desc xs) a.0 (All-sort_desc P xs a.1)

  insert_desc-IsDescending :
      (x : A) (ys : List A) → IsDescending ys → IsDescending (insert_desc x ys)
  unfolding insert_desc
  insert_desc-IsDescending x [] h = (tt, tt)
  insert_desc-IsDescending x (y ∷ ys) h = elim (Bool-cases (leb (key y) (key x))) [
    | inl e ↦
        rw (e, insert_desc) ((leb→le _ _ e, All-le_trans (key y) (key x) ys (leb→le _ _ e) h.0), h)
    | inr e ↦
        rw (e, insert_desc)
          (
            All-insert_desc (λ z. key z ≤ key y) x ys (ground arith) h.0,
            insert_desc-IsDescending x ys h.1,
          )
  ]

  pub sort_desc-IsDescending : (xs : List A) → IsDescending (sort_desc xs)
  unfolding sort_desc
  sort_desc-IsDescending [] = tt
  sort_desc-IsDescending (x ∷ xs) =
      insert_desc-IsDescending x (sort_desc xs) (sort_desc-IsDescending xs)

-- `sorted(xs)` on numbers.
unfoldable pub insert_asc : ℕ → List ℕ → List ℕ
insert_asc x [] = x ∷ []
insert_asc x (y ∷ ys) = elim (leb x y) [ true ↦ x ∷ y ∷ ys | false ↦ y ∷ insert_asc x ys ]

unfoldable pub sort_asc : List ℕ → List ℕ
unfolding insert_asc
sort_asc [] = []
sort_asc (x ∷ xs) = insert_asc x (sort_asc xs)

insert_asc-perm : (x : ℕ) (ys : List ℕ) → Perm (insert_asc x ys) (x ∷ ys)
unfolding insert_asc
insert_asc-perm x [] = Perm.refl (x ∷ [])
insert_asc-perm x (y ∷ ys) = elim (Bool-cases (leb x y)) [
  | inl e ↦ rw (e, insert_asc) (Perm.refl (x ∷ y ∷ ys))
  | inr e ↦ rw (e, insert_asc) (Perm.trans (Perm.cons y (insert_asc-perm x ys)) (Perm.swap x y ys))
]

pub sort_asc-perm : (xs : List ℕ) → Perm (sort_asc xs) xs
unfolding sort_asc
sort_asc-perm [] = Perm.refl []
sort_asc-perm (x ∷ xs) =
    Perm.trans (insert_asc-perm x (sort_asc xs)) (Perm.cons x (sort_asc-perm xs))
