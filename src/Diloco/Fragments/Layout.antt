-- ===== src/Diloco/Fragments/Layout.antt =====
-- Slices by the ranges of a layout, side by side, and their sizes.
use panofabric_engine.Prelude.{
  ℕ, zero, suc, ◌≤◌, ◌≡◌, refl, sym, ap, ◌∙◌, List, [], ◌∷◌, ◌++◌, map, arith, length, sum, take,
  concat, sum-append,
}
use panofabric_engine.Diloco.Fragments.{Range, slice, frag_numels}
use panofabric_engine.Diloco.Fragments.Partition.{IsChain}

IsChain-le : (a b : ℕ) (rs : List Range) → IsChain a rs b → a ≤ b
IsChain-le a b [] h = omega arith
IsChain-le a b ((lo, hi) ∷ rs) h = omega (arith, IsChain-le hi b rs h.2)

module _ {ℓ} {A : Type ℓ} where
  take-all : (xs : List A) → take (length xs) xs ≡ xs
  take-all [] = refl
  take-all (x ∷ xs) = ap (◌∷◌ x) (take-all xs)

  slice-same : (xs : List A) (a : ℕ) → slice xs (a, a) ≡ []
  slice-same xs zero = refl
  slice-same [] (suc a) = refl
  slice-same (x ∷ xs) (suc a) = slice-same xs a

  slice-append :
      (xs : List A) (a m b : ℕ)
      → a ≤ m
      → m ≤ b
      → slice xs (a, m) ++ slice xs (m, b) ≡ slice xs (a, b)
  slice-append xs zero zero b h k = refl
  slice-append xs (suc a) zero b h k = absurd (omega arith)
  slice-append xs a (suc m) zero h k = absurd (omega arith)
  slice-append [] zero (suc m) (suc b) h k = refl
  slice-append [] (suc a) (suc m) (suc b) h k = refl
  slice-append (x ∷ xs) zero (suc m) (suc b) h k =
      ap (◌∷◌ x) (slice-append xs zero m b (omega arith) (omega arith))
  slice-append (x ∷ xs) (suc a) (suc m) (suc b) h k =
      slice-append xs a m b (omega arith) (omega arith)

  concat-slices_from :
      (xs : List A) (a b : ℕ) (rs : List Range)
      → IsChain a rs b
      → concat (map (slice xs) rs) ≡ slice xs (a, b)
  concat-slices_from xs a b [] h = rw h (sym (slice-same xs b))
  concat-slices_from xs a b ((lo, hi) ∷ rs) h =
      rw (h.0, concat-slices_from xs hi b rs h.2)
        (slice-append xs a hi b (omega arith) (IsChain-le hi b rs h.2))

  pub concat-slices :
      (xs : List A) (rs : List Range) → IsChain 0 rs (length xs) → concat (map (slice xs) rs) ≡ xs
  concat-slices xs rs h = concat-slices_from xs 0 (length xs) rs h ∙ take-all xs

sum-frag_numels_from :
    (numels : List ℕ) (rs : List Range)
    → sum (frag_numels numels rs) ≡ sum (concat (map (slice numels) rs))
unfolding frag_numels
sum-frag_numels_from numels [] = refl
sum-frag_numels_from numels (r ∷ rs) = omega (
  arith,
  sum-frag_numels_from numels rs,
  sum-append (slice numels r) (concat (map (slice numels) rs)),
)

-- The sizes of fragments that cover all parameters in order add up to the size of the model: what the
-- fragment pushes and the whole-model buffer are checked against.
pub sum-frag_numels :
    (numels : List ℕ) (rs : List Range)
    → IsChain 0 rs (length numels)
    → sum (frag_numels numels rs) ≡ sum numels
sum-frag_numels numels rs h = sum-frag_numels_from numels rs ∙ ap sum (concat-slices numels rs h)
