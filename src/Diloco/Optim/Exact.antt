-- ===== src/Diloco/Optim/Exact.antt =====
-- Tensors under an exact arithmetic.
use panofabric_engine.Prelude.{◌≡◌, refl, List, [], ◌∷◌}
use panofabric_engine.Diloco.Optim.{Torch, add_tensor, scale, over, negate, zeros_like}

-- The laws of a field that the theorems rest on; floats have them up to rounding.
pub record IsExact {F : Type 0} (t : Torch F) : Type 0 where
  pub add_assoc : (x y z : F) → t.add (t.add x y) z ≡ t.add x (t.add y z)
  pub add_comm : (x y : F) → t.add x y ≡ t.add y x
  pub add_zero : (x : F) → t.add x t.zero ≡ x
  pub mul_add : (c x y : F) → t.mul c (t.add x y) ≡ t.add (t.mul c x) (t.mul c y)
  pub mul_assoc : (x y z : F) → t.mul (t.mul x y) z ≡ t.mul x (t.mul y z)
  pub mul_neg : (c x : F) → t.mul c (t.neg x) ≡ t.neg (t.mul c x)
  pub neg_mul : (c x : F) → t.mul (t.neg c) x ≡ t.neg (t.mul c x)
  pub mul_zero : (c : F) → t.mul c t.zero ≡ t.zero
  pub div_add : (x y n : F) → t.div (t.add x y) n ≡ t.add (t.div x n) (t.div y n)
  pub div_zero : (n : F) → t.div t.zero n ≡ t.zero
  pub div_neg : (x n : F) → t.div (t.neg x) n ≡ t.neg (t.div x n)
  pub neg_add : (x y : F) → t.neg (t.add x y) ≡ t.add (t.neg x) (t.neg y)
  pub neg_zero : t.neg t.zero ≡ t.zero

module _ {F : Type 0} (t : Torch F) (law : IsExact t) where
  pub add_tensor_assoc :
      (xs ys zs : List F)
      → add_tensor t (add_tensor t xs ys) zs ≡ add_tensor t xs (add_tensor t ys zs)
  unfolding add_tensor
  add_tensor_assoc [] ys zs = refl
  add_tensor_assoc (x ∷ xs) [] zs = refl
  add_tensor_assoc (x ∷ xs) (y ∷ ys) [] = refl
  add_tensor_assoc (x ∷ xs) (y ∷ ys) (z ∷ zs) = cc (law.add_assoc x y z, add_tensor_assoc xs ys zs)

  -- A step by `-(x / n)` and one by `-(y / n + z)` are one by `-((x + y) / n + z)`.
  pub scale-steps :
      (c n : F) (xs ys zs : List F)
      → add_tensor t
          (scale t c (negate t (over t xs n)))
          (scale t c (negate t (add_tensor t (over t ys n) zs)))
        ≡ scale t c (negate t (add_tensor t (over t (add_tensor t xs ys) n) zs))
  unfolding add_tensor
  scale-steps c n [] ys zs = refl
  scale-steps c n (x ∷ xs) [] zs = refl
  scale-steps c n (x ∷ xs) (y ∷ ys) [] = refl
  scale-steps c n (x ∷ xs) (y ∷ ys) (z ∷ zs) = cc (
    law.mul_add c (t.neg (t.div x n)) (t.neg (t.add (t.div y n) z)),
    law.neg_add (t.div x n) (t.add (t.div y n) z),
    law.add_assoc (t.div x n) (t.div y n) z,
    law.div_add x y n,
    scale-steps c n xs ys zs,
  )

  -- The same without the last part, with the sign inside as the optimizer has it.
  pub scale-step :
      (c n : F) (xs ys : List F)
      → add_tensor t (scale t c (negate t (over t xs n))) (scale t c (over t (negate t ys) n))
        ≡ scale t c (negate t (over t (add_tensor t xs ys) n))
  unfolding add_tensor
  scale-step c n [] ys = refl
  scale-step c n (x ∷ xs) [] = refl
  scale-step c n (x ∷ xs) (y ∷ ys) = cc (
    law.div_neg y n,
    law.mul_add c (t.neg (t.div x n)) (t.neg (t.div y n)),
    law.neg_add (t.div x n) (t.div y n),
    law.div_add x y n,
    scale-step c n xs ys,
  )

  -- A step by nothing.
  pub scale-zeros :
      (c n : F) (p : List F) → add_tensor t p (scale t c (negate t (over t (zeros_like t p) n))) ≡ p
  unfolding add_tensor
  scale-zeros c n [] = refl
  scale-zeros c n (x ∷ p) =
      cc (law.div_zero n, law.neg_zero, law.mul_zero c, law.add_zero x, scale-zeros c n p)

  -- A step by `-(c · d)` times one tensor and by `-c` times another is one by `-(the other + d · the one)`.
  pub scale-neg_steps :
      (c d : F) (p xs ys : List F)
      → add_tensor t (add_tensor t p (scale t (t.neg (t.mul c d)) xs)) (scale t (t.neg c) ys)
        ≡ add_tensor t p (scale t c (negate t (add_tensor t ys (scale t d xs))))
  unfolding add_tensor
  scale-neg_steps c d [] xs ys = refl
  scale-neg_steps c d (p ∷ ps) [] [] = refl
  scale-neg_steps c d (p ∷ ps) [] (y ∷ ys) = refl
  scale-neg_steps c d (p ∷ ps) (x ∷ xs) [] = refl
  scale-neg_steps c d (p ∷ ps) (x ∷ xs) (y ∷ ys) = cc (
    law.add_assoc p (t.mul (t.neg (t.mul c d)) x) (t.mul (t.neg c) y),
    law.add_comm (t.mul (t.neg (t.mul c d)) x) (t.mul (t.neg c) y),
    law.neg_mul (t.mul c d) x,
    law.neg_mul c y,
    law.mul_assoc c d x,
    law.neg_add (t.mul c y) (t.mul c (t.mul d x)),
    law.mul_add c y (t.mul d x),
    law.mul_neg c (t.add y (t.mul d x)),
    scale-neg_steps c d ps xs ys,
  )
