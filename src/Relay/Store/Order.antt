-- ===== src/Relay/Store/Order.antt =====
-- Greatest elements of lists of versions.
use panofabric_engine.Prelude.{
  ℕ, zero, suc, ◌≤◌, ◌≡◌, ap, true, false, some, List, [], ◌∷◌, arith, leb, if◌then◌else◌, nat_eq,
  take, All,
}
use panofabric_engine.Prelude.Dict.{contains}
use panofabric_engine.Prelude.Sort.{IsDescending}
use panofabric_engine.Relay.Store.{max_from, max_key}

-- In a descending list no element behind the first `n` is greater than one of these.
module _ (v w : ℕ) where
  le-of_All : (k : ℕ) (xs : List ℕ) → All (λ x. x ≤ k) xs → contains w xs ≡ true → w ≤ k
  unfolding contains
  le-of_All k [] a h = cc
  le-of_All k (x ∷ xs) a h = ground (arith, le-of_All k xs a.1)

  contains-take : (n : ℕ) (xs : List ℕ) → contains w (take n xs) ≡ true → contains w xs ≡ true
  unfolding contains
  contains-take zero xs h = cc
  contains-take (suc n) [] h = h
  contains-take (suc n) (x ∷ xs) h = ground (arith, contains-take n xs)

  pub le-of_take :
      (n : ℕ) (xs : List ℕ)
      → IsDescending (λ x. x) xs
      → contains v (take n xs) ≡ true
      → contains w xs ≡ true
      → contains w (take n xs) ≡ false
      → w ≤ v
  unfolding contains
  le-of_take zero xs d hv hw nw = cc
  le-of_take (suc n) [] d hv hw nw = cc
  le-of_take (suc n) (x ∷ xs) d hv hw nw = ground (arith, le-of_All x xs d.0, le-of_take n xs d.1)

-- The greatest element of a descending list stands among its first `n`, for `n` ≥ 1.
pub contains-take_greatest :
    (v n : ℕ) (xs : List ℕ)
    → 1 ≤ n
    → IsDescending (λ x. x) xs
    → contains v xs ≡ true
    → ((w : ℕ) → contains w xs ≡ true → w ≤ v)
    → contains v (take n xs) ≡ true
unfolding contains
contains-take_greatest v zero xs h d hv top = absurd (omega arith)
contains-take_greatest v (suc n) [] h d hv top = hv
contains-take_greatest v (suc n) (x ∷ xs) h d hv top = ground (arith, top x, le-of_All v v x xs d.0)

max_from-eq :
    (v x : ℕ) (xs : List ℕ)
    → contains v (x ∷ xs) ≡ true
    → ((w : ℕ) → contains w (x ∷ xs) ≡ true → w ≤ v)
    → max_from x xs ≡ v
unfolding max_from contains
max_from-eq v x [] h top = ground arith
max_from-eq v x (y ∷ ys) h top =
    let big = if leb y x then x else y in
    max_from-eq v big ys (ground (arith, top x, top y))
      (λ w hw. ground (arith, top w, top x, top y))

pub max_key-eq :
    (v : ℕ) (xs : List ℕ)
    → contains v xs ≡ true
    → ((w : ℕ) → contains w xs ≡ true → w ≤ v)
    → max_key xs ≡ some v
unfolding max_key contains
max_key-eq v [] h top = cc
max_key-eq v (x ∷ xs) h top = ap some (max_from-eq v x xs (unfold contains in h) top)
