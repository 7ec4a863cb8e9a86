-- ===== src/Sharder/Shares.antt =====
-- The shares of the stages, and the layers that the whole parts leave.
use panofabric_engine.Prelude.{
  ℕ, zero, suc, ◌+◌, ◌-◌, ◌*◌, ◌≤◌, ◌<◌, ◌≡◌, refl, sym, ap, subst, ◌∙◌, inl, inr, List, [], ◌∷◌,
  map, arith, leb, Bool-cases, leb→le, length, length-map, get_or, set, length-set, take,
  length-take, sum, range_from, All,
}
use panofabric_engine.Prelude.Sort.{sort_desc, length-sort_desc, All-sort_desc}
use panofabric_engine.Sharder.{whole, fraction, bump, apportion}
use native.Mathlib.Nat.{mod-add-div, mod-lt}

mul-mono_left : (a b t : ℕ) → a ≤ b → t * a ≤ t * b
mul-mono_left a b t h = grind arith

cancel : (t a b : ℕ) → 0 < t → t * a < t * b + t → a ≤ b
cancel t a b h lt = elim (Bool-cases (leb a b)) [
  | inl e ↦ leb→le a b e
  | inr e ↦
      let above : b + 1 ≤ a = ground arith in
      absurd (omega (arith, mul-mono_left (b + 1) a t above))
]

-- The whole parts and the fractional parts are the shares.
split :
    (l t : ℕ) (bs : List ℕ)
    → t * sum (map (whole l t) bs) + sum (map (fraction l t) bs) ≡ l * sum bs
split l t [] = omega arith
split l t (b ∷ bs) = omega (arith, mod-add-div (l * b) t, split l t bs)

fractions-lt :
    (l t : ℕ) (bs : List ℕ) → 0 < t → sum (map (fraction l t) bs) + length bs ≤ t * length bs
fractions-lt l t [] h = omega arith
fractions-lt l t (b ∷ bs) h = omega (arith, mod-lt (l * b) h, fractions-lt l t bs h)

-- No more layers are left than there are stages, and the whole parts are not too many.
pub remainder_bounds :
    (l : ℕ) (bs : List ℕ)
    → 0 < sum bs
    → (sum (map (whole l (sum bs)) bs) ≤ l) × (l ≤ sum (map (whole l (sum bs)) bs) + length bs)
remainder_bounds l bs h =
    let t = sum bs in
    let parts = sum (map (whole l t) bs) in
    (
      cancel t parts l h (omega (arith, split l t bs)),
      cancel t l (parts + length bs) h (omega (arith, split l t bs, fractions-lt l t bs h)),
    )

pub sum-set :
    (xs : List ℕ) (i v : ℕ) → i < length xs → sum (set xs i v) + get_or xs i 0 ≡ sum xs + v
sum-set [] i v h = absurd (omega arith)
sum-set (x ∷ xs) zero v h = omega arith
sum-set (x ∷ xs) (suc i) v h = omega (arith, sum-set xs i v (omega arith))

-- Raising counts at positions of the list adds one for each of them.
bump-sum :
    (counts chosen : List ℕ)
    → All (λ i. i < length counts) chosen
    → (sum (bump counts chosen) ≡ sum counts + length chosen)
      × (length (bump counts chosen) ≡ length counts)
unfolding bump
bump-sum counts [] all = (omega arith, refl)
bump-sum counts (i ∷ chosen) all =
    let v = get_or counts i 0 + 1 in
    let same = length-set counts i v in
    let (s, l) =
      bump-sum (set counts i v) chosen (subst (λ n. All (λ j. j < n) chosen) (sym same) all.1) in
    (omega (arith, s, sum-set counts i v all.0), l ∙ same)

All-take {ℓ κ} : {A : Type ℓ} (P : A → Type κ) (n : ℕ) (xs : List A) → All P xs → All P (take n xs)
All-take P zero xs h = tt
All-take P (suc n) [] h = tt
All-take P (suc n) (x ∷ xs) h = (h.0, All-take P n xs h.1)

range_from-lt : (i n m : ℕ) → i + n ≤ m → All (λ j. j < m) (range_from i n)
range_from-lt i zero m h = tt
range_from-lt i (suc n) m h = (omega arith, range_from-lt (i + 1) n m (omega arith))

length-range_from : (i n : ℕ) → length (range_from i n) ≡ n
length-range_from i zero = refl
length-range_from i (suc n) = ap suc (length-range_from (i + 1) n)

-- All layers are dealt out, to as many stages as there are budgets.
pub apportion-sum :
    (l : ℕ) (bs : List ℕ)
    → 0 < sum bs
    → (sum (apportion l bs) ≡ l) × (length (apportion l bs) ≡ length bs)
unfolding apportion
apportion-sum l bs h =
    let counts = map (whole l (sum bs)) bs in
    let key : ℕ → ℕ = λ i. fraction l (sum bs) (get_or bs i 0) in
    let order = sort_desc key (range_from 0 (length bs)) in
    let rem = l - sum counts in
    let (low, high) = remainder_bounds l bs h in
    let size = length-map (whole l (sum bs)) bs in
    let inside : All (λ i. i < length counts) (take rem order) =
      All-take (λ i. i < length counts) rem order
        (All-sort_desc key (λ i. i < length counts) (range_from 0 (length bs))
          (range_from-lt 0 (length bs) (length counts) (omega (arith, size)))) in
    let (s, n) = bump-sum counts (take rem order) inside in
    (
      omega (
        arith,
        s,
        length-take rem order,
        length-sort_desc key (range_from 0 (length bs)),
        length-range_from 0 (length bs),
        low,
        high,
      ),
      n ∙ size,
    )
