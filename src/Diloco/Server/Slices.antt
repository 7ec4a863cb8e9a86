-- ===== src/Diloco/Server/Slices.antt =====
-- The slices of distinct names.
use native.Mathlib.Decide.{dec_lt}
use panofabric_engine.Prelude.{
  ℕ, zero, suc, ◌≤◌, ◌<◌, ◌≡◌, ◌≢◌, refl, sym, ap, ◌∙◌, inl, inr, String, true, List, [], ◌∷◌,
  arith, nat_eq, string_eq, pair_eq, length, get_or, take, drop, take-append-drop, Bool-cases,
}
use panofabric_engine.Prelude.Dict.{contains, Distinct, Disjoint, Distinct-append, contains-append}
use panofabric_engine.Diloco.Fragments.{Range, slice}
use panofabric_engine.Diloco.Fragments.Partition.{IsChain}

-- Slices.
contains-take :
    (k : String) (n : ℕ) (xs : List String) → contains k (take n xs) ≡ true → contains k xs ≡ true
contains-take k n xs h =
    let split = contains-append k (take n xs) (drop n xs) in
    ap (contains k) (sym (take-append-drop n xs)) ∙ split ∙ rw h refl

contains-drop :
    (k : String) (n : ℕ) (xs : List String) → contains k (drop n xs) ≡ true → contains k xs ≡ true
contains-drop k n xs h =
    let split = contains-append k (take n xs) (drop n xs) in
    ap (contains k) (sym (take-append-drop n xs)) ∙ split ∙ ground (arith, h)

contains-slice-take :
    (k : String) (a b : ℕ) (xs : List String)
    → contains k (slice xs (a, b)) ≡ true
    → contains k (take b xs) ≡ true
contains-slice-take k a b xs h = contains-drop k a (take b xs) h

drop-take :
    (c d : ℕ) (xs : List String) (b : ℕ)
    → b ≤ c
    → (k : String) → contains k (drop c (take d xs)) ≡ true
    → contains k (drop b xs) ≡ true
drop-take c d xs zero h k m = contains-take k d xs (contains-drop k c (take d xs) m)
drop-take zero d xs (suc b) h k m = absurd (omega arith)
drop-take (suc c) zero xs (suc b) h k m = unfold contains in cc m
drop-take (suc c) (suc d) [] (suc b) h k m = m
drop-take (suc c) (suc d) (x ∷ xs) (suc b) h k m = drop-take c d xs b (omega arith) k m

-- Ranges that do not overlap cut disjoint names out of distinct ones.
slice-Disjoint :
    (xs : List String) (a b c d : ℕ)
    → Distinct xs
    → b ≤ c
    → Disjoint (slice xs (a, b)) (slice xs (c, d))
slice-Disjoint xs a b c d dist h k m =
    let (dt, dd, apart) = Distinct-append (take b xs) (drop b xs) (rw take-append-drop dist) in
    let out = apart k (contains-slice-take k a b xs m) in
    elim (Bool-cases (contains k (slice xs (c, d)))) [
      | inl e ↦ cc (drop-take c d xs b h k e)
      | inr e ↦ e
    ]

Disjoint-sym : (xs ys : List String) → Disjoint xs ys → Disjoint ys xs
Disjoint-sym xs ys h k m = elim (Bool-cases (contains k xs)) [ inl e ↦ cc (h k e) | inr e ↦ e ]

IsChain-above :
    (a b : ℕ) (rs : List Range) (j : ℕ)
    → IsChain a rs b
    → j < length rs
    → a ≤ (get_or rs j (0, 0)).0
IsChain-above a b [] j h l = elim l [ ]
IsChain-above a b ((lo, hi) ∷ rs) zero h l = omega arith
IsChain-above a b ((lo, hi) ∷ rs) (suc j) h l =
    omega (arith, IsChain-above hi b rs j h.2 (omega arith))

IsChain-ordered :
    (a b : ℕ) (rs : List Range) (i j : ℕ)
    → IsChain a rs b
    → i < j
    → j < length rs
    → (get_or rs i (0, 0)).1 ≤ (get_or rs j (0, 0)).0
IsChain-ordered a b [] i j h l k = elim k [ ]
IsChain-ordered a b ((lo, hi) ∷ rs) i zero h l k = elim l [ ]
IsChain-ordered a b ((lo, hi) ∷ rs) zero (suc j) h l k = IsChain-above hi b rs j h.2 (omega arith)
IsChain-ordered a b ((lo, hi) ∷ rs) (suc i) (suc j) h l k =
    IsChain-ordered hi b rs i j h.2 (omega arith) (omega arith)

pub get_or-ge_length : (rs : List Range) (j : ℕ) → length rs ≤ j → get_or rs j (0, 0) ≡ (0, 0)
get_or-ge_length [] j h = refl
get_or-ge_length (r ∷ rs) zero h = absurd (omega arith)
get_or-ge_length (r ∷ rs) (suc j) h = get_or-ge_length rs j (omega arith)

-- Two fragments of distinct names share no name.
pub fragments-Disjoint :
    (xs : List String) (rs : List Range) (b i j : ℕ)
    → Distinct xs
    → IsChain 0 rs b
    → i ≢ j
    → Disjoint (slice xs (get_or rs i (0, 0))) (slice xs (get_or rs j (0, 0)))
fragments-Disjoint xs rs b i j dist chain apart = elim (dec_lt i j) [
  | yes below ↦ later i j below
  | no above ↦ Disjoint-sym _ _ (later j i (omega arith))
]
  where
    later :
        (i j : ℕ) → i < j → Disjoint (slice xs (get_or rs i (0, 0))) (slice xs (get_or rs j (0, 0)))
    later i j l = elim (dec_lt j (length rs)) [
      | yes inside ↦ slice-Disjoint xs _ _ _ _ dist (IsChain-ordered 0 b rs i j chain l inside)
      | no outside ↦ rw (get_or-ge_length rs j (omega arith)) (λ k m. unfold contains in refl)
    ]
