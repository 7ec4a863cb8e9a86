-- ===== src/Diloco/Dylu/Bounds.antt =====
-- The recommended window and the pool's percentile.
use mathlib.Core.List.Perm
use panofabric_engine.Prelude.{
  ℕ, zero, suc, ◌-◌, ◌*◌, ◌/◌, ◌≤◌, ◌<◌, ◌≡◌, refl, ◌∙◌, ◌⊎◌, inl, inr, true, List, [], ◌∷◌, map,
  arith, length, length-perm, get_or, nat_eq,
}
use panofabric_engine.Prelude.Dict.{contains, contains-perm}
use panofabric_engine.Prelude.Sort.{sort_asc, sort_asc-perm}
use panofabric_engine.Diloco.Dylu.{
  Dylu, percentile, percentile_index, pool_speed, expire, dylu_steps,
}

div_mono : (a b p : ℕ) → a ≤ b → a / p ≤ b / p
div_mono a b p h = grind arith

mul_mono : (a b p : ℕ) → a ≤ b → a * p ≤ b * p
mul_mono a b p h = grind arith

div-full : (a p : ℕ) → 0 < p → p ≤ a → 1 ≤ a / p
div-full a p h k = grind arith

le-div : (a p n : ℕ) → p ≤ a → 0 < p → n ≤ a * n / p
le-div a p n h k = grind (arith, mul_mono p a n h)

-- A recommendation lies between 1 and `dylu_H` when DyLU is on (`dylu_H` > 0) and is 0 when it is
-- off; a worker with a positive speed is never recommended fewer steps than a slower worker with a
-- positive speed; a worker at least as fast as the pool gets the full `dylu_H`.
pub dylu_steps_bounds :
    (d : Dylu) (slow fast pool : ℕ)
    → 0 < slow
    → slow ≤ fast
    → ((d.dylu_H ≡ 0) ⊎ (1 ≤ dylu_steps d slow pool))
      × (dylu_steps d slow pool ≤ d.dylu_H)
      × (dylu_steps d slow pool ≤ dylu_steps d fast pool)
      × (pool ≤ slow → dylu_steps d slow pool ≡ d.dylu_H)
unfolding dylu_steps
dylu_steps_bounds d slow fast pool h k = (
  ground arith,
  ground arith,
  ground (arith, div_mono (slow * d.dylu_H) (fast * d.dylu_H) pool (mul_mono slow fast d.dylu_H k)),
  λ l. ground (arith, le-div slow pool d.dylu_H l),
)

contains-get_or : (xs : List ℕ) (i : ℕ) → i < length xs → contains (get_or xs i 0) xs ≡ true
unfolding contains
contains-get_or [] i h = elim h [ ]
contains-get_or (x ∷ xs) zero h = ground arith
contains-get_or (x ∷ xs) (suc i) h = ground (arith, contains-get_or xs i (omega arith))

percentile_index-lt :
    (d : Dylu) (n : ℕ)
    → 0 < n
    → 0 < d.percent_den
    → d.percent_num ≤ d.percent_den
    → percentile_index d n < n
percentile_index-lt d n h k l = grind (arith, mul_mono d.percent_num d.percent_den (n - 1) l)

percentile-contains :
    (d : Dylu) (xs : List ℕ)
    → 0 < d.percent_den
    → d.percent_num ≤ d.percent_den
    → ((xs ≡ []) × (percentile d xs ≡ 0)) ⊎ (contains (percentile d xs) xs ≡ true)
unfolding percentile
percentile-contains d [] k l = inl (refl, refl)
percentile-contains d (x ∷ xs) k l =
    let sorted = sort_asc-perm (x ∷ xs) in
    inr (
      contains-perm (get_or (sort_asc (x ∷ xs)) (percentile_index d (length (x ∷ xs))) 0)
        {xs = x ∷ xs} {ys = sort_asc (x ∷ xs)} (Perm.symm sorted)
      ∙ contains-get_or (sort_asc (x ∷ xs)) (percentile_index d (length (x ∷ xs))) (
          omega
            (arith, length-perm sorted, percentile_index-lt d (length (x ∷ xs)) (omega arith) k l)))

-- For a percentile between 0 and 1 the pool speed is one of the speeds reported within the timeout,
-- or 0 if there is none.
pub pool_speed-contains :
    (d : Dylu) (now : ℕ)
    → 0 < d.percent_den
    → d.percent_num ≤ d.percent_den
    → (((expire d now).worker_speeds ≡ []) × ((pool_speed d now).0 ≡ 0))
      ⊎ (contains (pool_speed d now).0 (map (λ e. e.0) (pool_speed d now).1.worker_speeds) ≡ true)
unfolding pool_speed
pool_speed-contains d now k l =
    elim (percentile-contains (expire d now) (map (λ e. e.0) (expire d now).worker_speeds) k l) [
      | inl (e, z) ↦ inl (map-nil (expire d now).worker_speeds e, z)
      | inr c ↦ inr c
    ]
  where
    map-nil : (xs : List (ℕ × ℕ)) → map (λ e. e.0) xs ≡ [] → xs ≡ []
    map-nil [] e = refl
    map-nil (x ∷ xs) e = cc
