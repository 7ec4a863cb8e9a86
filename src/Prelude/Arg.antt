-- ===== src/Prelude/Arg.antt =====
-- `min(range(n), key=lambda i: xs[i])` and `max(...)`: the first position of an extreme value.
-- Python raises on an empty sequence; the callers never pass one.
use panofabric_engine.Prelude.Tests.{leb, if◌then◌else◌}
use panofabric_engine.Prelude.Lists.{length, get_or}
use Prim.Native.Nat.{ℕ, zero, suc, ◌≤◌, ◌<◌}
use mathlib.Core.List.{List, [], ◌∷◌}
use native.Mathlib.Omega.{arith}

unfoldable pub arg_min : List ℕ → ℕ
arg_min [] = 0
arg_min (x ∷ []) = 0
arg_min (x ∷ y ∷ r) = let j = arg_min (y ∷ r) in if leb x (get_or (y ∷ r) j 0) then 0 else suc j

unfoldable pub arg_max : List ℕ → ℕ
arg_max [] = 0
arg_max (x ∷ []) = 0
arg_max (x ∷ y ∷ r) = let j = arg_max (y ∷ r) in if leb (get_or (y ∷ r) j 0) x then 0 else suc j

pub arg_min-lt : (xs : List ℕ) → 0 < length xs → arg_min xs < length xs
unfolding arg_min
arg_min-lt [] h = h
arg_min-lt (x ∷ []) h = omega arith
arg_min-lt (x ∷ y ∷ r) h = ground (arith, arg_min-lt (y ∷ r) (omega arith))

pub arg_min-le : (xs : List ℕ) (i : ℕ) → i < length xs → get_or xs (arg_min xs) 0 ≤ get_or xs i 0
unfolding arg_min
arg_min-le [] i h = elim h [ ]
arg_min-le (x ∷ []) zero h = omega arith
arg_min-le (x ∷ []) (suc i) h = absurd (omega arith)
arg_min-le (x ∷ y ∷ r) zero h = ground arith
arg_min-le (x ∷ y ∷ r) (suc i) h = ground (arith, arg_min-le (y ∷ r) i (omega arith))

pub arg_max-lt : (xs : List ℕ) → 0 < length xs → arg_max xs < length xs
unfolding arg_max
arg_max-lt [] h = h
arg_max-lt (x ∷ []) h = omega arith
arg_max-lt (x ∷ y ∷ r) h = ground (arith, arg_max-lt (y ∷ r) (omega arith))

pub le-arg_max : (xs : List ℕ) (i : ℕ) → i < length xs → get_or xs i 0 ≤ get_or xs (arg_max xs) 0
unfolding arg_max
le-arg_max [] i h = elim h [ ]
le-arg_max (x ∷ []) zero h = omega arith
le-arg_max (x ∷ []) (suc i) h = absurd (omega arith)
le-arg_max (x ∷ y ∷ r) zero h = ground arith
le-arg_max (x ∷ y ∷ r) (suc i) h = ground (arith, le-arg_max (y ∷ r) i (omega arith))
