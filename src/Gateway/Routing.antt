-- ===== src/Gateway/Routing.antt =====
-- `pick` on a gateway whose targets have a count and a health.
use panofabric_engine.Prelude.{
  ℕ, zero, suc, ◌≤◌, ◌<◌, ◌≡◌, refl, ap, inl, inr, String, Bool, true, false, Option, none, some,
  List, [], ◌∷◌, if◌then◌else◌, Bool-cases, Option-cases, arith, string_eq, length, get_elem?,
  get_or, All,
}
use panofabric_engine.Prelude.Arg.{arg_min, arg_min-lt, arg_min-le}
use panofabric_engine.Prelude.Dict.{Dict, contains, is_some, lookup, beq_refl}
use panofabric_engine.Prelude.Result.{Result, ok, err, value_error}
use panofabric_engine.Gateway.{Gateway, get_default, healthy_targets, loads, or_else, pick}

-- The count and the health that a lookup reads.
abbrev pub load_of : Gateway → String → ℕ
load_of g t = get_default (lookup t g.inflight) 0

abbrev pub is_up : Gateway → String → Bool
is_up g t = get_default (lookup t g.healthy) false

-- Each of the targets has an entry.
abbrev Known : {A : Type 0} → Dict String A → List String → Type 0
Known d ts = All (λ t. is_some (lookup t d) ≡ true) ts

-- The targets that are healthy, in their order.
pub ups : Gateway → List String → List String
ups g [] = []
ups g (t ∷ ts) = let rest = ups g ts in if is_up g t then t ∷ rest else rest

healthy_targets-ups :
    (g : Gateway) (ts : List String) → Known g.healthy ts → healthy_targets g ts ≡ ok (ups g ts)
unfolding healthy_targets ups
healthy_targets-ups g [] k = refl
healthy_targets-ups g (t ∷ ts) k = elim (Option-cases (lookup t g.healthy)) [
  | inl e ↦ ground (arith, e, k.0)
  | inr (b, e) ↦ rw (e, healthy_targets-ups g ts k.1, healthy_targets, ups) refl
]

loads-map :
    (g : Gateway) (ts : List String)
    → Known g.inflight ts
    → (ns : List ℕ) × (loads g ts ≡ ok ns)
      × (length ns ≡ length ts)
      × ((i : ℕ) (t : String) → get_elem? ts i ≡ some t → get_or ns i 0 ≡ load_of g t)
unfolding loads
loads-map g [] k = ([], refl, refl, λ i t e. cc)
loads-map g (t ∷ ts) k = elim (Option-cases (lookup t g.inflight)) [
  | inl e ↦ ground (arith, e, k.0)
  | inr (n, e) ↦
      let (ns, run, len, at) = loads-map g ts k.1 in
      (n ∷ ns, rw (e, run, loads) refl, ap suc len, reads ns n (ap (λ o. get_default o 0) e) at)
]
  where
    reads :
        (ns : List ℕ) (n : ℕ)
        → load_of g t ≡ n
        → ((i : ℕ) (u : String) → get_elem? ts i ≡ some u → get_or ns i 0 ≡ load_of g u)
        → (i : ℕ) (u : String) → get_elem? (t ∷ ts) i ≡ some u
        → get_or (n ∷ ns) i 0 ≡ load_of g u
    reads ns n here at zero u e = ground (
      arith,
      ap (λ (o : Option String). elim o as (λ _. ℕ) [ none ↦ 0 | some v ↦ load_of g v ]) e,
      here,
    )
    reads ns n here at (suc i) u e = at i u e

Known-ups :
    {A : Type 0} (d : Dict String A) (g : Gateway) (ts : List String)
    → Known d ts
    → Known d (ups g ts)
unfolding ups
Known-ups d g [] k = tt
Known-ups d g (t ∷ ts) k = elim (Bool-cases (is_up g t)) [
  | inl e ↦ rw e (k.0, Known-ups d g ts k.1)
  | inr e ↦ rw e (Known-ups d g ts k.1)
]

Known-or_else :
    {A : Type 0} (d : Dict String A) (xs ys : List String)
    → Known d xs
    → Known d ys
    → Known d (or_else xs ys)
Known-or_else d [] ys hx hy = hy
Known-or_else d (x ∷ xs) ys hx hy = hx

Known-of_contains :
    {A : Type 0} (d : Dict String A) (ts : List String)
    → ((t : String) → contains t ts ≡ true → is_some (lookup t d) ≡ true)
    → Known d ts
unfolding contains
Known-of_contains d [] f = tt
Known-of_contains d (t ∷ ts) f =
    (f t (rw (beq_refl t) refl), Known-of_contains d ts (λ u c. f u (ground arith)))

length-or_else : (xs ys : List String) → 1 ≤ length ys → 1 ≤ length (or_else xs ys)
length-or_else [] ys h = h
length-or_else (x ∷ xs) ys h = omega arith

get_elem?-lt : (xs : List String) (i : ℕ) → i < length xs → (x : String) × (get_elem? xs i ≡ some x)
get_elem?-lt [] i h = absurd (omega arith)
get_elem?-lt (x ∷ xs) zero h = (x, refl)
get_elem?-lt (x ∷ xs) (suc i) h = get_elem?-lt xs i (omega arith)

lt-of_get_elem? : (xs : List String) (i : ℕ) (x : String) → get_elem? xs i ≡ some x → i < length xs
lt-of_get_elem? [] i x e = cc
lt-of_get_elem? (y ∷ xs) zero x e = omega arith
lt-of_get_elem? (y ∷ xs) (suc i) x e = omega (arith, lt-of_get_elem? xs i x e)

-- The targets that a request may go to: the healthy ones, or all if none is.
abbrev pub pool_of : Gateway → List String
pool_of g = or_else (ups g g.targets) g.targets

pick-runs :
    (g : Gateway) (up : List String) (ns : List ℕ) (t : String)
    → healthy_targets g g.targets ≡ ok up
    → loads g (or_else up g.targets) ≡ ok ns
    → get_elem? (or_else up g.targets) (arg_min ns) ≡ some t
    → pick g ≡ ok t
unfolding pick
pick-runs g up ns t healths counts here =
    rw (healths, pick)
      (rw counts (
        ap
          (λ (o : Option String). elim o as (λ _. Result String) [
            | none ↦ err value_error
            | some t ↦ ok t
          ])
          here))

-- With at least one target, each with a count and a health, `pick` returns a target of the pool (the healthy
-- targets, or all of them if none is healthy), and none of the pool has fewer requests in flight.
pub pick-least :
    (g : Gateway)
    → 1 ≤ length g.targets
    → ((t : String) → contains t g.targets ≡ true → is_some (lookup t g.inflight) ≡ true)
    → ((t : String) → contains t g.targets ≡ true → is_some (lookup t g.healthy) ≡ true)
    → (t : String) × (i : ℕ) × (pick g ≡ ok t)
      × (get_elem? (pool_of g) i ≡ some t)
      × ((j : ℕ) (u : String) → get_elem? (pool_of g) j ≡ some u → load_of g t ≤ load_of g u)
unfolding pick
pick-least g some_target counts healths =
    let known = Known-of_contains g.inflight g.targets counts in
    let (ns, run, len, at) = loads-map g (pool_of g) (
      Known-or_else g.inflight (ups g g.targets) g.targets (Known-ups g.inflight g g.targets known)
        known) in
    let inside : arg_min ns < length ns =
      arg_min-lt ns (omega (arith, len, length-or_else (ups g g.targets) g.targets some_target)) in
    let (t, here) = get_elem?-lt (pool_of g) (arg_min ns) (omega (arith, len, inside)) in
    (
      t,
      arg_min ns,
      pick-runs g (ups g g.targets) ns t
          (healthy_targets-ups g g.targets (Known-of_contains g.healthy g.targets healths)) run
          here,
      here,
      λ j u e.
          let lt : j < length ns = omega (arith, len, lt-of_get_elem? (pool_of g) j u e) in
          omega (arith, arg_min-le ns j lt, at (arg_min ns) t here, at j u e),
    )
