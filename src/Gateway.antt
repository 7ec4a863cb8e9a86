-- ===== src/Gateway.antt =====
-- panoengine/serve/gateway.py: the routing and health state of `Gateway`. Its methods are sections of
-- one event loop; an `await` is a point where other sections run, so a request is the sections `handle_begin`,
-- `handle_fail` and `handle_finish`. Headers, keys and the proxied bytes are left out.
pub mod Counts
pub mod Routing
use panofabric_engine.Prelude.{
  ℕ, ◌+◌, ◌-◌, ◌≡◌, String, Bool, true, false, Option, none, some, List, [], ◌∷◌, ◌++◌, map,
  if◌then◌else◌, get_elem?, string_eq,
}
use panofabric_engine.Prelude.Arg.{arg_min}
use panofabric_engine.Prelude.Dict.{Dict, keys, contains, lookup, insert}
use panofabric_engine.Prelude.Result.{Result, ok, err, value_error, key_error, ◌>>=◌}

pub record Gateway : Type 0 where
  pub targets : List String
  pub inflight : Dict String ℕ
  pub healthy : Dict String Bool
  pub num_requests : ℕ
  pub num_rejected : ℕ

-- `d.get(t, default)`
abbrev pub get_default : {A : Type 0} → Option A → A → A
get_default none d = d
get_default (some a) d = a

-- `{t: f(t) for t in ts}`, added to `acc`.
pub fill : {A : Type 0} → (String → A) → Dict String A → List String → Dict String A
unfolding insert
fill f acc [] = acc
fill f acc (t ∷ ts) = fill f (insert t (f t) acc) ts

-- `retarget` with `strip` for `t.rstrip("/")`.
pub retarget : (String → String) → Gateway → List String → Result Gateway
unfolding fill lookup
retarget strip g [] = err value_error
retarget strip g (t ∷ ts) =
    let clean = map strip (t ∷ ts) in
    ok (record g {
      targets = clean;
      inflight = fill (λ u. get_default (lookup u g.inflight) 0) [] clean;
      healthy = fill (λ u. get_default (lookup u g.healthy) false) [] clean;
    })

-- `[t for t in ts if self.healthy[t]]`
pub healthy_targets : Gateway → List String → Result (List String)
unfolding lookup
healthy_targets g [] = ok []
healthy_targets g (t ∷ ts) = do
  up ← elim (lookup t g.healthy) [ none ↦ err key_error | some b ↦ ok b ]
  rest ← healthy_targets g ts
  ok (if up then t ∷ rest else rest)

-- `self.inflight[t]` of each.
pub loads : Gateway → List String → Result (List ℕ)
unfolding lookup
loads g [] = ok []
loads g (t ∷ ts) = do
  n ← elim (lookup t g.inflight) [ none ↦ err key_error | some n ↦ ok n ]
  rest ← loads g ts
  ok (n ∷ rest)

-- `xs or ys`
abbrev pub or_else : {A : Type 0} → List A → List A → List A
or_else [] ys = ys
or_else (x ∷ xs) ys = x ∷ xs

pub pick : Gateway → Result String
unfolding healthy_targets loads arg_min
pick g = do
  up ← healthy_targets g g.targets
  let pool = or_else up g.targets
  ns ← loads g pool
  elim (get_elem? pool (arg_min ns)) [ none ↦ err value_error | some t ↦ ok t ]

-- A request without a valid key.
pub handle_reject : Gateway → Gateway
handle_reject g = record g { num_rejected = g.num_rejected + 1 }

-- From the body's read to the call of the upstream.
pub handle_begin : Gateway → String → Gateway
unfolding insert lookup
handle_begin g target = record g {
  inflight = insert target (get_default (lookup target g.inflight) 0 + 1) g.inflight;
  num_requests = g.num_requests + 1;
}

-- The handler of a failed upstream.
pub handle_fail : Gateway → String → Gateway
unfolding insert
handle_fail g target = record g { healthy = insert target false g.healthy }

-- `finally`
pub handle_finish : Gateway → String → Gateway
unfolding insert lookup
handle_finish g target = elim (lookup target g.inflight) [
  | none ↦ g
  | some n ↦ record g { inflight = insert target (n - 1) g.inflight }
]

-- One target of `probe_once`, after its answer.
pub probe : Gateway → String → Bool → Gateway
unfolding insert lookup
probe g t up = elim (lookup t g.healthy) [
  | none ↦ g
  | some _ ↦ record g { healthy = insert t up g.healthy }
]
