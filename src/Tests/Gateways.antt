-- ===== src/Tests/Gateways.antt =====
-- A gateway of two targets, one of them down.
use panofabric_engine.Prelude.{
  ℕ, ◌≤◌, ◌≡◌, String, true, false, some, [], ◌∷◌, get_elem?, arith, string_eq,
}
use panofabric_engine.Prelude.Dict.{contains, is_some, lookup}
use panofabric_engine.Prelude.Result.{ok}
use panofabric_engine.Gateway.{Gateway, handle_finish, pick}
use panofabric_engine.Gateway.Counts.{finished, IsCounted, count, GatewayStep-IsCounted}
use panofabric_engine.Gateway.Routing.{load_of, pool_of, pick-least}

abbrev gateway : Gateway
gateway = record {
  targets = "a" ∷ "b" ∷ [];
  inflight = ("a", 2) ∷ ("b", 0) ∷ [];
  healthy = ("a", true) ∷ ("b", false) ∷ [];
  num_requests = 5;
  num_rejected = 0;
}

has_counts :
    (t : String) → contains t gateway.targets ≡ true → is_some (lookup t gateway.inflight) ≡ true
unfolding contains lookup
has_counts t c = ground arith

has_healths :
    (t : String) → contains t gateway.targets ≡ true → is_some (lookup t gateway.healthy) ≡ true
unfolding contains lookup
has_healths t c = ground arith

gateway-IsCounted : IsCounted (λ t. t) gateway ("a" ∷ "a" ∷ [])
unfolding count lookup
gateway-IsCounted = record {
  counted = λ t. ground arith;
  has_count = has_counts;
  has_health = has_healths;
}

GatewayStep-IsCounted_example : IsCounted (λ t. t) (handle_finish gateway "a") ("a" ∷ [])
GatewayStep-IsCounted_example =
    GatewayStep-IsCounted (λ t. t) (finished {g = gateway} ("a" ∷ []) [] "a") gateway-IsCounted

pick-least_example :
    (t : String) × (i : ℕ) × (pick gateway ≡ ok t)
    × (get_elem? (pool_of gateway) i ≡ some t)
    × ((j : ℕ) (u : String)
        → get_elem? (pool_of gateway) j ≡ some u
        → load_of gateway t ≤ load_of gateway u)
pick-least_example = pick-least gateway (omega arith) has_counts has_healths
