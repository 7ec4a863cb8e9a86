-- ===== src/Tests/Replicas.antt =====
-- A replica of two ranks: the lead has the first element of each parameter, the other rank the rest.
use mathlib.Core.Option
use panofabric_engine.Prelude.{
  ℕ, zero, suc, ◌+◌, ap, ◌/◌, ◌≡◌, refl, String, true, false, some, List, [], ◌∷◌, ◌++◌, take, drop,
  take-append-drop, string_eq,
}
use panofabric_engine.Prelude.Dict.{contains, lookup}
use panofabric_engine.Diloco.Server.{Params}
use panofabric_engine.Diloco.Sync.{Header}
use panofabric_engine.Worker.{Body, f32_bytes, Posted, answered, Worker}
use panofabric_engine.Worker.Adopt.{chunks}
use panofabric_engine.Worker.Boundary.{sync, handled}
use panofabric_engine.Worker.Replica.{Placement, sync_replica}
use panofabric_engine.Worker.Replica.Shards.{IsPlacement, StandFor, over_ranks}
use panofabric_engine.Worker.Replica.Adopts.{HasParts, Follows}
use panofabric_engine.Worker.Replica.Refines.{sync_replica-Follows}
use panofabric_engine.Tests.Samples.{torch, one_of_two}
use panofabric_engine.Tests.Islands.{wire, per, worker}

-- Half of either.
halfway : List ℕ → List ℕ → List ℕ
halfway [] ys = []
halfway (x ∷ xs) [] = []
halfway (x ∷ xs) (y ∷ ys) = (x + y) / 2 ∷ halfway xs ys

own : ℕ → String → List ℕ → List ℕ
own zero n v = take 1 v
own (suc i) n v = drop 1 v

full_tensor : String → List (List ℕ) → List ℕ
full_tensor n (a ∷ b ∷ []) = a ++ b
full_tensor n _ = []

abbrev rows : Placement ℕ
rows = record { own = own; full_tensor = full_tensor }

abbrev Any : String → List ℕ → Type 0
Any n v = Unit

own-halfway :
    (i : ℕ) (n : String) (c p : List ℕ) → own i n (halfway c p) ≡ halfway (own i n c) (own i n p)
unfolding own halfway
own-halfway zero n [] p = refl
own-halfway zero n (x ∷ c) [] = refl
own-halfway zero n (x ∷ c) (y ∷ p) = refl
own-halfway (suc i) n [] p = refl
own-halfway (suc i) n (x ∷ []) [] = refl
own-halfway (suc i) n (x ∷ z ∷ c) [] = refl
own-halfway (suc i) n (x ∷ c) (y ∷ p) = refl

rows-IsPlacement : IsPlacement rows halfway 2 Any
unfolding own full_tensor
rows-IsPlacement = record {
  full_parts = λ n v fits. take-append-drop 1 v;
  own_lerp = λ i n c p fc fp. own-halfway i n c p;
  fits_lerp = λ n c p fc fp. tt;
}

abbrev on_device : Worker ℕ
on_device = record worker { on_cpu = false; blends = true }

abbrev second_rank : Worker ℕ
second_rank = record on_device { model = ("a", []) ∷ ("b", 3 ∷ []) ∷ [] }

-- A server that has the same model for every push.
abbrev steady : ℕ → Header → Body ℕ (List ℕ) (List ℕ) → Posted ℕ (List ℕ) (List ℕ) × ℕ
steady s hd body = (
  answered (record {
    reply = record { new_steps = 0; revision = s + 1; applied = true };
    numel = 3;
    names_dtype = false;
    delta_from = 0;
    body = f32_bytes (8 ∷ 6 ∷ 4 ∷ []);
  }),
  s + 1,
)

abbrev lead_parts : Params ℕ
lead_parts = ("a", 3 ∷ []) ∷ ("b", 3 ∷ []) ∷ []

has_parts :
    (i : ℕ) (local : Params ℕ) (n : String) (p : List ℕ)
    → contains n on_device.param_names ≡ true
    → ((q : List ℕ) → lookup "a" on_device.model ≡ some q → lookup "a" local ≡ some (own i "a" q))
    → ((q : List ℕ) → lookup "b" on_device.model ≡ some q → lookup "b" local ≡ some (own i "b" q))
    → lookup n on_device.model ≡ some p
    → lookup n local ≡ some (own i n p)
has_parts i local n p e at_a at_b h =
    one_of_two "a" "b"
      (λ k. (q : List ℕ) → lookup k on_device.model ≡ some q → lookup k local ≡ some (own i k q)) n
      e at_a at_b p h

ranks-StandFor : StandFor rows Any on_device lead_parts (second_rank ∷ [])
unfolding contains lookup own
ranks-StandFor = record {
  whole = record {
    at = λ n e.
        one_of_two "a" "b" (λ k. (p : List ℕ) × (lookup k on_device.model ≡ some p) × Any k p) n e
          (_, refl, tt) (_, refl, tt);
  };
  first = record {
    at = λ n p e h.
        has_parts 0 lead_parts n p e (λ q g. ap (Option.map (own 0 "a")) g)
          (λ q g. ap (Option.map (own 0 "b")) g) h;
  };
  rest = (
    record {
      part = record {
        at = λ n p e h.
            has_parts 1 second_rank.model n p e (λ q g. ap (Option.map (own 1 "a")) g)
              (λ q g. ap (Option.map (own 1 "b")) g) h;
      };
      names_are = refl;
      numels_are = refl;
      fragments_are = refl;
      cycle_is = refl;
    },
    tt,
  );
}

answer-HasParts : (flat : List ℕ) → HasParts rows halfway Any on_device flat
unfolding contains lookup chunks
answer-HasParts flat = record {
  distinct = (refl, (refl, tt));
  sizes = refl;
  at = λ n e.
      one_of_two "a" "b"
        (λ k.
          (c : List ℕ) × (lookup k (chunks on_device.param_names on_device.param_numels flat)
            ≡ some c)
          × Any k c)
        n e (_, refl, tt) (_, refl, tt);
}

sync_replica-Follows_example :
    Follows rows halfway Any 2 rows-IsPlacement
      (sync_replica torch wire halfway per steady rows
        (over_ranks on_device lead_parts (second_rank ∷ []))
        6
        9)
      (handled torch wire halfway per steady 9 (sync torch wire halfway per steady on_device 6 9))
sync_replica-Follows_example =
    sync_replica-Follows torch wire halfway per steady rows Any 2 rows-IsPlacement on_device
      lead_parts (second_rank ∷ []) 6 9 refl refl ranks-StandFor
      (λ a e. answer-HasParts a.flat_params)
