-- ===== src/Tests/Batching.antt =====
-- Batches, optimizers and options of the sample server.
use panofabric_engine.Prelude.{
  ℕ, ◌≤◌, ◌<◌, ◌≡◌, refl, true, false, none, some, List, [], ◌∷◌, nat_eq, arith,
}
use panofabric_engine.Prelude.Dict.{Dict, lookup}
use panofabric_engine.Diloco.Fragments.{fragment_bounds, cut_loop}
use panofabric_engine.Diloco.Server.{Params, IsLocal, Server}
use panofabric_engine.Diloco.Dylu.{Dylu}
use panofabric_engine.Diloco.Optim.Milestones.{Unmoved, take_turns, take_turns-Unmoved}
use panofabric_engine.Diloco.Heloco.{heloco_hooks}
use panofabric_engine.Diloco.Heloco.Local.{heloco_hooks-IsLocal}
use panofabric_engine.Diloco.Rounds.{GraceBatch, Rounds, claim, is_full, sync_accumulate}
use panofabric_engine.Diloco.Rounds.Groups.{SyncRun, start, next, push, wake, pushed, IsGrouped}
use panofabric_engine.Diloco.Rounds.Processor.{Joins}
use panofabric_engine.Diloco.Rounds.Batches.{SyncRun-IsGrouped}
use panofabric_engine.Diloco.Build.{
  Options, Built, heloco_method, is_heloco, diloco_islands, build_server, construct, method_checks,
  build_server-exclusive,
}
use panofabric_engine.Tests.Samples.{torch, nesterov, heloco, fresh_nesterov, gradients, model}

-- Two pushes to a round of two, then one more; a waiter wakes in between.
run : (s : Rounds ℕ) × SyncRun 2 (gradients ∷ gradients ∷ gradients ∷ []) s
run = (
  _,
  next (next (next (next start (push _ gradients 4)) (wake _ 0)) (push _ gradients 8))
      (push _ gradients 4),
)

SyncRun-IsGrouped_example :
    IsGrouped 2 run.0
    × (pushed 2 run.0.batches ≡ gradients ∷ gradients ∷ gradients ∷ [])
    × ((i : ℕ) → claim (is_full 2) i run.0 ≡ (false, run.0))
    × ((g : Params ℕ) (speed : ℕ) → Joins 2 g (sync_accumulate 2 run.0 g speed))
SyncRun-IsGrouped_example = SyncRun-IsGrouped 2 (omega arith) run.1

abbrev batch : GraceBatch ℕ
batch = record {
  grads_list = gradients ∷ gradients ∷ [];
  speeds = 4 ∷ 8 ∷ [];
  deadline = none;
  claimed = true;
  done = false;
  error = none;
  snapshot_flat = none;
  revision = 0;
  pool_speed = 0;
}

heloco_hooks-IsLocal_example : IsLocal (heloco_hooks torch heloco)
heloco_hooks-IsLocal_example = heloco_hooks-IsLocal torch heloco

abbrev turns : List (Params ℕ × Params ℕ)
turns =
    (("a", 2 ∷ []) ∷ [], ("b", 4 ∷ 6 ∷ []) ∷ []) ∷ (("a", 2 ∷ []) ∷ [], ("b", 4 ∷ 6 ∷ []) ∷ []) ∷ []

take_turns-Unmoved_example :
    Unmoved torch nesterov "a"
      (take_turns torch nesterov turns (fresh_nesterov, (model fresh_nesterov).params)).0.state
unfolding lookup
take_turns-Unmoved_example =
    take_turns-Unmoved torch nesterov "a" turns fresh_nesterov (model fresh_nesterov).params 1 0
      refl refl (refl, (refl, tt)) (record { zeros = λ b e. cc })

abbrev fragmented : Options
fragmented = record {
  outer_method = heloco_method;
  num_fragments = some 4;
  sync_workers = 0;
  grace_period = 0;
  has_rho = false;
  known_scope = true;
  other_islands_method = diloco_islands;
}

abbrev fragmented_server : Built
fragmented_server = record {
  method = heloco_method;
  fragments = 4;
  frag_bounds = (0, 1) ∷ (1, 2) ∷ (2, 3) ∷ (3, 4) ∷ [];
  workers = 0;
  grace = 0;
  other_islands = diloco_islands;
}

build_server-exclusive_example :
    (1 ≤ 4)
    × (1 < 4
        → (is_heloco heloco_method ≡ true)
          × (fragmented_server.grace ≡ 0)
          × (fragmented_server.workers ≡ 0))
    × (0 < fragmented_server.workers → fragmented_server.grace ≡ 0)
unfolding build_server construct method_checks fragment_bounds cut_loop
build_server-exclusive_example =
    build_server-exclusive fragmented (8 ∷ 8 ∷ 8 ∷ 8 ∷ []) fragmented_server refl
