-- ===== src/Tests/Workers.antt =====
-- Three islands, one of them silent for longer than the timeout.
use panofabric_engine.Prelude.{◌≡◌, ◌≤◌, ◌+◌, refl, false, none, some, [], ◌∷◌, arith, string_eq}
use panofabric_engine.Prelude.Dict.{Distinct, contains, keys, lookup}
use panofabric_engine.Diloco.Registry.{Registry, heartbeat, done, active_workers, cohort_count}
use panofabric_engine.Diloco.Registry.Cohort.{cohort_count-done}
use panofabric_engine.Diloco.Registry.Liveness.{active_workers-events}

abbrev islands : Registry
islands = record {
  heartbeats = ("ames", 10) ∷ ("boone", 95) ∷ ("clive", 100) ∷ [];
  finished = "dayton" ∷ [];
  heartbeat_timeout = 30;
}

islands-Distinct : Distinct (keys islands.heartbeats)
unfolding contains
islands-Distinct = (refl, (refl, (refl, tt)))

active_workers-events_example :
    (lookup "ames" (active_workers (heartbeat islands 105 "ames") 110) ≡ some 105)
    × (lookup "ames" (active_workers (done islands "ames") 110) ≡ none)
active_workers-events_example = active_workers-events islands 105 110 "ames" "ames" islands-Distinct

clive-new : contains "clive" islands.finished ≡ false
unfolding contains
clive-new = refl

cohort_count-done_example :
    (cohort_count islands 110 ≤ cohort_count (done islands "clive") 110)
    × (cohort_count (heartbeat (done islands "clive") 105 "clive") 110
        ≡ cohort_count (done islands "clive") 110 + 1)
cohort_count-done_example =
    cohort_count-done islands 105 110 "clive" islands-Distinct clive-new (omega arith)
