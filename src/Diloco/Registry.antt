-- ===== src/Diloco/Registry.antt =====
-- The workers that a server knows: `/heartbeat`, `/done`, the monitor, `active_workers`, the counts of
-- `/status`, and the test of the cohort gate. Times are clock ticks; a clock never runs backwards.
pub mod Cohort
pub mod Liveness
use panofabric_engine.Prelude.{
  ℕ, ◌+◌, ◌≡◌, String, Bool, Option, none, some, List, [], ◌∷◌, leb, if◌then◌else◌, length,
  string_eq,
}
use panofabric_engine.Prelude.Dict.{Dict, keys, contains, insert, remove, keep_entries}

pub record Registry : Type 0 where
  pub heartbeats : Dict String ℕ
  -- A set.
  pub finished : List String
  pub heartbeat_timeout : ℕ

-- `ts >= now - heartbeat_timeout`
abbrev pub is_alive : Registry → ℕ → String → ℕ → Bool
is_alive s now wid ts = leb now (ts + s.heartbeat_timeout)

pub heartbeat : Registry → ℕ → String → Registry
unfolding insert
heartbeat s now worker_id = record s { heartbeats = insert worker_id now s.heartbeats }

pub done : Registry → String → Registry
unfolding contains remove
done s worker_id = record s {
  finished = if contains worker_id s.finished then s.finished else worker_id ∷ s.finished;
  heartbeats = remove worker_id s.heartbeats;
}

-- One pass of `_run_heartbeat_monitor`.
pub evict : Registry → ℕ → Registry
unfolding keep_entries
evict s now = record s { heartbeats = keep_entries (is_alive s now) s.heartbeats }

pub active_workers : Registry → ℕ → Dict String ℕ
unfolding keep_entries
active_workers s now = keep_entries (is_alive s now) s.heartbeats

pub worker_count : Registry → ℕ → ℕ
unfolding active_workers
worker_count s now = length (active_workers s now)

-- What the cohort gate compares with `min_replicas`.
pub cohort_count : Registry → ℕ → ℕ
unfolding worker_count
cohort_count s now = worker_count s now + length s.finished
