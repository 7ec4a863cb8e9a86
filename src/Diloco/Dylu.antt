-- ===== src/Diloco/Dylu.antt =====
-- Dynamic local updates: the pool of worker speeds and the recommended window length. A speed is a
-- number of steps in some fixed unit of time, and times are clock ticks; the source has floats, so
-- `worker_speed / pool_speed * H` is rounded there before it is cut to an integer.
pub mod Bounds
use panofabric_engine.Prelude.{
  ℕ, suc, ◌+◌, ◌-◌, ◌*◌, ◌/◌, List, [], ◌∷◌, ◌++◌, map, leb, ltb, ◌==◌, ◌&&◌, if◌then◌else◌, keep,
  length, get_or, min, max,
}
use panofabric_engine.Prelude.Sort.{sort_asc}

pub record Dylu : Type 0 where
  pub dylu_H : ℕ
  pub timeout : ℕ
  -- The percentile, as a fraction.
  pub percent_num : ℕ
  pub percent_den : ℕ
  -- Speeds with the time of their report.
  pub worker_speeds : List (ℕ × ℕ)

stamp : ℕ → List ℕ → List (ℕ × ℕ)
stamp now [] = []
stamp now (spd ∷ speeds) =
    let rest = stamp now speeds in if ltb 0 spd then (spd, now) ∷ rest else rest

unfoldable pub record_speeds : Dylu → ℕ → List ℕ → Dylu
unfolding stamp
record_speeds d now speeds =
    if d.dylu_H == 0 then d else record d { worker_speeds = d.worker_speeds ++ stamp now speeds }

-- The entries with `ts >= now - timeout`.
abbrev pub expire : Dylu → ℕ → Dylu
expire d now = record d { worker_speeds = keep (λ e. leb now (e.1 + d.timeout)) d.worker_speeds }

-- `math.ceil(percentile * (len(speeds) - 1))`
abbrev pub percentile_index : Dylu → ℕ → ℕ
percentile_index d n = (d.percent_num * (n - 1) + d.percent_den - 1) / d.percent_den

-- The percentile of the sorted speeds; 0.0 for an empty pool.
unfoldable pub percentile : Dylu → List ℕ → ℕ
unfolding sort_asc
percentile d [] = 0
percentile d (x ∷ xs) = get_or (sort_asc (x ∷ xs)) (percentile_index d (length (x ∷ xs))) 0

unfoldable pub pool_speed : Dylu → ℕ → ℕ × Dylu
unfolding percentile
pool_speed d now = let d' = expire d now in (percentile d (map (λ e. e.0) d'.worker_speeds), d')

unfoldable pub dylu_steps : Dylu → ℕ → ℕ → ℕ
dylu_steps d worker_speed pool_speed =
    if ltb 0 d.dylu_H && (ltb 0 worker_speed && ltb 0 pool_speed)
    then min d.dylu_H (max 1 (worker_speed * d.dylu_H / pool_speed))
    else d.dylu_H
