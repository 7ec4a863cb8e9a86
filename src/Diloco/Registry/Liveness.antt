-- ===== src/Diloco/Registry/Liveness.antt =====
-- Which workers are active, and when the gate counts one.
use panofabric_engine.Prelude.{
  ℕ, ◌+◌, ◌≤◌, ◌≡◌, refl, sym, ap, ◌∙◌, inl, inr, String, Bool, true, false, none, some, [], ◌∷◌,
  leb, if◌then◌else◌, Bool-cases, arith, length, string_eq,
}
use panofabric_engine.Prelude.Dict.{
  Dict, keys, Distinct, lookup, insert, remove, keep_entries, if_kept, lookup-insert, lookup-remove,
  lookup-keep_entries, insert-Distinct, remove-Distinct,
}
use panofabric_engine.Diloco.Registry.{
  Registry, is_alive, heartbeat, done, evict, active_workers, worker_count, cohort_count,
}

-- A pass of the monitor removes nobody that is active at its time or later.
keep_entries-twice :
    (s : Registry) (now later : ℕ) (d : Dict String ℕ)
    → now ≤ later
    → keep_entries (is_alive s later) (keep_entries (is_alive s now) d)
      ≡ keep_entries (is_alive s later) d
unfolding keep_entries
keep_entries-twice s now later [] h = refl
keep_entries-twice s now later ((w, ts) ∷ d) h =
    let rest = keep_entries-twice s now later d h in
    elim (Bool-cases (leb now (ts + s.heartbeat_timeout))) [
      | inl e ↦ rw (e, keep_entries) (rw rest refl)
      | inr e ↦
          let dead : leb later (ts + s.heartbeat_timeout) ≡ false = ground arith in
          rw (e, dead, keep_entries) rest
    ]

-- When the monitor ran, and how often, cannot be told from `active_workers` at its time or later.
pub active_workers-evict :
    (s : Registry) (now later : ℕ)
    → now ≤ later
    → (active_workers (evict s now) later ≡ active_workers s later)
      × (cohort_count (evict s now) later ≡ cohort_count s later)
unfolding active_workers evict worker_count cohort_count
active_workers-evict s now later h =
    let same = keep_entries-twice s now later s.heartbeats h in
    (same, ap (λ d. length d + length s.finished) same)

split :
    {A B : Type 0} (f : A → B) (b : Bool) (x y : A)
    → f (if b then x else y) ≡ (if b then f x else f y)
split f true x y = refl
split f false x y = refl

-- A worker is active from a heartbeat until its timeout and not beyond, and not after `/done`, whatever was
-- before; the other workers are active as before.
pub active_workers-events :
    (s : Registry) (at now : ℕ) (w v : String)
    → Distinct (keys s.heartbeats)
    → (lookup v (active_workers (heartbeat s at w) now) ≡ (
        if string_eq.beq w v
        then (if leb now (at + s.heartbeat_timeout) then some at else none)
        else lookup v (active_workers s now)))
      × (lookup v (active_workers (done s w) now)
          ≡ (if string_eq.beq w v then none else lookup v (active_workers s now)))
unfolding active_workers heartbeat done
active_workers-events s at now w v d =
    let old = lookup-keep_entries (is_alive s now) v s.heartbeats d in
    (
      lookup-keep_entries (is_alive s now) v (insert w at s.heartbeats)
            (insert-Distinct w at s.heartbeats d)
          ∙ ap (if_kept (is_alive s now v)) (lookup-insert w v at s.heartbeats)
          ∙ split (λ r. if_kept (is_alive s now v) r) (string_eq.beq w v) (some at)
              (lookup v s.heartbeats)
          ∙ ap
              (λ r.
                if string_eq.beq w v
                then (if leb now (at + s.heartbeat_timeout) then some at else none)
                else r)
              (sym old),
      lookup-keep_entries (is_alive s now) v (remove w s.heartbeats)
            (remove-Distinct w s.heartbeats d)
          ∙ ap (if_kept (is_alive s now v)) (lookup-remove w v s.heartbeats)
          ∙ split (λ r. if_kept (is_alive s now v) r) (string_eq.beq w v) none
              (lookup v s.heartbeats)
          ∙ ap (λ r. if string_eq.beq w v then none else r) (sym old),
    )
