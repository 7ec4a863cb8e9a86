-- ===== src/Worker/Boundary.antt =====
-- The boundaries of a worker's windows: `_sync`, `_try_resync`, the pipeline of fragments, and the hook
-- behind every inner step. `now` is the clock, read once in a hook; `per` is the speed of a number of
-- steps in a time. The background thread runs at its join at the latest: nothing that it reads changes
-- before. Of `_await_cohort` the hook has the outcome, and the artificial slowness is left out.
use panofabric_engine.Prelude.{
  ℕ, ◌+◌, ◌-◌, ◌*◌, ◌/◌, ◌%◌, String, Bool, true, false, Option, none, some, List, map, ltb, leb,
  if◌then◌else◌, min, concat,
}
use panofabric_engine.Prelude.Result.{Result, ok, err}
use panofabric_engine.Prelude.Dict.{Dict, lookup}
use panofabric_engine.Diloco.Sync.{Header}
use panofabric_engine.Diloco.Optim.{Torch, sub_tensor}
use panofabric_engine.Worker.{Wire, Body, Posted, Answer, InflightPush, Worker, value, names_of}
use panofabric_engine.Worker.Session.{session_roundtrip}
use panofabric_engine.Worker.Adopt.{Detached, detach_cpu, adopt_global, adopt_fragment}

module _ {F : Type 0} where
  -- `_enter_resync`, which is also what the hook does on a failed `_sync`.
  unfoldable pub enter_resync : Worker F → ℕ → Worker F
  enter_resync w now = record w { pending_resync = true; resync_backoff = 1; resync_at = now }

  -- `_window_speed`
  unfoldable pub window_speed : (ℕ → ℕ → ℕ) → Worker F → ℕ → ℕ × Worker F
  window_speed per w now =
      let measured =
        if ltb w.window_start now then per w.local_step (now - w.window_start) else 0 in
      (if w.skip_speed_report then 0 else measured, record w { skip_speed_report = false })

  -- What `_sync` keeps of the local parameters to blend with.
  abbrev pub kept_local : Worker F → Dict String (Detached F)
  kept_local w = map (λ (name, p). (name, detach_cpu w.on_cpu p)) w.model

module _ {F : Type 0} (t : Torch F) where
  -- `self._global_params[name] - local` over some parameters, as one buffer.
  unfoldable pub pseudo_grad : Worker F → Option ℕ → List F
  unfolding sub_tensor lookup
  pseudo_grad w fragment = concat (
      map (λ name. sub_tensor t (value w.global_params name) (value w.model name))
        (names_of w fragment))

module _ {F Q B S : Type 0} (t : Torch F) (wire : Wire F Q B) (lerp : List F → List F → List F)
    (per : ℕ → ℕ → ℕ) (post : S → Header → Body F Q B → Posted F Q B × S) where
  -- `_pull_global` behind its exchange.
  abbrev pub pulled : Worker F × Result (Answer F) × S → Worker F × Result (Unit {0}) × S
  pulled (w, err e, s) = (w, err e, s)
  pulled (w, ok a, s) = (adopt_global lerp w a none, ok tt, s)

  unfoldable pub pull_global : Worker F → S → Worker F × Result (Unit {0}) × S
  unfolding session_roundtrip adopt_global
  pull_global w s = pulled (session_roundtrip t wire post w s false 0 none none)

  -- `_try_resync` behind its pull.
  abbrev pub resynced : ℕ → Worker F × Result (Unit {0}) × S → Worker F × S
  resynced now (w, err e, s) = (
    record w {
      resync_at = now + w.resync_backoff;
      resync_backoff = min (w.resync_backoff * 2) w.resync_backoff_max;
    },
    s,
  )
  resynced now (w, ok _, s) =
      (record w { pending_resync = false; resync_backoff = 1; skip_speed_report = true }, s)

  unfoldable pub try_resync : Worker F → S → ℕ → Worker F × S
  unfolding pull_global
  try_resync w s now = resynced now (pull_global w s)

  -- `_sync` behind its exchange.
  abbrev pub synced :
      Option (Dict String (Detached F))
      → Worker F × Result (Answer F) × S
      → Worker F × Result (Unit {0}) × S
  synced local (w, err e, s) = (w, err e, s)
  synced local (w, ok a, s) = (
    if a.applied
        then adopt_global lerp w a local
        else record (adopt_global lerp w a none) { skip_speed_report = true },
    ok tt,
    s,
  )

  unfoldable pub sync : Worker F → S → ℕ → Worker F × Result (Unit {0}) × S
  unfolding window_speed pseudo_grad session_roundtrip adopt_global
  sync w s now =
      let (speed, w') = window_speed per w now in
      synced (if w.blends then some (kept_local w) else none)
        (session_roundtrip t wire post w' s true speed (some (pseudo_grad t w none)) none)

  -- The run of the thread of `_launch_push`, once.
  unfoldable pub run_push : Worker F → S → InflightPush F → Worker F × Result (Answer F) × S
  unfolding session_roundtrip
  run_push w s i = elim i.outcome [
    | some r ↦ (w, r, s)
    | none ↦ session_roundtrip t wire post w s true i.speed (some i.flat_grads) (some i.fragment)
  ]

  -- The thread ends before its join.
  unfoldable pub land : Worker F → S → Worker F × S
  unfolding run_push
  land w s = elim w.inflight [
    | none ↦ (w, s)
    | some i ↦
        let (w', r, s') = run_push w s i in
        (record w' { inflight = some (record i { outcome = some r }) }, s')
  ]

  -- `_join_and_adopt_inflight` behind the join, with whether a new push may be launched.
  abbrev pub adopt_landed : ℕ → ℕ → Worker F × Result (Answer F) × S → Worker F × Bool × S
  adopt_landed now fragment (w, err e, s) = (enter_resync w now, false, s)
  adopt_landed now fragment (w, ok a, s) =
      if a.applied
      then (adopt_fragment lerp w fragment a, true, s)
      else (enter_resync (record w { skip_speed_report = true }) now, false, s)

  unfoldable pub join_and_adopt : Worker F → S → ℕ → Worker F × Bool × S
  unfolding run_push adopt_fragment enter_resync
  join_and_adopt w s now = elim w.inflight [
    | none ↦ (w, true, s)
    | some i ↦ adopt_landed now i.fragment (run_push (record w { inflight = none }) s i)
  ]

  -- The rest of `_boundary_fragment`, with `_launch_push`.
  unfoldable pub launch : Worker F → ℕ → Worker F
  unfolding window_speed pseudo_grad
  launch w now =
      let fragment = w.frag_idx in
      let (speed, w') = window_speed per w now in
      record w' {
        frag_idx = (fragment + 1) % w.num_fragments;
        inflight = some (record {
          fragment = fragment;
          speed = speed;
          flat_grads = pseudo_grad t w (some fragment);
          outcome = none;
        });
      }

  -- `_boundary_fragment`
  unfoldable pub boundary_fragment : Worker F → S → ℕ → Worker F × S
  unfolding join_and_adopt launch
  boundary_fragment w s now =
      let (w', goes_on, s') = join_and_adopt w s now in (if goes_on then launch w' now else w', s')

  -- The handler around `_sync`.
  abbrev pub handled : ℕ → Worker F × Result (Unit {0}) × S → Worker F × S
  handled now (w, err e, s) = (enter_resync w now, s)
  handled now (w, ok _, s) = (w, s)

  -- The branches of the hook at a boundary.
  unfoldable pub boundary : Worker F → S → ℕ → Worker F × S
  unfolding try_resync boundary_fragment sync enter_resync
  boundary w s now =
      if w.pending_resync
      then (if leb w.resync_at now then try_resync w s now else (w, s))
      else if ltb 1 w.num_fragments
      then boundary_fragment w s now
      else handled now (sync w s now)

  -- `_step_post_hook`; a cohort that does not gather ends the training.
  unfoldable pub step_post_hook :
      Worker F → S → ℕ → Result (Unit {0}) → Worker F × Result (Unit {0}) × S
  unfolding boundary
  step_post_hook w s now cohort =
      let w' = record w { local_step = w.local_step + 1 } in
      if ltb w'.local_step (w.sync_every / w.num_fragments) then (w', ok tt, s) else elim cohort [
        | err e ↦ (w', err e, s)
        | ok _ ↦
            let (w'', s') = boundary w' s now in
            (record w'' { local_step = 0; window_start = now }, ok tt, s')
      ]
