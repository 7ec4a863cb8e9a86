-- ===== src/Worker/Pace/Steps.antt =====
-- Every part of a boundary keeps the pace.
use native.Mathlib.Nat.{mod-lt, mul-div_cancel}
use panofabric_engine.Prelude.{
  ℕ, ◌+◌, ◌/◌, ◌<◌, ◌≡◌, sym, ap, subst, ◌∙◌, inl, inr, String, true, false, Option, none, some,
  List, ltb, ltb→lt, leb, if◌then◌else◌, Bool-cases, Option-cases, arith,
}
use panofabric_engine.Prelude.Result.{Result, ok, err}
use panofabric_engine.Prelude.Dict.{Dict}
use panofabric_engine.Diloco.Server.{Params}
use panofabric_engine.Diloco.Sync.{Header}
use panofabric_engine.Diloco.Optim.{Torch}
use panofabric_engine.Worker.{Wire, Body, Posted, Answer, Worker}
use panofabric_engine.Worker.Session.{session_roundtrip}
use panofabric_engine.Worker.Adopt.{Detached, apply_dylu, adopt_global}
use panofabric_engine.Worker.Boundary.{
  window_speed, kept_local, pulled, synced, handled, pull_global, try_resync, sync, run_push, land,
  join_and_adopt, launch, pseudo_grad, boundary_fragment, boundary, step_post_hook,
}
use panofabric_engine.Worker.Pace.{IsPaced, IsEarly, if_both, if_cases, Wired, session-Wired}
use panofabric_engine.Worker.Pace.Parts.{
  join_and_adopt-IsJoined, pulled-IsPaced, resynced-IsPaced, synced-IsPaced, handled-IsPaced,
  run_push-Wired,
}

module _ {F Q B S : Type 0} (t : Torch F) (wire : Wire F Q B) (lerp : List F → List F → List F)
    (per : ℕ → ℕ → ℕ) (post : S → Header → Body F Q B → Posted F Q B × S) where
  launch-IsPaced :
      (w : Worker F) (now : ℕ)
      → 1 < w.num_fragments
      → w.pending_resync ≡ false
      → IsPaced w
      → IsPaced (launch t wire lerp per post w now)
  unfolding launch window_speed
  launch-IsPaced w now many calm k = record {
    fragments = k.fragments;
    turn = mod-lt (w.frag_idx + 1) k.fragments;
    cycle = k.cycle;
    idle = λ e. cc;
    whole = λ e. absurd (omega arith);
    before = λ i e. ground arith;
    backoff = k.backoff;
  }

  boundary_fragment-IsPaced :
      (w : Worker F) (s : S) (now : ℕ)
      → 1 < w.num_fragments
      → w.pending_resync ≡ false
      → IsPaced w
      → IsPaced (boundary_fragment t wire lerp per post w s now).0
  unfolding boundary_fragment
  boundary_fragment-IsPaced w s now many calm k =
      let r = join_and_adopt t wire lerp per post w s now in
      let (paced, out, count, goes) = join_and_adopt-IsJoined t wire lerp per post w s now calm k in
      elim (Bool-cases r.1) [
        | inl e ↦ rw e (launch-IsPaced r.0 now (omega (arith, count)) (goes e) paced)
        | inr e ↦ rw e paced
      ]

  try_resync-IsPaced :
      (w : Worker F) (s : S) (now : ℕ)
      → IsPaced w
      → IsPaced (try_resync t wire lerp per post w s now).0
  unfolding try_resync pull_global
  try_resync-IsPaced w s now k =
      let r = session_roundtrip t wire post w s false 0 none none in
      resynced-IsPaced t wire lerp per post now (pulled t wire lerp per post r) (
        pulled-IsPaced t wire lerp per post w r (session-Wired t wire post w s false 0 none none) k)

  synced-inflight :
      (local : Option (Dict String (Detached F))) (w : Worker F)
      (r : Worker F × Result (Answer F) × S)
      → Wired w r.0
      → (synced t wire lerp per post local r).0.inflight ≡ w.inflight
  unfolding adopt_global apply_dylu
  synced-inflight local w (w', err e, s) same = ap (λ v. v.inflight) same.2
  synced-inflight local w (w', ok a, s) same =
      if_both (λ (v : Worker F). v.inflight ≡ w.inflight) a.applied (ap (λ v. v.inflight) same.2)
        (ap (λ v. v.inflight) same.2)

  boundary-IsPaced :
      (w : Worker F) (s : S) (now : ℕ)
      → IsPaced w
      → IsPaced (boundary t wire lerp per post w s now).0
  unfolding boundary sync window_speed
  boundary-IsPaced w s now k =
      if_cases (λ (r : Worker F × S). IsPaced r.0) w.pending_resync
        (λ _.
          if_both (λ (r : Worker F × S). IsPaced r.0) (leb w.resync_at now)
            (try_resync-IsPaced w s now k) k)
        (λ calm.
          if_cases (λ (r : Worker F × S). IsPaced r.0) (ltb 1 w.num_fragments)
            (λ many. boundary_fragment-IsPaced w s now (ltb→lt 1 _ many) calm k)
            (λ one. synced_whole (ground arith)))
    where
      synced_whole :
          w.num_fragments ≡ 1
          → IsPaced (handled t wire lerp per post now (sync t wire lerp per post w s now)).0
      synced_whole one =
          let w' = (window_speed per w now).1 in
          let flat = some (pseudo_grad t w none) in
          let speed = (window_speed per w now).0 in
          let same = session-Wired t wire post w' s true speed flat none in
          let r = session_roundtrip t wire post w' s true speed flat none in
          let local = if w.blends then some (kept_local w) else none in
          handled-IsPaced t wire lerp per post now (synced t wire lerp per post local r)
            (synced-IsPaced t wire lerp per post local w' r same k)
            (synced-inflight local w' r same ∙ k.whole one)

  -- What happens to a worker and its server: inner training, the end of the thread, an inner step's
  -- hook, and what the others do to the server.
  pub data WorkerStep (w : Worker F) (s : S) (w' : Worker F) (s' : S) : Type 0 where
    trains : (m o : Params F) → w' ≡ record w { model = m; inner_state = o } → WorkerStep w s w' s'
    lands : land t wire lerp per post w s ≡ (w', s') → WorkerStep w s w' s'
    hooks :
        (now : ℕ)
        → step_post_hook t wire lerp per post w s now (ok tt) ≡ (w', ok tt, s')
        → WorkerStep w s w' s'
    others : w' ≡ w → WorkerStep w s w' s'

  pub data WorkerRun (w : Worker F) (s : S) : Worker F → S → Type 0 where
    here : WorkerRun w s w s
    next : {v u : Worker F} {a b : S} → WorkerRun w s v a → WorkerStep v a u b → WorkerRun w s u b

  abbrev pub IsTimed : Worker F → Type 0
  IsTimed w = IsPaced w × IsEarly w

  a_window : (w : Worker F) → IsPaced w → 0 < w.sync_every / w.num_fragments
  a_window w k =
      let (n, pos, e) = k.cycle in
      omega (arith, pos, ap (λ c. c / w.num_fragments) e, mul-div_cancel n k.fragments)

  land-IsTimed : (w : Worker F) (s : S) → IsTimed w → IsTimed (land t wire lerp per post w s).0
  unfolding land
  land-IsTimed w s k = elim (Option-cases w.inflight) [
    | inl e ↦ rw (e, land) k
    | inr (i, e) ↦
        let (b, d, same) = run_push-Wired t wire lerp per post w s i in
        let i' = λ (r : Result (Answer F)). record i { outcome = some r } in
        rw (e, land)
          (subst
            (λ (v : Worker F).
              IsTimed (record v { inflight = some (i' (run_push t wire lerp per post w s i).1) }))
            (sym same)
            (
              record {
                fragments = k.0.fragments;
                turn = k.0.turn;
                cycle = k.0.cycle;
                idle = λ p. cc (k.0.idle p);
                whole = λ p. cc (k.0.whole p);
                before = λ j p. ground (arith, p, k.0.before i e);
                backoff = k.0.backoff;
              },
              k.1,
            ))
  ]

  hook-IsTimed :
      (w : Worker F) (s : S) (now : ℕ)
      → IsTimed w
      → IsTimed (step_post_hook t wire lerp per post w s now (ok tt)).0
  unfolding step_post_hook
  hook-IsTimed w s now k =
      let w' = record w { local_step = w.local_step + 1 } in
      if_cases (λ (r : Worker F × Result (Unit {0}) × S). IsTimed r.0)
        (ltb w'.local_step (w.sync_every / w.num_fragments)) (λ soon. (k.0, ltb→lt _ _ soon))
        (λ _.
          let paced = boundary-IsPaced w' s now k.0 in
          (paced, a_window (boundary t wire lerp per post w' s now).0 paced))

  WorkerStep-IsTimed : {w w' : Worker F} {s s' : S} → WorkerStep w s w' s' → IsTimed w → IsTimed w'
  WorkerStep-IsTimed (trains m o e) k = subst (λ (v : Worker F). IsTimed v) (sym e) k
  WorkerStep-IsTimed {w} {s = s} (lands e) k =
      subst (λ (r : Worker F × S). IsTimed r.0) e (land-IsTimed w s k)
  WorkerStep-IsTimed {w} {s = s} (hooks now e) k =
      subst (λ (r : Worker F × Result (Unit {0}) × S). IsTimed r.0) e (hook-IsTimed w s now k)
  WorkerStep-IsTimed (others e) k = subst (λ (v : Worker F). IsTimed v) (sym e) k

  -- Whatever its server answers and whenever the background thread ends: the cycle stays a whole number of
  -- windows for each fragment and the step count within a window; what is in flight is the fragment
  -- before the next one, and nothing is while a resync is pending or when there is one fragment; the
  -- backoff stays within its bound.
  pub WorkerRun-IsTimed :
      {w : Worker F} {s : S} {w' : Worker F} {s' : S} → WorkerRun w s w' s' → IsTimed w → IsTimed w'
  WorkerRun-IsTimed here k = k
  WorkerRun-IsTimed (next run step) k = WorkerStep-IsTimed step (WorkerRun-IsTimed run k)
