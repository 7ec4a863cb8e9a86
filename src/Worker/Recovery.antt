-- ===== src/Worker/Recovery.antt =====
-- A boundary whose exchange fails, and the boundaries after it.
use panofabric_engine.Prelude.{
  ℕ, ◌+◌, ◌*◌, ◌≤◌, ◌≡◌, refl, sym, ap, subst, ◌∙◌, Bool, true, false, Option, none, some, List,
  String, min, arith, leb, ltb, if◌then◌else◌,
}
use panofabric_engine.Prelude.Result.{Result, ok, err, Error}
use panofabric_engine.Prelude.Dict.{Dict}
use panofabric_engine.Diloco.Sync.{Header}
use panofabric_engine.Diloco.Optim.{Torch}
use panofabric_engine.Worker.{Wire, Body, Posted, Answer, Worker}
use panofabric_engine.Worker.Session.{session_roundtrip}
use panofabric_engine.Worker.Boundary.{
  window_speed, pseudo_grad, pull_global, try_resync, resynced, sync, synced, boundary,
  boundary_fragment, enter_resync, kept_local, pulled, handled,
}
use panofabric_engine.Worker.Adopt.{Detached}
use panofabric_engine.Worker.Pace.{Wired, session-Wired}

module _ {F Q B S : Type 0} (t : Torch F) (wire : Wire F Q B) (lerp : List F → List F → List F)
    (per : ℕ → ℕ → ℕ) (post : S → Header → Body F Q B → Posted F Q B × S) where
  -- What training and the next push rest on.
  abbrev pub SameModel : Worker F → Worker F → Type 0
  SameModel w w' =
      (w'.model ≡ w.model)
      × (w'.global_params ≡ w.global_params)
      × (w'.inner_state ≡ w.inner_state)
      × (w'.baseline_revision ≡ w.baseline_revision)
      × (w'.sync_every ≡ w.sync_every)
      × (w'.inflight ≡ w.inflight)

  Wired-SameModel : (w w' : Worker F) → Wired w w' → SameModel w w'
  Wired-SameModel w w' (b, d, e) = (
    ap (λ v. v.model) e,
    ap (λ v. v.global_params) e,
    ap (λ v. v.inner_state) e,
    ap (λ v. v.baseline_revision) e,
    ap (λ v. v.sync_every) e,
    ap (λ v. v.inflight) e,
  )

  -- The state behind a failure: the next try is a pull, not before that time.
  abbrev pub IsWaiting : Worker F → ℕ → ℕ → Worker F → Type 0
  IsWaiting w resync_at backoff w' =
      SameModel w w'
      × (w'.pending_resync ≡ true)
      × (w'.resync_at ≡ resync_at)
      × (w'.resync_backoff ≡ backoff)

  -- The exchange of a boundary: a pull while a resync is pending, or a push.
  abbrev pub attempt : Worker F → S → ℕ → Worker F × Result (Answer F) × S
  attempt w s now =
      if w.pending_resync
      then session_roundtrip t wire post w s false 0 none none
      else (let (speed, w') = window_speed per w now in
          session_roundtrip t wire post w' s true speed (some (pseudo_grad t w none)) none)

  failed_pull :
      (w : Worker F) (now : ℕ) (e : Error) (r : Worker F × Result (Answer F) × S)
      → Wired w r.0
      → w.pending_resync ≡ true
      → r.1 ≡ err e
      → IsWaiting w
          (now + w.resync_backoff)
          (min (w.resync_backoff * 2) w.resync_backoff_max)
          (resynced t wire lerp per post now (pulled t wire lerp per post r)).0
  failed_pull w now e (w', err x, s) same p fails = (
    Wired-SameModel w w' same,
    ap (λ v. v.pending_resync) same.2 ∙ p,
    ap (λ v. now + v.resync_backoff) same.2,
    ap (λ v. min (v.resync_backoff * 2) v.resync_backoff_max) same.2,
  )
  failed_pull w now e (w', ok a, s) same p fails = cc

  failed_push :
      (w : Worker F) (now : ℕ) (e : Error) (r : Worker F × Result (Answer F) × S)
      (local : Option (Dict String (Detached F)))
      → Wired (record w { skip_speed_report = false }) r.0
      → r.1 ≡ err e
      → IsWaiting w now 1 (handled t wire lerp per post now (synced t wire lerp per post local r)).0
  unfolding enter_resync
  failed_push w now e (w', err x, s) local same fails =
      (Wired-SameModel (record w { skip_speed_report = false }) w' same, refl, refl, refl)
  failed_push w now e (w', ok a, s) local same fails = cc

  -- A boundary of a worker without fragments, at its time to try, whose exchange fails in any way. The model,
  -- the backup, the inner optimizer, the cycle, the revision that the next push names and the slot of a
  -- push in flight stay as they were. The next exchange is a pull: at once behind a push, and behind a pull
  -- after the backoff, which doubles up to its bound.
  pub boundary-err :
      (w : Worker F) (s : S) (now : ℕ) (e : Error)
      → w.num_fragments ≡ 1
      → (w.pending_resync ≡ true → w.resync_at ≤ now)
      → (attempt w s now).1 ≡ err e
      → IsWaiting w
          (if w.pending_resync then now + w.resync_backoff else now)
          (if w.pending_resync then min (w.resync_backoff * 2) w.resync_backoff_max else 1)
          (boundary t wire lerp per post w s now).0
  unfolding boundary sync try_resync pull_global window_speed
  boundary-err w s now e one due fails = at_bool w.pending_resync refl
    where
      push : Worker F × Result (Answer F) × S
      push =
          let (speed, w') = window_speed per w now in
          session_roundtrip t wire post w' s true speed (some (pseudo_grad t w none)) none

      pull : Worker F × Result (Answer F) × S
      pull = session_roundtrip t wire post w s false 0 none none

      at_bool :
          (b : Bool)
          → w.pending_resync ≡ b
          → IsWaiting w
              (if b then now + w.resync_backoff else now)
              (if b then min (w.resync_backoff * 2) w.resync_backoff_max else 1)
              (if b
                then (if leb w.resync_at now
                    then try_resync t wire lerp per post w s now
                    else (w, s))
                else if ltb 1 w.num_fragments
                then boundary_fragment t wire lerp per post w s now
                else handled t wire lerp per post now (sync t wire lerp per post w s now)).0
      at_bool true p =
          let now_due : leb w.resync_at now ≡ true = ground (arith, due p) in
          let failed : pull.1 ≡ err e =
            ap (λ (b : Bool). (if b then pull else push).1) (sym p) ∙ fails in
          subst
            (λ (b : Bool).
              IsWaiting w (now + w.resync_backoff) (min (w.resync_backoff * 2) w.resync_backoff_max)
                (if b then try_resync t wire lerp per post w s now else (w, s)).0)
            (sym now_due)
            (failed_pull w now e pull (session-Wired t wire post w s false 0 none none) p failed)
      at_bool false p =
          let whole : ltb 1 w.num_fragments ≡ false = ground (arith, one) in
          let failed : push.1 ≡ err e =
            ap (λ (b : Bool). (if b then pull else push).1) (sym p) ∙ fails in
          let w' = record w { skip_speed_report = false } in
          subst
            (λ (b : Bool).
              IsWaiting w now 1
                (if b
                  then boundary_fragment t wire lerp per post w s now
                  else handled t wire lerp per post now (sync t wire lerp per post w s now)).0)
            (sym whole)
            (failed_push w now e push (if w.blends then some (kept_local w) else none)
              (session-Wired t wire post w' s true _ (some (pseudo_grad t w none)) none) failed)
