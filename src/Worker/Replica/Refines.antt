-- ===== src/Worker/Replica/Refines.antt =====
-- A replica does what the worker it stands for does.
use panofabric_engine.Prelude.{
  ℕ, suc, ◌≡◌, refl, sym, ap, subst, ◌∙◌, String, Bool, true, false, Option, none, some, List, map,
  length, string_eq, if◌then◌else◌,
}
use panofabric_engine.Prelude.Result.{Result, ok, err}
use panofabric_engine.Prelude.Dict.{Dict}
use panofabric_engine.Diloco.Server.{Params}
use panofabric_engine.Diloco.Sync.{Header}
use panofabric_engine.Diloco.Optim.{Torch}
use panofabric_engine.Worker.{Wire, Body, Posted, Answer, Worker}
use panofabric_engine.Worker.Session.{session_roundtrip}
use panofabric_engine.Worker.Adopt.{Detached, detach_cpu, adopt_global, apply_dylu}
use panofabric_engine.Worker.Boundary.{
  enter_resync, window_speed, kept_local, pseudo_grad, sync, synced, handled, pulled, resynced,
  pull_global, try_resync,
}
use panofabric_engine.Worker.Pace.{session-Wired}
use panofabric_engine.Worker.Replica.{
  Placement, Replica, adopt_replica, synced_replica, sync_replica, resynced_replica, resync_replica,
}
use panofabric_engine.Worker.Replica.Shards.{
  IsPlacement, StandFor, over_ranks, gathered-eq-pseudo_grad,
}
use panofabric_engine.Worker.Replica.Adopts.{HasParts, Follows, copies, adopt_replica-Follows}
use panofabric_engine.Worker.Replica.Lead.{session_roundtrip-model}

module _ {F Q B S : Type 0} (t : Torch F) (wire : Wire F Q B) (lerp : List F → List F → List F)
    (per : ℕ → ℕ → ℕ) (post : S → Header → Body F Q B → Posted F Q B × S) (pl : Placement F)
    (Fits : String → List F → Type 0) (world : ℕ) (law : IsPlacement pl lerp world Fits) where
  kept-copies :
      (b : Bool) (w : Worker F)
      → w.on_cpu ≡ false
      → (if b then some (kept_local w) else none) ≡ copies pl lerp Fits world law b w.model
  kept-copies b w off =
      ap (λ cpu. if b then some (map (λ (k, v). (k, detach_cpu cpu v)) w.model) else none) off

  adopted-Follows :
      (applied : Bool) (w : Worker F) (m : Params F) (fs : List (Worker F)) (a : Answer F) (s : S)
      → w.on_cpu ≡ false
      → HasParts pl lerp Fits w a.flat_params
      → StandFor pl Fits w m fs
      → Follows pl lerp Fits world law
          (
            if applied
                then adopt_replica pl lerp (over_ranks w m fs) a w.blends
                else adopt_replica pl lerp
                    (over_ranks (record w { skip_speed_report = true }) m fs)
                    a
                    false,
            s,
          )
          (
            if applied
                then adopt_global lerp w a (if w.blends then some (kept_local w) else none)
                else record (adopt_global lerp w a none) { skip_speed_report = true },
            s,
          )
  unfolding adopt_global apply_dylu
  adopted-Follows true w m fs a s off has h =
      subst
        (λ (k : Option (Dict String (Detached F))).
          Follows pl lerp Fits world law (adopt_replica pl lerp (over_ranks w m fs) a w.blends, s)
            (adopt_global lerp w a k, s))
        (sym (kept-copies w.blends w off))
        (adopt_replica-Follows pl lerp Fits world law s w.blends w m fs a has h)
  adopted-Follows false w m fs a s off has h =
      adopt_replica-Follows pl lerp Fits world law s false (record w { skip_speed_report = true }) m
        fs a (record { distinct = has.distinct; sizes = has.sizes; at = has.at }) h

  -- The replica and the worker behind the same exchange.
  synced-Follows :
      (now : ℕ) (w : Worker F) (m : Params F) (fs : List (Worker F)) (r : Result (Answer F)) (s : S)
      → w.on_cpu ≡ false
      → ((a : Answer F) → r ≡ ok a → HasParts pl lerp Fits w a.flat_params)
      → StandFor pl Fits w m fs
      → Follows pl lerp Fits world law
          (synced_replica t wire lerp per post pl now fs (record w { model = m }, r, s))
          (handled t wire lerp per post now (
            synced t wire lerp per post (if w.blends then some (kept_local w) else none) (w, r, s)))
  unfolding enter_resync
  synced-Follows now w m fs (err e) s off has h = (m, fs, refl, h)
  synced-Follows now w m fs (ok a) s off has h =
      adopted-Follows a.applied w m fs a s off (has a refl) h

  -- The exchange of `_sync`.
  abbrev pub exchange : Worker F → S → ℕ → Worker F × Result (Answer F) × S
  exchange w s now =
      let (speed, w') = window_speed per w now in
      session_roundtrip t wire post w' s true speed (some (pseudo_grad t w none)) none

  -- The ranks of a replica hold the parts of a worker's model on another device than the CPU, laid out as
  -- documented, and the answer of the exchange, if it has one, has a part for each parameter. Then
  -- `_sync_replica` does on all ranks at once what the worker does at this boundary, with a failure too: the
  -- server sees the same request, the lead is the worker but for its model, and each rank's model is its part
  -- of the worker's.
  pub sync_replica-Follows :
      (w : Worker F) (m : Params F) (fs : List (Worker F)) (s : S) (now : ℕ)
      → world ≡ suc (length fs)
      → w.on_cpu ≡ false
      → StandFor pl Fits w m fs
      → ((a : Answer F) → (exchange w s now).1 ≡ ok a → HasParts pl lerp Fits w a.flat_params)
      → Follows pl lerp Fits world law
          (sync_replica t wire lerp per post pl (over_ranks w m fs) s now)
          (handled t wire lerp per post now (sync t wire lerp per post w s now))
  unfolding sync_replica sync window_speed
  sync_replica-Follows w m fs s now count off h has =
      let speed = (window_speed per w now).0 in
      let w1 = record w { skip_speed_report = false } in
      let r = exchange w s now in
      let (b, d, wired) =
        session-Wired t wire post w1 s true speed (some (pseudo_grad t w none)) none in
      let same_push =
        gathered-eq-pseudo_grad pl Fits t lerp w m fs
          (subst (λ (k : ℕ). IsPlacement pl lerp k Fits) count law) h in
      let same_exchange =
        ap (λ g. session_roundtrip t wire post (record w1 { model = m }) s true speed (some g) none)
          same_push
        ∙ session_roundtrip-model t wire m post w1 s true speed (some (pseudo_grad t w none))
            none in
      let local = if w.blends then some (kept_local w) else none in
      subst
        (λ (x : Replica F × S).
          Follows pl lerp Fits world law x
            (handled t wire lerp per post now (synced t wire lerp per post local r)))
        (ap (synced_replica t wire lerp per post pl now fs) (sym same_exchange))
        (subst
          (λ (v : Worker F).
            Follows pl lerp Fits world law
              (synced_replica t wire lerp per post pl now fs (record v { model = m }, r.1, r.2))
              (handled t wire lerp per post now (synced t wire lerp per post local (v, r.1, r.2))))
          (sym wired)
          (synced-Follows now (record w1 { server_bf16 = b; deltas_since_full = d }) m fs r.1 r.2
            off
            (λ a e.
              let parts = has a e in
              record { distinct = parts.distinct; sizes = parts.sizes; at = parts.at })
            h))

  pulled-Follows :
      (now : ℕ) (w : Worker F) (m : Params F) (fs : List (Worker F)) (r : Result (Answer F)) (s : S)
      → ((a : Answer F) → r ≡ ok a → HasParts pl lerp Fits w a.flat_params)
      → StandFor pl Fits w m fs
      → Follows pl lerp Fits world law
          (resynced_replica t wire lerp per post pl now fs (record w { model = m }, r, s))
          (resynced t wire lerp per post now (pulled t wire lerp per post (w, r, s)))
  unfolding adopt_global apply_dylu
  pulled-Follows now w m fs (err e) s has h = (m, fs, refl, h)
  pulled-Follows now w m fs (ok a) s has h =
      let (m', fs', same, stand) =
        adopt_replica-Follows pl lerp Fits world law s false w m fs a (has a refl) h in
      (
        m',
        fs',
        ap
            (λ (x : Replica F × S). (
              record {
                lead = record x.0.lead {
                  pending_resync = false;
                  resync_backoff = 1;
                  skip_speed_report = true;
                };
                followers = x.0.followers;
              },
              x.1,
            ))
            same,
        stand,
      )

  -- The same of `_resync_replica`, on every device.
  pub resync_replica-Follows :
      (w : Worker F) (m : Params F) (fs : List (Worker F)) (s : S) (now : ℕ)
      → StandFor pl Fits w m fs
      → ((a : Answer F)
          → (session_roundtrip t wire post w s false 0 none none).1 ≡ ok a
          → HasParts pl lerp Fits w a.flat_params)
      → Follows pl lerp Fits world law
          (resync_replica t wire lerp per post pl (over_ranks w m fs) s now)
          (try_resync t wire lerp per post w s now)
  unfolding resync_replica try_resync pull_global
  resync_replica-Follows w m fs s now h has =
      let r = session_roundtrip t wire post w s false 0 none none in
      let (b, d, wired) = session-Wired t wire post w s false 0 none none in
      subst
        (λ (x : Replica F × S).
          Follows pl lerp Fits world law x
            (resynced t wire lerp per post now (pulled t wire lerp per post r)))
        (ap (resynced_replica t wire lerp per post pl now fs)
          (sym (session_roundtrip-model t wire m post w s false 0 none none)))
        (subst
          (λ (v : Worker F).
            Follows pl lerp Fits world law
              (resynced_replica t wire lerp per post pl now fs (record v { model = m }, r.1, r.2))
              (resynced t wire lerp per post now (pulled t wire lerp per post (v, r.1, r.2))))
          (sym wired)
          (pulled-Follows now (record w { server_bf16 = b; deltas_since_full = d }) m fs r.1 r.2
            (λ a e.
              let parts = has a e in
              record { distinct = parts.distinct; sizes = parts.sizes; at = parts.at })
            h))
