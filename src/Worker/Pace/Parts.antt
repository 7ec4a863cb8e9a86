-- ===== src/Worker/Pace/Parts.antt =====
-- What an exchange leads to keeps the pace.
use panofabric_engine.Prelude.{
  ℕ, ◌≡◌, refl, sym, ap, subst, ◌∙◌, inl, inr, String, Bool, true, false, Option, none, some, List,
  Option-cases, arith,
}
use panofabric_engine.Prelude.Result.{Result, ok, err}
use panofabric_engine.Prelude.Dict.{Dict}
use panofabric_engine.Diloco.Sync.{Header}
use panofabric_engine.Diloco.Optim.{Torch}
use panofabric_engine.Worker.{Wire, Body, Posted, Answer, InflightPush, Worker}
use panofabric_engine.Worker.Adopt.{
  Detached, apply_dylu, adopt_global, adopt_fragment, installed_global, installed_fragment,
}
use panofabric_engine.Worker.Boundary.{
  enter_resync, pulled, resynced, synced, handled, run_push, adopt_landed, join_and_adopt,
}
use panofabric_engine.Worker.Pace.{
  IsPaced, if_both, apply_dylu-IsPaced, enter_resync-IsPaced, Wired, session-Wired,
}

module _ {F Q B S : Type 0} (t : Torch F) (wire : Wire F Q B) (lerp : List F → List F → List F)
    (per : ℕ → ℕ → ℕ) (post : S → Header → Body F Q B → Posted F Q B × S) where
  Wired-IsPaced : (w w' : Worker F) → Wired w w' → IsPaced w → IsPaced w'
  Wired-IsPaced w w' (b, d, e) k = subst (λ (v : Worker F). IsPaced v) (sym e) k

  adopt_global-IsPaced :
      (w : Worker F) (a : Answer F) (local : Option (Dict String (Detached F)))
      → IsPaced w
      → IsPaced (adopt_global lerp w a local)
  unfolding adopt_global
  adopt_global-IsPaced w a local k =
      apply_dylu-IsPaced (installed_global lerp w a local) a.new_steps k

  adopt_fragment-IsPaced :
      (w : Worker F) (f : ℕ) (a : Answer F) → IsPaced w → IsPaced (adopt_fragment lerp w f a)
  unfolding adopt_fragment
  adopt_fragment-IsPaced w f a k = apply_dylu-IsPaced (installed_fragment lerp w f a) a.new_steps k

  pub pulled-IsPaced :
      (w : Worker F) (r : Worker F × Result (Answer F) × S)
      → Wired w r.0
      → IsPaced w
      → IsPaced (pulled t wire lerp per post r).0
  pulled-IsPaced w (w', err e, s) same k = Wired-IsPaced w w' same k
  pulled-IsPaced w (w', ok a, s) same k = adopt_global-IsPaced w' a none (Wired-IsPaced w w' same k)

  -- A resync ends the waiting or doubles the wait, up to the bound.
  pub resynced-IsPaced :
      (now : ℕ) (r : Worker F × Result (Unit {0}) × S)
      → IsPaced r.0
      → IsPaced (resynced t wire lerp per post now r).0
  resynced-IsPaced now (w, err e, s) k = record {
    fragments = k.fragments;
    turn = k.turn;
    cycle = k.cycle;
    idle = k.idle;
    whole = k.whole;
    before = k.before;
    backoff = omega arith;
  }
  resynced-IsPaced now (w, ok _, s) k = record {
    fragments = k.fragments;
    turn = k.turn;
    cycle = k.cycle;
    idle = λ e. cc;
    whole = k.whole;
    before = k.before;
    backoff = omega arith;
  }

  pub synced-IsPaced :
      (local : Option (Dict String (Detached F))) (w : Worker F)
      (r : Worker F × Result (Answer F) × S)
      → Wired w r.0
      → IsPaced w
      → IsPaced (synced t wire lerp per post local r).0
  synced-IsPaced local w (w', err e, s) same k = Wired-IsPaced w w' same k
  synced-IsPaced local w (w', ok a, s) same k =
      let k' = Wired-IsPaced w w' same k in
      if_both (λ v. IsPaced v) a.applied (adopt_global-IsPaced w' a local k')
        (adopt_global-IsPaced w' a none k')

  pub handled-IsPaced :
      (now : ℕ) (r : Worker F × Result (Unit {0}) × S)
      → IsPaced r.0
      → r.0.inflight ≡ none
      → IsPaced (handled t wire lerp per post now r).0
  handled-IsPaced now (w, err e, s) k none_out = enter_resync-IsPaced w now none_out k
  handled-IsPaced now (w, ok _, s) k none_out = k

  pub run_push-Wired :
      (w : Worker F) (s : S) (i : InflightPush F) → Wired w (run_push t wire lerp per post w s i).0
  unfolding run_push
  run_push-Wired w s i = elim (Option-cases i.outcome) [
    | inl e ↦
        rw (e, run_push)
          (session-Wired t wire post w s true i.speed (some i.flat_grads) (some i.fragment))
    | inr (r, e) ↦ rw (e, run_push) (w.server_bf16, w.deltas_since_full, refl)
  ]

  -- A joined worker: nothing is in flight, and where it goes on no resync is pending.
  abbrev pub IsJoined : ℕ → Worker F × Bool × S → Type 0
  IsJoined p (w, goes_on, s) =
      IsPaced w
      × (w.inflight ≡ none)
      × (w.num_fragments ≡ p)
      × (goes_on ≡ true → w.pending_resync ≡ false)

  adopt_landed-IsJoined :
      (now f : ℕ) (w : Worker F) (r : Worker F × Result (Answer F) × S)
      → Wired w r.0
      → w.inflight ≡ none
      → w.pending_resync ≡ false
      → IsPaced w
      → IsJoined w.num_fragments (adopt_landed t wire lerp per post now f r)
  unfolding adopt_fragment apply_dylu enter_resync
  adopt_landed-IsJoined now f w (w', err x, s) same e p k =
      let c' : w'.num_fragments ≡ w.num_fragments = ap (λ v. v.num_fragments) same.2 in
      let e' : w'.inflight ≡ none = ap (λ v. v.inflight) same.2 ∙ e in
      (enter_resync-IsPaced w' now e' (Wired-IsPaced w w' same k), e', c', λ h. cc)
  adopt_landed-IsJoined now f w (w', ok a, s) same e p k =
      let c' : w'.num_fragments ≡ w.num_fragments = ap (λ v. v.num_fragments) same.2 in
      let e' : w'.inflight ≡ none = ap (λ v. v.inflight) same.2 ∙ e in
      let p' : w'.pending_resync ≡ false = ap (λ v. v.pending_resync) same.2 ∙ p in
      let k' = Wired-IsPaced w w' same k in
      if_both (λ r. IsJoined w.num_fragments r) a.applied
        (adopt_fragment-IsPaced w' f a k', e', c', λ _. p')
        (enter_resync-IsPaced (record w' { skip_speed_report = true }) now e' k', e', c', λ h. cc)

  pub join_and_adopt-IsJoined :
      (w : Worker F) (s : S) (now : ℕ)
      → w.pending_resync ≡ false
      → IsPaced w
      → IsJoined w.num_fragments (join_and_adopt t wire lerp per post w s now)
  unfolding join_and_adopt
  join_and_adopt-IsJoined w s now calm k = elim (Option-cases w.inflight) [
    | inl e ↦ rw (e, join_and_adopt) (k, e, refl, λ _. calm)
    | inr (i, e) ↦
        let out = record w { inflight = none } in
        rw (e, join_and_adopt)
          (adopt_landed-IsJoined now i.fragment out (run_push t wire lerp per post out s i)
            (run_push-Wired out s i) refl calm
            (record {
              fragments = k.fragments;
              turn = k.turn;
              cycle = k.cycle;
              idle = λ _. refl;
              whole = λ _. refl;
              before = λ i e. cc;
              backoff = k.backoff;
            }))
  ]
