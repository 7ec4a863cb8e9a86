-- ===== src/Diloco/Checkpoint/Lag.antt =====
-- How far the file at the checkpoint path can be behind the server.
use panofabric_engine.Prelude.{
  ℕ, ◌+◌, ◌*◌, ◌≤◌, ◌<◌, ◌≡◌, ◌≢◌, refl, ap, subst, inl, inr, true, false, Bool, none, some, List,
  [], ◌∷◌, Option-cases, arith, if◌then◌else◌,
}
use panofabric_engine.Prelude.Result.{Result, ok, >>=-eq-ok}
use panofabric_engine.Diloco.Server.{Hooks, Params, Island, or_zero, Server, commit_step, apply_one}
use panofabric_engine.Diloco.Checkpoint.{
  Saved, Stored, TorchFiles, IsTorchFiles, Disk, Checkpointed, Attempt, initial, init_server,
  completed, cut, state_of, save_checkpoint, is_due, maybe_checkpoint, session, restored,
  load_checkpoint,
}
use native.Mathlib.Nat.{add-mul, add_assoc}
use panofabric_engine.Diloco.Checkpoint.Restart.{Push}

ok_inj {ℓ} : {A : Type ℓ} {a b : A} → ◌≡◌ {A = Result A} (ok a) (ok b) → a ≡ b
ok_inj e = cc

module _ {F Opt S Byte : Type 0} (st : Stored Opt S) (t : TorchFiles F S Byte)
    (h : Hooks F Opt) where
  -- Sessions one after the other, each with the way its save ends if it has one.
  unfoldable pub run_sessions :
      Checkpointed F Opt Byte → List (Push F × Attempt) → Checkpointed F Opt Byte
  unfolding session
  run_sessions s [] = s
  run_sessions s (((grads, fragment, island), attempt) ∷ sessions) =
      run_sessions (session st t h s grads (or_zero fragment) island attempt) sessions

  -- The saves that do not come to their end.
  abbrev unfinished : Attempt → ℕ
  unfinished completed = 0
  unfinished (cut _) = 1

  unfoldable pub failed_saves : Checkpointed F Opt Byte → List (Push F × Attempt) → ℕ
  unfolding session
  failed_saves s [] = 0
  failed_saves s (((grads, fragment, island), attempt) ∷ sessions) =
      let committed = record s { model = apply_one h s.model grads (or_zero fragment) island } in
      (if is_due st t committed then unfinished attempt else 0)
      + failed_saves (session st t h s grads (or_zero fragment) island attempt) sessions

  -- The file at the path loads, and as a state of a revision that the claimed one is ahead of by at most
  -- `failed` intervals; the server has made less than an interval and `slack` of commits since the claim.
  record IsBehind (every failed slack : ℕ) (s : Checkpointed F Opt Byte) : Type 0 where
    file : List Byte
    saved : Saved F S
    present : s.disk.checkpoint ≡ some file
    loads : t.load file ≡ ok saved
    not_ahead : saved.revision ≤ s.last_checkpoint_revision
    claimed : s.last_checkpoint_revision ≤ s.model.revision
    lag : s.last_checkpoint_revision ≤ saved.revision + failed * every
    since : s.model.revision < s.last_checkpoint_revision + every + slack
    positive : 1 ≤ every
    interval : s.checkpoint_every ≡ every
    on : s.has_path ≡ true

  module _ (law : IsTorchFiles t) where
    claimed-IsBehind :
        (every n : ℕ) (s : Checkpointed F Opt Byte) (attempt : Attempt)
        → IsBehind every n 1 s
        → IsBehind every (n + unfinished attempt) 0 (record s {
          last_checkpoint_revision = s.model.revision;
          disk = (save_checkpoint st t s.model attempt s.disk).1;
        })
    unfolding save_checkpoint
    claimed-IsBehind every n s completed b = record {
      file = t.save (state_of st t s.model);
      saved = state_of st t s.model;
      present = refl;
      loads = law.load_save _;
      not_ahead = omega arith;
      claimed = omega arith;
      lag = omega arith;
      since = omega (arith, b.positive);
      positive = b.positive;
      interval = b.interval;
      on = b.on;
    }
    claimed-IsBehind every n s (cut k) b = record {
      file = b.file;
      saved = b.saved;
      present = b.present;
      loads = b.loads;
      not_ahead = omega (arith, b.not_ahead, b.claimed);
      claimed = omega arith;
      lag = omega (arith, b.lag, b.since, add-mul n 1 every);
      since = omega (arith, b.positive);
      positive = b.positive;
      interval = b.interval;
      on = b.on;
    }

    committed-IsBehind :
        (every n : ℕ) (s : Checkpointed F Opt Byte) (grads : Params F) (fragment : ℕ)
        (island : Island)
        → IsBehind every n 0 s
        → IsBehind every n 1 (record s { model = apply_one h s.model grads fragment island })
    unfolding apply_one commit_step
    committed-IsBehind every n s grads fragment island b = record {
      file = b.file;
      saved = b.saved;
      present = b.present;
      loads = b.loads;
      not_ahead = b.not_ahead;
      claimed = omega (arith, b.claimed);
      lag = b.lag;
      since = omega (arith, b.since);
      positive = b.positive;
      interval = b.interval;
      on = b.on;
    }

    settled-IsBehind :
        (every n : ℕ) (s : Checkpointed F Opt Byte) (attempt : Attempt) (due : Bool)
        → is_due st t s ≡ due
        → IsBehind every n 1 s
        → IsBehind every (n + (if due then unfinished attempt else 0)) 0 (
            if due
            then record s {
              last_checkpoint_revision = s.model.revision;
              disk = (save_checkpoint st t s.model attempt s.disk).1;
            }
            else s)
    settled-IsBehind every n s attempt true due b = claimed-IsBehind every n s attempt b
    settled-IsBehind every n s attempt false early b = record {
      file = b.file;
      saved = b.saved;
      present = b.present;
      loads = b.loads;
      not_ahead = b.not_ahead;
      claimed = b.claimed;
      lag = omega (arith, b.lag, add-mul n 0 every);
      since = ground (arith, b.on, b.interval, b.since, early);
      positive = b.positive;
      interval = b.interval;
      on = b.on;
    }

    run_sessions-IsBehind :
        (every n : ℕ) (s : Checkpointed F Opt Byte) (sessions : List (Push F × Attempt))
        → IsBehind every n 0 s
        → IsBehind every (n + failed_saves s sessions) 0 (run_sessions s sessions)
    unfolding run_sessions failed_saves session maybe_checkpoint
    run_sessions-IsBehind every n s [] b = subst (λ k. IsBehind every k 0 s) (omega arith) b
    run_sessions-IsBehind every n s (((grads, fragment, island), attempt) ∷ sessions) b =
        let committed = record s { model = apply_one h s.model grads (or_zero fragment) island } in
        rw (← add_assoc n (if is_due st t committed then unfinished attempt else 0) _) (
          run_sessions-IsBehind every
            (n + (if is_due st t committed then unfinished attempt else 0)) _ sessions
            (settled-IsBehind every n committed attempt (is_due st t committed) refl
              (committed-IsBehind every n s grads (or_zero fragment) island b)))

    load-IsBehind :
        (every : ℕ) (s0 s : Checkpointed F Opt Byte) (file : List Byte)
        → 1 ≤ every
        → s0.checkpoint_every ≡ every
        → s0.has_path ≡ true
        → s0.disk.checkpoint ≡ some file
        → load_checkpoint st t s0 file ≡ ok s
        → IsBehind every 0 0 s
    unfolding load_checkpoint restored
    load-IsBehind every s0 s file positive interval on found loaded =
        let (x, reads, rest) = >>=-eq-ok (t.load file) _ loaded in
        let (m, is_model, is) = >>=-eq-ok (restored st t s0.model x) _ rest in
        let (p, _, is_params) = >>=-eq-ok (t.load_params s0.model.params x.model) _ is_model in
        let revision : x.revision ≡ m.revision = ap (λ m. m.revision) (ok_inj is_params) in
        subst (IsBehind every 0 0) (ok_inj is) (record {
          file = file;
          saved = x;
          present = found;
          loads = reads;
          not_ahead = omega (arith, revision);
          claimed = omega arith;
          lag = omega (arith, revision);
          since = omega (arith, positive);
          positive = positive;
          interval = interval;
          on = on;
        })

    -- A server that loaded its checkpoint file when it started, and that takes a checkpoint every so
    -- many revisions, at least one. After any sessions, each with one push, however their saves end: the
    -- file at the path loads, and its revision is not ahead of the server and is behind it by less than
    -- `failed + 1` intervals, where `failed` counts the saves that did not come to their end.
    pub run_sessions-lag :
        (m : Server F Opt) (every : ℕ) (d : Disk Byte) (s : Checkpointed F Opt Byte)
        (sessions : List (Push F × Attempt))
        → 1 ≤ every
        → d.checkpoint ≢ none
        → init_server st t m true every d ≡ ok s
        → (file : List Byte) × (saved : Saved F S) × ((run_sessions s sessions).disk.checkpoint
            ≡ some file)
          × (t.load file ≡ ok saved)
          × (saved.revision ≤ (run_sessions s sessions).model.revision)
          × ((run_sessions s sessions).model.revision
              < saved.revision + (failed_saves s sessions + 1) * every)
    unfolding init_server
    run_sessions-lag m every d s sessions positive present started =
        elim (Option-cases d.checkpoint) [
          | inl missing ↦ absurd (present missing)
          | inr (file, found) ↦
              let b = run_sessions-IsBehind every 0 s sessions (
                load-IsBehind every (initial m true every d) s file positive refl refl found
                  (rw found at started)) in
              (
                b.file,
                b.saved,
                b.present,
                b.loads,
                omega (arith, b.not_ahead, b.claimed),
                omega (arith, b.lag, b.since, add-mul (failed_saves s sessions) 1 every),
              )
        ]
