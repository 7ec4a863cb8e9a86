-- ===== src/Diloco/Rounds.antt =====
-- Aggregated pushes: `_GraceBatch`, the grace window, the synchronous round, and what the elected
-- processor does with a batch. Each function is one section under `_grace_cond`; a thread that waits
-- runs the loop's test again when it is woken. A batch is known by the order of its creation.
pub mod Groups
pub mod Processor
pub mod Batches
pub mod Outcome
use panofabric_engine.Prelude.{
  ℕ, ◌+◌, ◌≡◌, String, Bool, true, false, Option, none, some, List, [], ◌∷◌, ◌++◌, map, leb, ◌||◌,
  if◌then◌else◌, length, get_elem?, set, string_eq,
}
use panofabric_engine.Prelude.Dict.{Dict, keys, lookup}
use panofabric_engine.Prelude.Result.{
  Error, Result, ok, err, key_error, index_error, runtime_error, ◌>>=◌, ◌>>◌,
}
use panofabric_engine.Diloco.Server.{Hooks, Server, Params, apply_one, snapshot_flat}
use panofabric_engine.Diloco.Dylu.{Dylu, record_speeds, pool_speed}

pub record GraceBatch (F : Type 0) : Type 0 where
  pub grads_list : List (Params F)
  pub speeds : List ℕ
  -- `none` is `float("inf")`.
  pub deadline : Option ℕ
  pub claimed : Bool
  pub done : Bool
  pub error : Option Error
  pub snapshot_flat : Option (List F)
  pub revision : ℕ
  pub pool_speed : ℕ

-- Every batch that was created, and `_grace_batch`.
pub record Rounds (F : Type 0) : Type 0 where
  pub batches : List (GraceBatch F)
  pub grace_batch : Option ℕ

module _ {F : Type 0} where
  abbrev pub open_batch : Params F → ℕ → Option ℕ → GraceBatch F
  open_batch grads speed deadline = record {
    grads_list = grads ∷ [];
    speeds = speed ∷ [];
    deadline = deadline;
    claimed = false;
    done = false;
    error = none;
    snapshot_flat = none;
    revision = 0;
    pool_speed = 0;
  }

  abbrev pub join_batch : Params F → ℕ → GraceBatch F → GraceBatch F
  join_batch grads speed b = record b {
    grads_list = b.grads_list ++ grads ∷ [];
    speeds = b.speeds ++ speed ∷ [];
  }

  abbrev pub update : ℕ → (GraceBatch F → GraceBatch F) → List (GraceBatch F) → List (GraceBatch F)
  update i f bs = elim (get_elem? bs i) [ none ↦ bs | some b ↦ set bs i (f b) ]

  -- A push opens a batch or joins the open one.
  pub accumulate : Rounds F → Params F → ℕ → Option ℕ → ℕ × Rounds F
  accumulate s grads speed deadline = elim s.grace_batch [
    | none ↦
        let i = length s.batches in
        (
          i,
          record {
            batches = s.batches ++ open_batch grads speed deadline ∷ [];
            grace_batch = some i;
          },
        )
    | some i ↦ (i, record s { batches = update i (join_batch grads speed) s.batches })
  ]

  -- One pass of `while not (batch.done or batch.claimed)`; true if the thread is now the processor.
  pub claim : (GraceBatch F → Bool) → ℕ → Rounds F → Bool × Rounds F
  claim ready i s = elim (get_elem? s.batches i) [
    | none ↦ (false, s)
    | some b ↦
        if b.done || b.claimed
        then (false, s)
        else (if ready b
            then (
              true,
              record {
                batches = set s.batches i (record b { claimed = true });
                grace_batch = none;
              },
            )
            else (false, s))
  ]

  abbrev pub is_full : ℕ → GraceBatch F → Bool
  is_full sync_workers b = leb sync_workers (length b.grads_list)

  abbrev pub is_expired : ℕ → GraceBatch F → Bool
  is_expired now b = elim b.deadline [ none ↦ false | some d ↦ leb d now ]

  -- `_sync_accumulate_and_wait` up to its first wait: the batch, and whether the thread processes it.
  pub sync_accumulate : ℕ → Rounds F → Params F → ℕ → ℕ × Bool × Rounds F
  unfolding accumulate claim
  sync_accumulate sync_workers s grads speed =
      let (i, s1) = accumulate s grads speed none in
      let (processor, s2) = claim (is_full sync_workers) i s1 in (i, processor, s2)

  -- `_grace_accumulate_and_wait`, with the clock when it opens a batch and when it tests.
  pub grace_accumulate : ℕ → Rounds F → Params F → ℕ → ℕ → ℕ → ℕ × Bool × Rounds F
  unfolding accumulate claim
  grace_accumulate grace_period s grads speed now tested =
      let (i, s1) = accumulate s grads speed (some (now + grace_period)) in
      let (processor, s2) = claim (is_expired tested) i s1 in (i, processor, s2)

  -- `_grace_batch_publish`
  pub grace_batch_publish : ℕ → Option Error → Rounds F → Rounds F
  grace_batch_publish i error s = record s {
    batches = update i (λ b. record b { error = error; done = true }) s.batches;
  }

  -- The results that the processor leaves in the batch.
  abbrev pub filled : GraceBatch F → ℕ → List F → ℕ → GraceBatch F
  filled b pool flat revision = record b {
    snapshot_flat = some flat;
    revision = revision;
    pool_speed = pool;
  }

  -- `torch.stack([g[name] for g in grads_list])`, in the order of the list.
  pub stacked : String → List (Params F) → Result (List (List F))
  unfolding lookup
  stacked name [] = ok []
  stacked name (g ∷ gs) = do
    t ← elim (lookup name g) [ none ↦ err key_error | some t ↦ ok t ]
    ts ← stacked name gs
    ok (t ∷ ts)

  -- `_mean_pseudo_grads`, with the mean of a stack of tensors.
  pub means : (List (List F) → List F) → List String → List (Params F) → Result (Params F)
  unfolding stacked
  means mean [] gs = ok []
  means mean (name ∷ names) gs = do
    ts ← stacked name gs
    rest ← means mean names gs
    ok ((name, mean ts) ∷ rest)

  pub mean_pseudo_grads : (List (List F) → List F) → List (Params F) → Result (Params F)
  unfolding means
  mean_pseudo_grads mean [] = err index_error
  mean_pseudo_grads mean (g ∷ gs) = means mean (keys g) (g ∷ gs)

module _ {F Opt : Type 0} (h : Hooks F Opt) where
  -- `for grads in batch.grads_list: self._apply_one(grads)`
  pub apply_all : Server F Opt → List (Params F) → Server F Opt
  unfolding apply_one
  apply_all s [] = s
  apply_all s (g ∷ gs) = apply_all (apply_one h s g 0 none) gs

  -- The processor of a grace window.
  pub process_grace : Server F Opt × Dylu → ℕ → GraceBatch F → GraceBatch F × Server F Opt × Dylu
  unfolding apply_all snapshot_flat record_speeds pool_speed
  process_grace (s, d) now b =
      let (pool, d') = pool_speed (record_speeds d now b.speeds) now in
      let (flat, s') = snapshot_flat h (apply_all s b.grads_list) none none in
      (filled b pool flat s'.revision, s', d')

  -- The processor of a synchronous round; the speeds stay recorded where the mean raises.
  pub process_sync :
      (List (List F) → List F)
      → Server F Opt × Dylu
      → ℕ
      → GraceBatch F
      → Result (GraceBatch F) × Server F Opt × Dylu
  unfolding mean_pseudo_grads apply_one snapshot_flat record_speeds pool_speed
  process_sync mean (s, d) now b =
      let (pool, d') = pool_speed (record_speeds d now b.speeds) now in
      elim (mean_pseudo_grads mean b.grads_list) [
        | err e ↦ (err e, s, d')
        | ok g ↦
            let (flat, s') = snapshot_flat h (apply_one h s g 0 none) none none in
            (ok (filled b pool flat s'.revision), s', d')
      ]

  -- What a thread of the batch returns once it is published.
  pub released : GraceBatch F → Result (Option (List F) × ℕ)
  released b = elim b.error [ some _ ↦ err runtime_error | none ↦ ok (b.snapshot_flat, b.revision) ]
