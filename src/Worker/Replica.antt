-- ===== src/Worker/Replica.antt =====
-- The worker as a replica of several ranks: `_sync_replica`, `_resync_replica` and `_adopt_replica`. The
-- ranks run in step: a broadcast gives all of them the lead's words and tensors, and a gather gives the
-- lead the whole parameter. How a parameter is laid over the ranks is a parameter; rank 0 is the lead.
-- Fragments of a replica, and the words that choose its branch, are left out.
pub mod Shards
pub mod Lead
pub mod Copies
pub mod Adopts
pub mod Refines
use panofabric_engine.Prelude.{
  ℕ, zero, suc, ◌+◌, ◌-◌, ◌*◌, ◌≡◌, String, Bool, true, false, Option, none, some, List, [], ◌∷◌,
  map, min, concat, if◌then◌else◌, string_eq,
}
use panofabric_engine.Prelude.Result.{Result, ok, err}
use panofabric_engine.Prelude.Dict.{Dict, lookup, insert}
use panofabric_engine.Diloco.Server.{Params}
use panofabric_engine.Diloco.Sync.{Header}
use panofabric_engine.Diloco.Optim.{Torch, sub_tensor}
use panofabric_engine.Worker.{Wire, Body, Posted, Answer, Worker, value}
use panofabric_engine.Worker.Session.{session_roundtrip}
use panofabric_engine.Worker.Adopt.{
  Detached, copied, chunks, install, kept_of, clear_inner, apply_dylu,
}
use panofabric_engine.Worker.Boundary.{window_speed, enter_resync}

-- A rank's part of a whole parameter, `full[_local_shard_slices(p)]`, or all of it where it is not
-- sharded; and the whole of all ranks' parts, `full_tensor()`.
pub record Placement (F : Type 0) : Type 0 where
  pub own : ℕ → String → List F → List F
  pub full_tensor : String → List (List F) → List F

-- The objects of the ranks; each one's `model` is its local parts.
pub record Replica (F : Type 0) : Type 0 where
  pub lead : Worker F
  pub followers : List (Worker F)

module _ {F : Type 0} where
  -- What `_sync_replica` keeps of a rank's parts to blend with.
  abbrev pub kept_shards : Worker F → Dict String (Detached F)
  kept_shards w = map (λ (name, p). (name, copied p)) w.model

  -- The rank's parts of the parameters.
  abbrev pub owned : Placement F → ℕ → Params F → Params F
  owned pl i parts = map (λ (name, chunk). (name, pl.own i name chunk)) parts

module _ {F : Type 0} (t : Torch F) (pl : Placement F) where
  -- `_full_value`, on all ranks at once.
  abbrev pub full_value : Replica F → String → List F
  full_value r name = pl.full_tensor name (map (λ w. value w.model name) (r.lead ∷ r.followers))

  -- `torch.cat(grad_chunks)`
  unfoldable pub gathered : Replica F → List F
  unfolding sub_tensor lookup
  gathered r = concat (
      map (λ name. sub_tensor t (value r.lead.global_params name) (full_value r name))
        r.lead.param_names)

module _ {F : Type 0} (pl : Placement F) (lerp : List F → List F → List F) where
  -- The loop of `_adopt_replica` on one rank: its model behind the broadcasts.
  abbrev pub rank_model : ℕ → Worker F → List F → Option (Dict String (Detached F)) → Params F
  rank_model i w flat blend_local =
      (install lerp (kept_of blend_local) (owned pl i (chunks w.param_names w.param_numels flat))
        ([], w.model)).1

  abbrev pub adopt_follower : ℕ → Worker F → Answer F → Option (Dict String (Detached F)) → Worker F
  adopt_follower i w a blend_local =
      apply_dylu
        (clear_inner true
          (record w { model = rank_model i w a.flat_params blend_local; have_baseline = true }))
        a.new_steps

  -- The lead has the backup and the revision as well.
  abbrev pub adopt_lead : Worker F → Answer F → Option (Dict String (Detached F)) → Worker F
  adopt_lead w a blend_local =
      apply_dylu
        (clear_inner true (record w {
          model = rank_model 0 w a.flat_params blend_local;
          global_params =
              (install lerp (λ _. none) (chunks w.param_names w.param_numels a.flat_params)
                (w.global_params, [])).0;
          baseline_revision = a.revision;
          have_baseline = true;
        }))
        a.new_steps

  -- The followers from rank `i` on; a blend is with what each rank kept.
  unfoldable pub adopt_followers : ℕ → List (Worker F) → Answer F → Bool → List (Worker F)
  unfolding install chunks apply_dylu lookup
  adopt_followers i [] a blends = []
  adopt_followers i (w ∷ ws) a blends =
      adopt_follower i w a (if blends then some (kept_shards w) else none)
      ∷ adopt_followers (suc i) ws a blends

  -- `_adopt_replica`, on all ranks
  unfoldable pub adopt_replica : Replica F → Answer F → Bool → Replica F
  unfolding install chunks apply_dylu lookup adopt_followers
  adopt_replica r a blends = record {
    lead = adopt_lead r.lead a (if blends then some (kept_shards r.lead) else none);
    followers = adopt_followers 1 r.followers a blends;
  }

module _ {F Q B S : Type 0} (t : Torch F) (wire : Wire F Q B) (lerp : List F → List F → List F)
    (per : ℕ → ℕ → ℕ) (post : S → Header → Body F Q B → Posted F Q B × S) (pl : Placement F) where
  -- `_sync_replica` behind the exchange of the lead.
  abbrev pub synced_replica : ℕ → List (Worker F) → Worker F × Result (Answer F) × S → Replica F × S
  synced_replica now followers (lead, err e, s) =
      (record { lead = enter_resync lead now; followers = followers }, s)
  synced_replica now followers (lead, ok a, s) = (
    if a.applied
        then adopt_replica pl lerp (record { lead = lead; followers = followers }) a lead.blends
        else adopt_replica pl lerp
            (record { lead = record lead { skip_speed_report = true }; followers = followers }) a
            false,
    s,
  )

  unfoldable pub sync_replica : Replica F → S → ℕ → Replica F × S
  unfolding window_speed session_roundtrip enter_resync gathered adopt_replica
  sync_replica r s now =
      let (speed, lead) = window_speed per r.lead now in
      synced_replica now r.followers
        (session_roundtrip t wire post lead s true speed (some (gathered t pl r)) none)

  -- `_resync_replica` behind the exchange of the lead.
  abbrev pub resynced_replica :
      ℕ → List (Worker F) → Worker F × Result (Answer F) × S → Replica F × S
  resynced_replica now followers (lead, err e, s) = (
    record {
      lead = record lead {
        resync_at = now + lead.resync_backoff;
        resync_backoff = min (lead.resync_backoff * 2) lead.resync_backoff_max;
      };
      followers = followers;
    },
    s,
  )
  resynced_replica now followers (lead, ok a, s) =
      let r = adopt_replica pl lerp (record { lead = lead; followers = followers }) a false in
      (
        record r {
          lead = record r.lead {
            pending_resync = false;
            resync_backoff = 1;
            skip_speed_report = true;
          };
        },
        s,
      )

  unfoldable pub resync_replica : Replica F → S → ℕ → Replica F × S
  unfolding session_roundtrip adopt_replica
  resync_replica r s now =
      resynced_replica now r.followers (session_roundtrip t wire post r.lead s false 0 none none)
