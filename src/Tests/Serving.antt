-- ===== src/Tests/Serving.antt =====
-- Requests to the sample server.
use panofabric_engine.Prelude.{ℕ, ◌≡◌, refl, true, none, some, [], ◌∷◌, nat_eq, arith}
use panofabric_engine.Prelude.Dict.{contains, lookup, insert}
use panofabric_engine.Prelude.Result.{ok}
use panofabric_engine.Diloco.Server.{
  frag_names, built_flat, apply_one, frag_snapshot, snapshot_flat,
}
use panofabric_engine.Diloco.Server.Snapshots.{
  Snaps, snapshot_flat-eq-built_flat, apply_one-IsCoherent,
}
use panofabric_engine.Diloco.Sync.{
  Reply, Payload, SyncServer, full_f32, handle_sync, reply_payload, remember, do_post,
}
use panofabric_engine.Diloco.Sync.Payloads.{base_of, encoded}
use panofabric_engine.Diloco.Sync.Requests.{IsSound, Covers, handle_sync-target}
use panofabric_engine.Diloco.Sync.Served.{IsTracked}
use panofabric_engine.Diloco.Sync.Deltas.{here, next, do_post-IsTracked, do_post-delta}
use panofabric_engine.Diloco.Sync.Variants.{do_post-delta_mixed}
use panofabric_engine.Diloco.Optim.{NesterovState, sub_tensor}
use panofabric_engine.Diloco.Heloco.{
  Momenta, worker_gets_correction, worker_is_diloco, plain, lookahead, heloco_hooks, diloco_hooks,
}
use panofabric_engine.Diloco.Heloco.Local.{heloco_hooks-IsLocal, diloco_hooks-IsLocal}
use panofabric_engine.Tests.Samples.{
  torch, nesterov, heloco, fresh_nesterov, gradients, model, model-IsSound, diloco, server, layout,
  push_header, pull_header, flat, pulled, pulled_reply, momenta, heloco_server_hooks, heloco_server,
}

sound : IsSound diloco (model fresh_nesterov)
sound = model-IsSound fresh_nesterov diloco

covers : Covers diloco (model fresh_nesterov) push_header gradients
unfolding frag_names
covers _ = (refl, λ _. refl)

handle_sync-target_example : (handle_sync diloco server 7 push_header gradients).0.applied ≡ true
handle_sync-target_example =
    (handle_sync-target diloco (diloco_hooks-IsLocal torch nesterov) server 7 push_header gradients
      sound covers).3

snapshot_flat-eq-built_flat_example :
    Snaps diloco
      (model fresh_nesterov)
      (built_flat diloco (model fresh_nesterov) none (frag_names (model fresh_nesterov) (some 0)))
      (snapshot_flat diloco (model fresh_nesterov) (some 0) none)
snapshot_flat-eq-built_flat_example =
    snapshot_flat-eq-built_flat diloco (diloco_hooks-IsLocal torch nesterov) (model fresh_nesterov)
      (some 0) none sound.layout sound.coherent

apply_one-IsCoherent_example :
    (apply_one diloco (model fresh_nesterov) gradients 0 none).revision ≡ 4
unfolding frag_names
apply_one-IsCoherent_example =
    (apply_one-IsCoherent diloco (diloco_hooks-IsLocal torch nesterov) (model fresh_nesterov)
      gradients none none sound.layout sound.coherent refl (λ _. refl)).2

pull-Covers : Covers diloco (model fresh_nesterov) pull_header []
pull-Covers e = cc

first_pull :
    do_post diloco layout server 7 pull_header [] ≡ ok (pulled_reply, full_f32 flat, pulled)
unfolding do_post handle_sync reply_payload remember snapshot_flat frag_snapshot built_flat
    frag_names lookup insert diloco_hooks
first_pull = refl

do_post-IsTracked_example : IsTracked diloco pulled
unfolding lookup
do_post-IsTracked_example =
    (do_post-IsTracked diloco (diloco_hooks-IsLocal torch nesterov)
      (λ _. unfold diloco_hooks in refl) layout server 7 pull_header [] pulled_reply (full_f32 flat)
      pulled sound pull-Covers (record { distinct = tt; known = λ k b e. cc }) first_pull).1

pulled-IsSound : IsSound diloco pulled.model
pulled-IsSound =
    (do_post-IsTracked diloco (diloco_hooks-IsLocal torch nesterov)
      (λ _. unfold diloco_hooks in refl) layout server 7 pull_header [] pulled_reply (full_f32 flat)
      pulled sound pull-Covers (record { distinct = tt; known = λ k b e. unfold lookup in cc })
      first_pull).0

-- Another worker pushes between two pulls of one worker.
do_post-delta_example :
    (r s : Reply × Payload ℕ × SyncServer ℕ (NesterovState ℕ)) × (do_post diloco layout pulled 7
        push_header gradients
      ≡ ok r)
    × (do_post diloco layout r.2 8 pull_header [] ≡ ok s)
    × ((3 ≡ pulled_reply.revision) × (flat ≡ flat))
    × (base_of s.1 ≡ some (3, flat))
    × (s.0.revision ≡ 4)
unfolding do_post handle_sync reply_payload remember snapshot_flat frag_snapshot built_flat
    frag_names lookup insert diloco_hooks
do_post-delta_example = (
  _,
  _,
  refl,
  refl,
  do_post-delta diloco (diloco_hooks-IsLocal torch nesterov) (λ _. unfold diloco_hooks in refl)
      layout server server pulled _ _ 7 8 pull_header pull_header [] [] pulled_reply _
      (full_f32 flat) _ 3 flat sound refl here pull-Covers first_pull refl
      (next 7 push_header gradients _ _ _ here (λ _. (refl, λ _. refl)) refl) (λ e. cc) refl refl
      refl,
  refl,
  refl,
)

-- A server of HeLoCo, with a momentum that a look-ahead subtracts, and two islands of its two kinds.
do_post-delta_mixed_example :
    (r1 r2 r3 : Reply × Payload ℕ × SyncServer ℕ (Momenta ℕ)) × (do_post heloco_server_hooks layout
        heloco_server 7
        (record pull_header { island_id = some 0 })
        []
      ≡ ok r1)
    × (do_post heloco_server_hooks layout r1.2 7 pull_header [] ≡ ok r2)
    × (do_post heloco_server_hooks layout r2.2 7 (record pull_header { island_id = some 0 }) []
        ≡ ok r3)
    × (r1.0.revision ≡ 3)
    × (encoded r1.1 ≡ 4 ∷ 5 ∷ 6 ∷ [])
    × (base_of r3.1 ≡ some (3, 5 ∷ 7 ∷ 9 ∷ []))
unfolding built_flat frag_names heloco_hooks worker_is_diloco worker_gets_correction contains
    lookahead plain lookup sub_tensor
do_post-delta_mixed_example =
    do_post-delta_mixed heloco_server_hooks (heloco_hooks-IsLocal torch heloco) layout heloco_server
      7 (record pull_header { island_id = some 0 }) pull_header
      (record pull_header { island_id = some 0 }) [] (model-IsSound momenta heloco_server_hooks)
      refl refl (omega arith) (refl, refl, refl) refl refl
