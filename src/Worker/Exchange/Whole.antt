-- ===== src/Worker/Exchange/Whole.antt =====
-- A whole-model push of a worker with the plain fp32 wire, and the answer of its server.
pub mod Commits
use panofabric_engine.Prelude.{
  Bool-cases, ◌⊎◌, inl, inr, ℕ, zero, suc, ◌+◌, ◌≤◌, ◌<◌, ◌≡◌, refl, sym, ap, subst, ◌∙◌, String,
  Bool, true, false, Option, none, some, List, [], ◌∷◌, map, ltb, if◌then◌else◌, length, length-map,
  sum, concat, ◌==◌, arith, string_eq,
}
use panofabric_engine.Prelude.Result.{Result, ok, err}
use panofabric_engine.Prelude.Dict.{Dict, Distinct, Within, Within-refl}
use panofabric_engine.Diloco.Server.{
  Hooks, IsLocal, Server, Params, frag_names, built_flat, apply_one,
}
use panofabric_engine.Diloco.Server.Snapshots.{with_cache}
use panofabric_engine.Diloco.Sync.{
  Header, Layout, Reply, Payload, full_f32, SyncServer, Handled, handle_sync, remember,
}
use panofabric_engine.Diloco.Sync.Requests.{IsSound, handle_sync-target}
use panofabric_engine.Diloco.Sync.Plain.{do_post-IsPlain}
use panofabric_engine.Diloco.Sync.Served.{remember-model}
use panofabric_engine.Diloco.Optim.{Torch, sub_tensor}
use panofabric_engine.Worker.{
  Wire, Body, f32_bytes, Posted, answered, Answer, Worker, value, baseline_flat,
}
use panofabric_engine.Worker.Session.{make_header, make_body, receive, post_loop, session_roundtrip}
use panofabric_engine.Worker.Adopt.{chunks, adopt_global, apply_dylu, Detached, kept_of}
use panofabric_engine.Worker.Adopt.Installs.{
  keys-chunks, concat-chunks, chunks-concat, length-concat, map-value-globals, map-value-model,
}
use panofabric_engine.Worker.Boundary.{pseudo_grad, window_speed, kept_local, synced, sync}
use panofabric_engine.Worker.Exchange.{sizes, encode_reply, replied, post_sync, post_gated}
use panofabric_engine.Worker.Exchange.Retries.{post_loop-cases}

module _ {F : Type 0} (t : Torch F) where
  -- What a worker changed since its baseline, by names.
  abbrev pub difference : Worker F → String → List F
  difference w name = sub_tensor t (value w.global_params name) (value w.model name)

  abbrev pub differences : Worker F → List String → Params F
  differences w names = map (λ name. (name, difference w name)) names

module _ {F Opt Q B : Type 0} (h : Hooks F Opt) (t : Torch F) (wire : Wire F Q B)
    (lerp : List F → List F → List F) (per : ℕ → ℕ → ℕ) (l : Layout) (at : ℕ) where
  -- A worker with `wire_bf16=False` and no quantization, of the server's model.
  abbrev pub joined : Worker F → Server F Opt → Worker F
  joined w m = record w {
    wire_bf16 = false;
    quantizes = false;
    server_bf16 = false;
    param_names = m.param_names;
    param_numels = sizes h t wire m m.param_names;
  }

  abbrev pub push_header : Worker F → Server F Opt → ℕ → List F → Header
  push_header w m speed g = make_header t wire (joined w m) true speed (some g) none

  -- A flat pseudo-gradient by names.
  abbrev pub gradients : Server F Opt → List F → Params F
  gradients m g = chunks m.param_names (sizes h t wire m m.param_names) g

  -- What the server makes of the push.
  abbrev pub outcome : Worker F → SyncServer F Opt → ℕ → List F → Handled h
  outcome w s speed g = handle_sync h s at (push_header w s.model speed g) (gradients s.model g)

  abbrev pub remembered : Worker F → SyncServer F Opt → ℕ → List F → SyncServer F Opt
  remembered w s speed g =
      let r = outcome w s speed g in remember h r.2 (push_header w s.model speed g) r.0.revision r.1

  abbrev pub answer : Worker F → SyncServer F Opt → ℕ → List F → Answer F
  answer w s speed g =
      let r = outcome w s speed g in
      record {
        flat_params = r.1;
        new_steps = r.0.new_steps;
        revision = r.0.revision;
        applied = r.0.applied;
      }

  post_sync-whole :
      (w : Worker F) (s : SyncServer F Opt) (speed : ℕ) (g : List F)
      → l.num_fragments ≡ 1
      → length g ≡ l.total_numel
      → (let r = outcome w s speed g in
          let s' = remembered w s speed g in
          post_sync h t wire l at s (push_header w s.model speed g) (f32_bytes g)
          ≡ (answered (encode_reply h t wire s'.model r.0 (full_f32 r.1)), s'))
  unfolding post_sync make_header
  post_sync-whole w s speed g one size = ap (replied h t wire l at s) (
      do_post-IsPlain h l s at (push_header w s.model speed g) (gradients s.model g) (record {
        push = refl;
        whole = refl;
        plain = refl;
        no_delta = refl;
        no_bf16 = refl;
        one = one;
        size = size;
      }))

  receive-whole :
      (w : Worker F) (m m' : Server F Opt) (r : Reply) (flat : List F)
      → length flat ≡ sum (sizes h t wire m m.param_names)
      → receive t wire (joined w m) none (answered (encode_reply h t wire m' r (full_f32 flat))) ≡ (
        record (joined w m) { deltas_since_full = 0 },
        ok (record {
          flat_params = flat;
          new_steps = r.new_steps;
          revision = r.revision;
          applied = r.applied;
        }),
      )
  unfolding receive encode_reply
  receive-whole w m m' r flat same =
      let fits : (length flat == sum (sizes h t wire m m.param_names)) ≡ true =
        ground (arith, same) in
      rw fits refl

  pub session-whole :
      (w : Worker F) (s : SyncServer F Opt) (n speed : ℕ) (g : List F)
      → l.num_fragments ≡ 1
      → length g ≡ l.total_numel
      → n ≤ w.busy_retries
      → length (outcome w s speed g).1 ≡ sum (sizes h t wire s.model s.model.param_names)
      → session_roundtrip t wire
          (post_gated h t wire l at)
          (joined w s.model)
          (n, s)
          true
          speed
          (some g)
          none
        ≡ (
          record (joined w s.model) { deltas_since_full = 0 },
          ok (answer w s speed g),
          (0, remembered w s speed g),
        )
  unfolding session_roundtrip
  session-whole w s n speed g one size few same =
      let r = outcome w s speed g in
      let s' = remembered w s speed g in
      let hd = push_header w s.model speed g in
      let sent =
        (post_loop-cases h t wire l at w.busy_retries n s hd (f32_bytes g)).0 few
        ∙ ap (λ (p : Posted F Q B × SyncServer F Opt). (p.0, (0, p.1)))
            (post_sync-whole w s speed g one size) in
      ap
        (λ (p : Posted F Q B × (ℕ × SyncServer F Opt)).
          let q = receive t wire (joined w s.model) none p.0 in (q.0, q.1, p.1))
        sent
      ∙ ap (λ (q : Worker F × Result (Answer F)). (q.0, q.1, (zero, s')))
          (receive-whole w s.model s'.model r.0 r.1 same)

  -- The model with a worker's push committed.
  abbrev pub committed : Worker F → Server F Opt → List F → Server F Opt
  committed w m g = apply_one h m (gradients m g) 0 w.island_id

  abbrev pub whole_view : Worker F → Server F Opt → List F → List F
  whole_view w m g = built_flat h (committed w m g) w.island_id m.param_names

  -- The pseudo-gradient that a worker pushes.
  abbrev pub pushed : Worker F → Server F Opt → List F
  pushed w m = pseudo_grad t (joined w m) none
