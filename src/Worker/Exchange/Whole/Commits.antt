-- ===== src/Worker/Exchange/Whole/Commits.antt =====
-- A whole-model sync, end to end.
use panofabric_engine.Prelude.{
  Bool-cases, ◌⊎◌, inl, inr, ℕ, zero, ◌+◌, ◌≤◌, ◌≡◌, refl, sym, ap, subst, ◌∙◌, String, Bool, true,
  false, Option, none, some, List, map, ltb, if◌then◌else◌, length, length-map, sum, concat, arith,
  string_eq,
}
use panofabric_engine.Prelude.Result.{Result, ok}
use panofabric_engine.Prelude.Dict.{Dict, Distinct, Within, Within-refl}
use panofabric_engine.Diloco.Server.{
  Hooks, IsLocal, Server, Params, frag_names, built_flat, apply_one,
}
use panofabric_engine.Diloco.Server.Snapshots.{with_cache}
use panofabric_engine.Diloco.Sync.{Layout, SyncServer}
use panofabric_engine.Diloco.Sync.Requests.{IsSound, handle_sync-target}
use panofabric_engine.Diloco.Sync.Served.{remember-model}
use panofabric_engine.Diloco.Optim.{Torch}
use panofabric_engine.Worker.{Wire, Answer, Worker, value, baseline_flat}
use panofabric_engine.Worker.Session.{make_header}
use panofabric_engine.Worker.Adopt.{chunks, adopt_global, apply_dylu, Detached, kept_of}
use panofabric_engine.Worker.Adopt.Installs.{
  keys-chunks, concat-chunks, chunks-concat, length-concat, map-value-globals, map-value-model,
}
use panofabric_engine.Worker.Boundary.{pseudo_grad, window_speed, kept_local, synced, sync}
use panofabric_engine.Worker.Exchange.{sizes, post_gated}
use panofabric_engine.Worker.Exchange.Whole.{
  joined, gradients, outcome, remembered, answer, push_header, whole_view, committed, pushed,
  session-whole, difference, differences,
}

module _ {F Opt Q B : Type 0} (h : Hooks F Opt) (law : IsLocal h) (t : Torch F) (wire : Wire F Q B)
    (lerp : List F → List F → List F) (per : ℕ → ℕ → ℕ) (l : Layout) (at : ℕ) where
  -- What the server answers and is left with.
  record Commits (w : Worker F) (s : SyncServer F Opt) (speed : ℕ) (g : List F) : Type 0 where
    pub model :
        (c : Dict (ℕ × String) (ℕ × List F)) × ((remembered h t wire lerp per l at w s speed
            g).model
          ≡ with_cache (committed h t wire lerp per l at w s.model g) c)
    pub revision : (outcome h t wire lerp per l at w s speed g).0.revision ≡ s.model.revision + 1
    pub applied : (outcome h t wire lerp per l at w s speed g).0.applied ≡ true
    pub buffer :
        (outcome h t wire lerp per l at w s speed g).1
        ≡ whole_view h t wire lerp per l at w s.model g

  outcome-Commits :
      (w : Worker F) (s : SyncServer F Opt) (speed : ℕ) (g : List F)
      → s.model.num_fragments ≡ 1
      → IsSound h s.model
      → w.baseline_revision ≤ s.model.revision
      → Commits w s speed g
  unfolding make_header apply_one frag_names
  outcome-Commits w s speed g one sound current =
      let hd = push_header h t wire lerp per l at w s.model speed g in
      let m = s.model in
      let fresh : ltb m.revision w.baseline_revision ≡ false = ground (arith, current) in
      let names =
        keys-chunks m.param_names (sizes h t wire m m.param_names) g
          (sym (length-map _ m.param_names)) in
      let ((c, model), _, revision, applied, buffer, _) =
        handle_sync-target h law s at hd (gradients h t wire lerp per l at m g) sound
          (λ _. (names, λ _. one)) in
      record {
        model = (
          c,
          remember-model h (outcome h t wire lerp per l at w s speed g).2 hd _ _
              ∙ model
              ∙ rw fresh refl,
        );
        revision = revision ∙ rw fresh refl;
        applied = applied ∙ rw fresh refl;
        buffer = buffer ∙ rw fresh refl;
      }

  -- What an adoption of a whole model leaves in the backup, and in the model if nothing is blended.
  adopted-flat :
      (w : Worker F) (m : Server F Opt) (a : Answer F) (local : Option (Dict String (Detached F)))
      → Distinct m.param_names
      → length a.flat_params ≡ sum (sizes h t wire m m.param_names)
      → (let w' = adopt_global lerp (joined h t wire lerp per l at w m) a local in
          (baseline_flat w' ≡ a.flat_params)
          × (((n : String) → kept_of local n ≡ none)
              → concat (map (value w'.model) m.param_names) ≡ a.flat_params))
  unfolding adopt_global apply_dylu baseline_flat
  adopted-flat w m a local distinct same =
      let numels = sizes h t wire m m.param_names in
      let parts = chunks m.param_names numels a.flat_params in
      let names =
        keys-chunks m.param_names numels a.flat_params (sym (length-map _ m.param_names)) in
      let apart = subst (λ (k : List String). Distinct k) (sym names) distinct in
      let within =
        subst (λ (k : List String). Within k m.param_names) (sym names)
          (Within-refl m.param_names) in
      let whole =
        concat-chunks m.param_names numels a.flat_params (sym (length-map _ m.param_names)) same
          distinct in
      (
        ap concat (
              map-value-globals lerp (kept_of local) parts w.global_params w.model m.param_names
                apart within)
            ∙ whole,
        λ plain.
            ap concat (
              map-value-model lerp (kept_of local) parts w.global_params w.model m.param_names plain
                apart within)
            ∙ whole,
      )

  -- A sync that left the server with the given model, but for its cache.
  abbrev IsSynced :
      Worker F → ℕ → Server F Opt → Worker F × Result (Unit {0}) × (ℕ × SyncServer F Opt) → Type 0
  IsSynced w revision m' (w', result, (n, s')) =
      let view = built_flat h m' w.island_id m'.param_names in
      (result ≡ ok tt)
      × ((c : Dict (ℕ × String) (ℕ × List F)) × (s'.model ≡ with_cache m' c))
      × (w'.baseline_revision ≡ revision + 1)
      × (baseline_flat w' ≡ view)
      × ((w.blends ≡ true) ⊎ (concat (map (value w'.model) m'.param_names) ≡ view))

  -- Without blending nothing is kept of the local parameters.
  kept_of-none :
      (w : Worker F) (d : Dict String (Detached F)) (name : String)
      → w.blends ≡ false
      → kept_of (if w.blends then some d else none) name ≡ none
  kept_of-none w d name e = ap (λ b. kept_of (if b then some d else none) name) e

  adopted-IsSynced :
      (w : Worker F) (s : SyncServer F Opt) (speed : ℕ) (g : List F) (d : Dict String (Detached F))
      → Commits w s speed g
      → Distinct s.model.param_names
      → length (outcome h t wire lerp per l at w s speed g).1
        ≡ sum (sizes h t wire s.model s.model.param_names)
      → IsSynced w s.model.revision (committed h t wire lerp per l at w s.model g) (
        adopt_global lerp
            (record (joined h t wire lerp per l at w s.model) { deltas_since_full = 0 })
            (answer h t wire lerp per l at w s speed g)
            (if w.blends then some d else none),
        ok tt,
        (0, remembered h t wire lerp per l at w s speed g),
      )
  unfolding adopt_global apply_dylu apply_one
  adopted-IsSynced w s speed g d k distinct same =
      let (backup, model) =
        adopted-flat (record w { deltas_since_full = 0 }) s.model
          (answer h t wire lerp per l at w s speed g) (if w.blends then some d else none) distinct
          same in
      (
        refl,
        k.model,
        k.revision,
        backup ∙ k.buffer,
        elim (Bool-cases w.blends) [
          | inl e ↦ inl e
          | inr e ↦ inr (model (λ name. kept_of-none w d name e) ∙ k.buffer)
        ],
      )

  sync-IsSynced :
      (w : Worker F) (s : SyncServer F Opt) (n now : ℕ)
      → l.num_fragments ≡ 1
      → s.model.num_fragments ≡ 1
      → IsSound h s.model
      → n ≤ w.busy_retries
      → w.baseline_revision ≤ s.model.revision
      → length (pushed h t wire lerp per l at w s.model) ≡ l.total_numel
      → length
          (whole_view h t wire lerp per l at w s.model (pushed h t wire lerp per l at w s.model))
        ≡ sum (sizes h t wire s.model s.model.param_names)
      → IsSynced w s.model.revision
          (committed h t wire lerp per l at w s.model (pushed h t wire lerp per l at w s.model))
          (sync t wire lerp per
            (post_gated h t wire l at)
            (joined h t wire lerp per l at w s.model)
            (n, s)
            now)
  unfolding sync window_speed
  sync-IsSynced w s n now one1 one sound few current size kept =
      let m = s.model in
      let g = pushed h t wire lerp per l at w m in
      let speed = (window_speed per (joined h t wire lerp per l at w m) now).0 in
      let w' = record w { skip_speed_report = false } in
      let d = kept_local (joined h t wire lerp per l at w m) in
      let local = if w.blends then some d else none in
      let k = outcome-Commits w' s speed g one sound current in
      let same = ap length k.buffer ∙ kept in
      let run =
        ap (synced t wire lerp per (post_gated h t wire l at) local)
          (session-whole h t wire lerp per l at w' s n speed g one1 size few same) in
      let held = record (joined h t wire lerp per l at w' m) { deltas_since_full = 0 } in
      let a = answer h t wire lerp per l at w' s speed g in
      let applied =
        ap
          (λ (b : Bool). (
            if b
                then adopt_global lerp held a local
                else record (adopt_global lerp held a none) { skip_speed_report = true },
            ok tt,
            (zero, remembered h t wire lerp per l at w' s speed g),
          ))
          k.applied in
      subst
        (λ (r : Worker F × Result (Unit {0}) × (ℕ × SyncServer F Opt)).
          IsSynced w m.revision (committed h t wire lerp per l at w m g) r)
        (sym (run ∙ applied)) (adopted-IsSynced w' s speed g d k sound.layout.distinct same)

  -- A whole-model sync of a worker that has the server's parameter names and sizes and the fp32 wire.
  -- The conditions: the server is sound and without fragments, as the layout that it checks headers
  -- against says, and that layout has the model's size; it is busy for no more than `busy_retries`
  -- attempts; its revision is not behind the worker's baseline revision; the worker's difference has the
  -- server's sizes under each name, and the step keeps the model's size. Then the sync succeeds. The
  -- server has taken exactly one outer step, on the worker's baseline minus its parameters under each
  -- name. The worker names the revision behind that step; its backup is, element by element, the server's
  -- view of the new model for the worker's island; and without blending so is its model.
  pub sync-commits :
      (w : Worker F) (s : SyncServer F Opt) (n now : ℕ)
      → l.num_fragments ≡ 1
      → l.total_numel ≡ sum (sizes h t wire s.model s.model.param_names)
      → s.model.num_fragments ≡ 1
      → IsSound h s.model
      → n ≤ w.busy_retries
      → w.baseline_revision ≤ s.model.revision
      → map (λ name. length (difference t w name)) s.model.param_names
        ≡ sizes h t wire s.model s.model.param_names
      → (let m' = apply_one h s.model (differences t w s.model.param_names) 0 w.island_id in
          length (built_flat h m' w.island_id m'.param_names)
          ≡ sum (sizes h t wire s.model s.model.param_names))
      → (let r =
            sync t wire lerp per
              (post_gated h t wire l at)
              (joined h t wire lerp per l at w s.model)
              (n, s)
              now in
          let m' = apply_one h s.model (differences t w s.model.param_names) 0 w.island_id in
          let view = built_flat h m' w.island_id m'.param_names in
          (r.1 ≡ ok tt)
          × ((c : Dict (ℕ × String) (ℕ × List F)) × (r.2.1.model ≡ with_cache m' c))
          × (r.0.baseline_revision ≡ s.model.revision + 1)
          × (baseline_flat r.0 ≡ view)
          × ((w.blends ≡ true) ⊎ (concat (map (value r.0.model) m'.param_names) ≡ view)))
  unfolding pseudo_grad apply_one
  sync-commits w s n now one1 total one sound few current sized kept =
      let m = s.model in
      let cut : gradients h t wire lerp per l at m (pushed h t wire lerp per l at w m)
          ≡ differences t w m.param_names =
        ap (λ numels. chunks m.param_names numels (pushed h t wire lerp per l at w m)) (sym sized)
        ∙ chunks-concat m.param_names (difference t w) in
      let step = λ (g : Params F). apply_one h m g 0 w.island_id in
      let size = length-concat m.param_names (difference t w) ∙ ap sum sized ∙ sym total in
      subst
        (λ (m' : Server F Opt). IsSynced w m.revision m' (
          sync t wire lerp per (post_gated h t wire l at) (joined h t wire lerp per l at w m) (n, s)
            now))
        (ap step cut)
        (sync-IsSynced w s n now one1 one sound few current size (
          ap (λ (g : Params F). length (built_flat h (step g) w.island_id m.param_names)) cut
          ∙ kept))
