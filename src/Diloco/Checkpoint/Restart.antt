-- ===== src/Diloco/Checkpoint/Restart.antt =====
-- What a restart from a checkpoint keeps of the parameter server, and what it loses.
use panofabric_engine.Prelude.{
  ℕ, ◌+◌, ◌%◌, ◌≡◌, ◌∙◌, refl, sym, ap, subst, String, true, Option, none, List, [], ◌∷◌, ◌==◌,
  length, All, arith, string_eq, nat_eq,
}
use panofabric_engine.Prelude.Result.{ok}
use panofabric_engine.Prelude.Dict.{Dict, keys, lookup}
use panofabric_engine.Diloco.Server.{
  Hooks, IsLocal, Server, Params, Island, or_zero, frag_names, commit_step, apply_one,
  snapshot_flat,
}
use panofabric_engine.Diloco.Server.Coherence.{IsLayout, IsCoherent}
use panofabric_engine.Diloco.Server.Snapshots.{
  with_cache, apply_one-IsCoherent, snapshot_flat-eq-built_flat,
}
use panofabric_engine.Diloco.Optim.{
  Torch, Buffers, DelayedNesterov, NesterovState, nesterov_step, is_milestone,
}
use panofabric_engine.Diloco.Heloco.{diloco_hooks}
use panofabric_engine.Diloco.Checkpoint.{
  Stored, TorchFiles, IsTorchFiles, Disk, Checkpointed, completed, sizes_of, save_checkpoint,
  restored, load_checkpoint, init_server, nesterov_stored,
}

-- A push: its gradients, its fragment if it names one, and its island.
abbrev pub Push : Type 0 → Type 0
Push F = Params F × Option ℕ × Island

module _ {F Opt : Type 0} (h : Hooks F Opt) where
  -- Pushes that the server commits one after the other.
  unfoldable pub push_all : Server F Opt → List (Push F) → Server F Opt
  unfolding apply_one
  push_all s [] = s
  push_all s ((grads, fragment, island) ∷ pushes) =
      push_all (apply_one h s grads (or_zero fragment) island) pushes

  -- Each push is over the parameters of its fragment, or of the whole model where that is one.
  abbrev pub AllCover : Server F Opt → List (Push F) → Type 0
  AllCover s pushes =
      All
        (λ (push : Push F).
          (keys push.0 ≡ frag_names s push.1) × (push.1 ≡ none → s.num_fragments ≡ 1))
        pushes

  empty-IsCoherent : (s : Server F Opt) → IsCoherent h (with_cache s [])
  unfolding lookup
  empty-IsCoherent s = record { fresh = λ f v rev flat i found is. cc }

  module _ (law : IsLocal h) where
    -- The cache makes no difference to the rest.
    push_all-cache :
        (s : Server F Opt) (c : Dict (ℕ × String) (ℕ × List F)) (pushes : List (Push F))
        → IsLayout s
        → IsCoherent h (with_cache s c)
        → AllCover s pushes
        → (c' : Dict (ℕ × String) (ℕ × List F)) × (push_all (with_cache s c) pushes
            ≡ with_cache (push_all s pushes) c')
          × IsCoherent h (with_cache (push_all s pushes) c')
          × IsLayout (push_all s pushes)
    unfolding push_all apply_one frag_names
    push_all-cache s c [] l k covers = (c, refl, k, l)
    push_all-cache s c ((grads, fragment, island) ∷ pushes) l k covers =
        let (k', l', _, _) =
          apply_one-IsCoherent h law (with_cache s c) grads fragment island
            (record { distinct = l.distinct; chain = l.chain; count = l.count }) k covers.0.0
            covers.0.1 in
        push_all-cache (apply_one h s grads (or_zero fragment) island)
          (apply_one h (with_cache s c) grads (or_zero fragment) island).snapshot_cache pushes
          (record { distinct = l'.distinct; chain = l'.chain; count = l'.count }) k' covers.1

    same_flat :
        (s : Server F Opt) (c : Dict (ℕ × String) (ℕ × List F)) (fragment : Option ℕ)
        (island : Island)
        → IsLayout s
        → IsCoherent h s
        → IsCoherent h (with_cache s c)
        → (snapshot_flat h (with_cache s c) fragment island).0
          ≡ (snapshot_flat h s fragment island).0
    unfolding frag_names snapshot_flat
    same_flat s c fragment island l k k' =
        let l' : IsLayout (with_cache s c) = record {
          distinct = l.distinct;
          chain = l.chain;
          count = l.count;
        } in
        let (_, e, _) = snapshot_flat-eq-built_flat h law s fragment island l k in
        let (_, e', _) = snapshot_flat-eq-built_flat h law (with_cache s c) fragment island l' k' in
        ap (λ r. r.0) e' ∙ ap (λ r. r.0) (sym e)

module _ {Opt S : Type 0} {F Byte : Type 0} (st : Stored Opt S) (t : TorchFiles F S Byte) where
  -- The server as its constructor makes it from a model and an optimizer, with the layout of `s`.
  abbrev pub rebuilt : Server F Opt → Params F → Opt → Server F Opt
  rebuilt s p o = record s {
    params = p;
    opt = o;
    revision = 0;
    applied_pushes = 0;
    snapshot_cache = [];
  }

  -- The server that a restart makes of `s`.
  abbrev pub resumed : Server F Opt → Opt → ℕ → Disk Byte → Checkpointed F Opt Byte
  resumed s o every d = record {
    model = record s { opt = st.load_state_dict o (st.state_dict s.opt); snapshot_cache = [] };
    has_path = true;
    checkpoint_every = every;
    last_checkpoint_revision = s.revision;
    disk = d;
  }

  pub init_server-save_checkpoint :
      IsTorchFiles t
      → (s : Server F Opt) (p : Params F) (o : Opt) (every : ℕ) (d : Disk Byte)
      → keys p ≡ keys s.params
      → sizes_of p ≡ sizes_of s.params
      → init_server st t (rebuilt s p o) true every (save_checkpoint st t s completed d).1
        ≡ ok (resumed s o every (save_checkpoint st t s completed d).1)
  unfolding init_server load_checkpoint restored save_checkpoint
  init_server-save_checkpoint law s p o every d same sizes =
      rw (law.load_save _, law.load_same p s.params same sizes) refl

module _ {F Opt S Byte : Type 0} (h : Hooks F Opt) (law : IsLocal h) (st : Stored Opt S)
    (t : TorchFiles F S Byte) (files : IsTorchFiles t) where
  -- A sound server is saved, and a server that is built from a model of the same names and sizes is
  -- started with that file. If loading the optimizer's state dict gives the optimizer's whole state, then
  -- the start succeeds, and after any further pushes, each over the parameters of its fragment, the
  -- restarted server has the revision and sends the snapshots of the one that was not stopped.
  pub init_server-resumes :
      (s : Server F Opt) (p : Params F) (o : Opt) (every : ℕ) (d : Disk Byte)
      (pushes : List (Push F)) (fragment : Option ℕ) (island : Island)
      → IsLayout s
      → IsCoherent h s
      → keys p ≡ keys s.params
      → sizes_of p ≡ sizes_of s.params
      → st.load_state_dict o (st.state_dict s.opt) ≡ s.opt
      → AllCover h s pushes
      → (r : Checkpointed F Opt Byte) × (init_server st t
            (rebuilt st t s p o)
            true
            every
            (save_checkpoint st t s completed d).1
          ≡ ok r)
        × ((push_all h r.model pushes).revision ≡ (push_all h s pushes).revision)
        × ((snapshot_flat h (push_all h r.model pushes) fragment island).0
            ≡ (snapshot_flat h (push_all h s pushes) fragment island).0)
  init_server-resumes s p o every d pushes fragment island l k same sizes whole_state covers =
      let (_, e1, k1, l1) = push_all-cache h law s s.snapshot_cache pushes l k covers in
      let (c, e, k2, _) = push_all-cache h law s [] pushes l (empty-IsCoherent h s) covers in
      let is : (resumed st t s o every (save_checkpoint st t s completed d).1).model
          ≡ with_cache s [] =
        ap (λ (opt : Opt). record s { opt = opt; snapshot_cache = [] }) whole_state in
      (
        resumed st t s o every (save_checkpoint st t s completed d).1,
        init_server-save_checkpoint st t files s p o every d same sizes,
        ap (λ m. (push_all h m pushes).revision) is ∙ ap (λ m. m.revision) e,
        ap (λ m. (snapshot_flat h (push_all h m pushes) fragment island).0) is
            ∙ ap (λ m. (snapshot_flat h m fragment island).0) e
            ∙ same_flat h law (push_all h s pushes) c fragment island l1
                (subst (IsCoherent h) (sym e1) k1) k2,
      )

abbrev pub fresh_optimizer : {F : Type 0} → NesterovState F
fresh_optimizer = record { push_count = 0; state = [] }

module _ {F : Type 0} (t : Torch F) (c : DelayedNesterov F) where
  push_all-push_count :
      (s : Server F (NesterovState F)) (pushes : List (Push F))
      → (push_all (diloco_hooks t c) s pushes).opt.push_count ≡ s.opt.push_count + length pushes
  unfolding push_all apply_one diloco_hooks nesterov_step
  push_all-push_count s [] = omega arith
  push_all-push_count s (push ∷ pushes) =
      let s' = apply_one (diloco_hooks t c) s push.0 (or_zero push.1) push.2 in
      let one : s'.opt.push_count ≡ s.opt.push_count + 1 = unfold commit_step in refl in
      omega (arith, push_all-push_count s' pushes, one)

  module _ {Byte : Type 0} (files : TorchFiles F (Dict String (Buffers F)) Byte)
      (law : IsTorchFiles files) where
    -- A server with `DelayedNesterovOptimizer` is saved, and a server that is built from a model of the
    -- same names and sizes is started with that file. The start succeeds and has the buffers of the saved
    -- optimizer, with the gradients since the last milestone, but it counts the pushes from zero: after any
    -- further pushes the restarted server is at a milestone if the period divides the number of pushes
    -- since the restart, and the one that was not stopped if it divides the number of all pushes.
    pub init_server-milestones :
        (s : Server F (NesterovState F)) (p : Params F) (every : ℕ) (d : Disk Byte)
        (pushes : List (Push F))
        → keys p ≡ keys s.params
        → sizes_of p ≡ sizes_of s.params
        → (r : Checkpointed F (NesterovState F) Byte) × (init_server nesterov_stored files
              (rebuilt nesterov_stored files s p fresh_optimizer)
              true
              every
              (save_checkpoint nesterov_stored files s completed d).1
            ≡ ok r)
          × (r.model.opt.state ≡ s.opt.state)
          × (is_milestone t c (push_all (diloco_hooks t c) r.model pushes).opt.push_count
              ≡ (length pushes % c.nesterov_period == 0))
          × (is_milestone t c (push_all (diloco_hooks t c) s pushes).opt.push_count
              ≡ ((s.opt.push_count + length pushes) % c.nesterov_period == 0))
    unfolding nesterov_stored
    init_server-milestones s p every d pushes same sizes =
        let r =
          resumed nesterov_stored files s fresh_optimizer every
            (save_checkpoint nesterov_stored files s completed d).1 in
        let from_zero : (push_all (diloco_hooks t c) r.model pushes).opt.push_count
            ≡ length pushes =
          omega (arith, push_all-push_count r.model pushes) in
        (
          r,
          init_server-save_checkpoint nesterov_stored files law s p fresh_optimizer every d same
              sizes,
          refl,
          ap (is_milestone t c) from_zero,
          ap (is_milestone t c) (push_all-push_count s pushes),
        )
