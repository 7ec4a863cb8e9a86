-- ===== src/Diloco/Sync/Requests.antt =====
-- What a request does to the model, on every branch.
use panofabric_engine.Prelude.{
  ℕ, String, ◌≤◌, ◌≡◌, refl, inl, inr, Bool, true, false, Option, none, List, [], ◌∷◌, arith, ltb,
  if◌then◌else◌, Bool-cases,
}
use panofabric_engine.Prelude.Dict.{Dict, keys}
use panofabric_engine.Diloco.Server.{
  Hooks, IsLocal, Server, Params, frag_names, built_flat, apply_one, snapshot_flat, or_zero,
}
use panofabric_engine.Diloco.Server.Coherence.{IsLayout, IsCoherent}
use panofabric_engine.Diloco.Server.Snapshots.{
  with_cache, snapshot_flat-eq-built_flat, apply_one-IsCoherent,
}
use panofabric_engine.Diloco.Dylu.{record_speeds, pool_speed, dylu_steps}
use panofabric_engine.Diloco.Sync.{Header, SyncServer, Handled, with_snapshot, handle_sync, scope}

-- The invariant of the model between requests: revisions count commits from a start.
pub record IsSound {F Opt : Type 0} (h : Hooks F Opt) (s : Server F Opt) : Type 0 where
  pub layout : IsLayout s
  pub coherent : IsCoherent h s
  pub counted : s.applied_pushes ≤ s.revision

-- The model state that a request ends in, but for its cache.
module _ {F Opt : Type 0} (h : Hooks F Opt) where
  abbrev pub target : Server F Opt → Header → Params F → Server F Opt
  target m hd grads =
      if hd.flag
      then (if ltb m.revision hd.baseline_revision
          then m
          else apply_one h m grads (or_zero hd.fragment) hd.island_id)
      else m

  -- A push that the header checks let through: its gradients cover its fragment.
  abbrev pub Covers : Server F Opt → Header → Params F → Type 0
  Covers m hd grads =
      (hd.flag ≡ true)
      → (keys grads ≡ frag_names m hd.fragment) × (hd.fragment ≡ none → m.num_fragments ≡ 1)

  -- Only a rejected push is answered for an unknown island.
  abbrev pub reply_island : Server F Opt → Header → Option ℕ
  reply_island m hd =
      if hd.flag
      then (if ltb m.revision hd.baseline_revision then none else hd.island_id)
      else hd.island_id

  abbrev pub is_applied : Server F Opt → Header → Bool
  is_applied m hd =
      if hd.flag then (if ltb m.revision hd.baseline_revision then false else true) else false

  module _ (law : IsLocal h) where
    apply_one-IsSound :
        (m : Server F Opt) (hd : Header) (grads : Params F)
        → IsSound h m
        → (keys grads ≡ frag_names m hd.fragment) × (hd.fragment ≡ none → m.num_fragments ≡ 1)
        → IsSound h (apply_one h m grads (or_zero hd.fragment) hd.island_id)
    apply_one-IsSound m hd grads k c =
        let (coherent, layout, rev, pushes) =
          apply_one-IsCoherent h law m grads hd.fragment hd.island_id k.layout k.coherent c.0 c.1 in
        record { layout = layout; coherent = coherent; counted = omega (arith, k.counted) }

    target-IsSound :
        (m : Server F Opt) (hd : Header) (grads : Params F)
        → IsSound h m
        → Covers m hd grads
        → IsSound h (target m hd grads)
    target-IsSound m hd grads k c = elim (Bool-cases hd.flag) [
      | inl e ↦ elim (Bool-cases (ltb m.revision hd.baseline_revision)) [
        | inl stale ↦ rw (e, stale) k
        | inr fresh ↦ rw (e, fresh) (apply_one-IsSound m hd grads k (c e))
      ]
      | inr e ↦ rw e k
    ]

    -- What a handled request returns and leaves: `t` is the model state but for its cache.
    record Handles (t : Server F Opt) (island fragment : Option ℕ) (done : Bool)
        (s : SyncServer F Opt) (r : Handled h) : Type 0 where
      pub model : (c : Dict (ℕ × String) (ℕ × List F)) × (r.2.model ≡ with_cache t c)
      pub sound : IsSound h r.2.model
      pub revision : r.0.revision ≡ t.revision
      pub applied : r.0.applied ≡ done
      pub buffer : r.1 ≡ built_flat h t island (frag_names t fragment)
      pub served : (r.2.served ≡ s.served) × (r.2.served_max ≡ s.served_max)

    with_snapshot-Handles :
        (t : Server F Opt) (island fragment : Option ℕ) (steps : ℕ) (done : Bool)
        (s : SyncServer F Opt)
        → IsSound h t
        → Handles t island fragment done s
            (with_snapshot h s steps done (snapshot_flat h t fragment island))
    with_snapshot-Handles t island fragment steps done s k =
        let (c, e, coherent) =
          snapshot_flat-eq-built_flat h law t fragment island k.layout k.coherent in
        rw e (record {
          model = (c, refl);
          sound = record {
            layout = record {
              distinct = k.layout.distinct;
              chain = k.layout.chain;
              count = k.layout.count;
            };
            coherent = coherent;
            counted = k.counted;
          };
          revision = refl;
          applied = refl;
          buffer = refl;
          served = (refl, refl);
        })

    handle_sync-Handles :
        (s : SyncServer F Opt) (now : ℕ) (hd : Header) (grads : Params F)
        → IsSound h s.model
        → Covers s.model hd grads
        → Handles
            (target s.model hd grads)
            (reply_island s.model hd)
            (scope h hd)
            (is_applied s.model hd)
            s
            (handle_sync h s now hd grads)
    unfolding handle_sync
    handle_sync-Handles s now hd grads k c = elim (Bool-cases hd.flag) [
      | inl e ↦ elim (Bool-cases (ltb s.model.revision hd.baseline_revision)) [
        | inl stale ↦
            rw (e, stale) (with_snapshot-Handles s.model none hd.fragment s.dylu.dylu_H false s k)
        | inr fresh ↦
            rw (e, fresh)
              (let q = pool_speed (record_speeds s.dylu now (hd.speed ∷ [])) now in
                let p =
                  with_snapshot-Handles
                    (apply_one h s.model grads (or_zero hd.fragment) hd.island_id) hd.island_id
                    hd.fragment (dylu_steps q.1 hd.speed q.0) true (record s { dylu = q.1 })
                    (apply_one-IsSound s.model hd grads k (c e)) in
                record {
                  model = p.model;
                  sound = p.sound;
                  revision = p.revision;
                  applied = p.applied;
                  buffer = p.buffer;
                  served = p.served;
                })
      ]
      | inr e ↦ rw e (with_snapshot-Handles s.model hd.island_id none s.dylu.dylu_H false s k)
    ]

    -- On a sound model and a push that covers its fragment, `_handle_sync` ends in a sound model that
    -- is, but for its cache: the old one, for a pull and for a push from a baseline ahead of the
    -- server; the old one with the push committed, for any other push. `applied` says which. The
    -- reply carries that model's revision, and the buffer is its current view of the fragment, or of
    -- all parameters.
    pub handle_sync-target :
        (s : SyncServer F Opt) (now : ℕ) (hd : Header) (grads : Params F)
        → IsSound h s.model
        → Covers s.model hd grads
        → ((c : Dict (ℕ × String) (ℕ × List F)) × ((handle_sync h s now hd grads).2.model
              ≡ with_cache (target s.model hd grads) c))
          × IsSound h (handle_sync h s now hd grads).2.model
          × ((handle_sync h s now hd grads).0.revision ≡ (target s.model hd grads).revision)
          × ((handle_sync h s now hd grads).0.applied ≡ is_applied s.model hd)
          × ((handle_sync h s now hd grads).1
              ≡ built_flat h
                  (target s.model hd grads)
                  (reply_island s.model hd)
                  (frag_names (target s.model hd grads) (scope h hd)))
          × ((handle_sync h s now hd grads).2.served ≡ s.served)
    handle_sync-target s now hd grads k c =
        let p = handle_sync-Handles s now hd grads k c in
        (p.model, p.sound, p.revision, p.applied, p.buffer, p.served.0)
