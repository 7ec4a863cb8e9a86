-- ===== src/Diloco/Sync/Variants.antt =====
-- Delta downloads of a server that has more than one snapshot variant, as `HeLoCoServer` has.
use panofabric_engine.Prelude.{
  ℕ, String, ◌-◌, ◌≤◌, ◌≡◌, refl, ap, ◌∙◌, ◌⊎◌, inl, inr, true, false, none, some, List, [], ◌∷◌,
  if◌then◌else◌, nat_eq, length, drop, arith,
}
use panofabric_engine.Prelude.Dict.{Dict, lookup, insert}
use panofabric_engine.Prelude.Result.{ok, ◌>>◌}
use panofabric_engine.Diloco.Server.{
  Hooks, IsLocal, Server, Params, Island, frag_names, built_flat, snapshot_flat,
}
use panofabric_engine.Diloco.Server.Snapshots.{with_cache, snapshot_flat-eq-built_flat}
use panofabric_engine.Diloco.Sync.{
  Header, Layout, Reply, Payload, SyncServer, Handled, check_push, handle_sync, is_whole,
  reply_payload, remember, do_post,
}
use panofabric_engine.Diloco.Sync.Requests.{IsSound}
use panofabric_engine.Diloco.Sync.Payloads.{base_of, encoded, reply_payload-base}

module _ {F Opt : Type 0} (h : Hooks F Opt) (law : IsLocal h) where
  abbrev pub whole_of : Server F Opt → Island → List F
  whole_of m i = built_flat h m i (frag_names m none)

  -- A pull of the whole model from a server of one fragment, as it is answered.
  abbrev pulled :
      SyncServer F Opt
      → Header
      → Dict (ℕ × String) (ℕ × List F)
      → Reply × Payload F × SyncServer F Opt
  pulled s hd c =
      let flat = whole_of s.model hd.island_id in
      let d = insert s.model.revision flat s.served in
      (
        record { new_steps = s.dylu.dylu_H; revision = s.model.revision; applied = false },
        reply_payload h s hd flat,
        record s { model = with_cache s.model c; served = drop (length d - s.served_max) d },
      )

  pull-is_whole :
      (s : SyncServer F Opt) (hd : Header)
      → s.model.num_fragments ≡ 1
      → hd.flag ≡ false
      → is_whole h s hd ≡ true
  pull-is_whole s hd one pull = ground (arith, one, pull)

  remember-whole :
      (s : SyncServer F Opt) (hd : Header) (rev : ℕ) (flat : List F)
      → is_whole h s hd ≡ true
      → remember h s hd rev flat ≡ record s {
        served = (let d = insert rev flat s.served in drop (length d - s.served_max) d);
      }
  unfolding remember
  remember-whole s hd rev flat w = rw (w, remember) refl

  handle_sync-pull :
      (s : SyncServer F Opt) (now : ℕ) (hd : Header) (grads : Params F)
      → hd.flag ≡ false
      → handle_sync h s now hd grads ≡ (
          let (flat, m) = snapshot_flat h s.model none hd.island_id in
          (
            record { new_steps = s.dylu.dylu_H; revision = m.revision; applied = false },
            flat,
            record s { model = m },
          ))
  unfolding handle_sync
  handle_sync-pull s now hd grads pull = rw (pull, handle_sync) refl

  do_post-pull :
      (l : Layout) (s : SyncServer F Opt) (now : ℕ) (hd : Header) (grads : Params F)
      → hd.flag ≡ false
      → do_post h l s now hd grads ≡ (
          let r = handle_sync h s now hd grads in
          ok (r.0, reply_payload h r.2 hd r.1, remember h r.2 hd r.0.revision r.1))
  unfolding do_post
  do_post-pull l s now hd grads pull =
      ap
        (λ b.
          (if b then check_push l hd else ok tt)
          >> (let r = handle_sync h s now hd grads in
              ok (r.0, reply_payload h r.2 hd r.1, remember h r.2 hd r.0.revision r.1)))
        pull

  do_post-pulled :
      (l : Layout) (s : SyncServer F Opt) (now : ℕ) (hd : Header) (grads : Params F)
      → IsSound h s.model
      → s.model.num_fragments ≡ 1
      → hd.flag ≡ false
      → (c : Dict (ℕ × String) (ℕ × List F)) × (do_post h l s now hd grads ≡ ok (pulled s hd c))
        × IsSound h (with_cache s.model c)
  unfolding reply_payload frag_names built_flat
  do_post-pulled l s now hd grads sound one pull =
      let (c, e, coherent) =
        snapshot_flat-eq-built_flat h law s.model none hd.island_id sound.layout sound.coherent in
      (
        c,
        do_post-pull l s now hd grads pull
            ∙ ap
                (λ (r : Handled h).
                  ok (r.0, reply_payload h r.2 hd r.1, remember h r.2 hd r.0.revision r.1))
                (handle_sync-pull s now hd grads pull
                  ∙ ap
                      (λ (p : List F × Server F Opt). (
                        record {
                          new_steps = s.dylu.dylu_H;
                          revision = p.1.revision;
                          applied = false;
                        },
                        p.0,
                        record s { model = p.1 },
                      ))
                      e)
            ∙ ap
                (λ t. ok (
                  record {
                    new_steps = s.dylu.dylu_H;
                    revision = s.model.revision;
                    applied = false;
                  },
                  reply_payload h s hd (whole_of s.model hd.island_id),
                  t,
                ))
                (remember-whole (record s { model = with_cache s.model c }) hd s.model.revision
                  (whole_of s.model hd.island_id) (pull-is_whole s hd one pull)),
        record {
          layout = record {
            distinct = sound.layout.distinct;
            chain = sound.layout.chain;
            count = sound.layout.count;
          };
          coherent = coherent;
          counted = sound.counted;
        },
      )

  keep_one : {A : Type 0} (n : ℕ) (x : A) → 1 ≤ n → drop (1 - n) (x ∷ []) ≡ x ∷ []
  keep_one n x b = ap (λ k. drop k (x ∷ [])) (nothing n b)
    where
      nothing : (n : ℕ) → 1 ≤ n → 1 - n ≡ 0
      nothing n b = omega arith

  -- A ring of at most one entry, at the server's revision, after a pull: the entry is what the
  -- pulling island was sent.
  ring_after :
      (rev bound : ℕ) (flat : List F) (d : Dict ℕ (List F))
      → 1 ≤ bound
      → (d ≡ []) ⊎ ((old : List F) × (d ≡ (rev, old) ∷ []))
      → (let d' = insert rev flat d in drop (length d' - bound) d') ≡ (rev, flat) ∷ []
  unfolding insert
  ring_after rev bound flat d b (inl e) = rw e (keep_one bound (rev, flat) b)
  ring_after rev bound flat d b (inr (old, e)) =
      rw (e, (nat_eq.beq_iff rev rev).1 refl, insert) (keep_one bound (rev, flat) b)

  -- Three pulls of the whole model from a server of one fragment with an empty ring, the last one
  -- naming the server's revision and accepting a delta: all three are answered. The first reply
  -- encodes the snapshot of the first island; the third is a delta at the revision of the first, but
  -- against the snapshot of the second pull's island.
  pub do_post-delta_mixed :
      (l : Layout) (s : SyncServer F Opt) (now : ℕ) (mine theirs again : Header) (grads : Params F)
      → IsSound h s.model
      → s.model.num_fragments ≡ 1
      → s.served ≡ []
      → 1 ≤ s.served_max
      → (mine.flag ≡ false) × (theirs.flag ≡ false) × (again.flag ≡ false)
      → again.accept_delta ≡ true
      → again.baseline_revision ≡ s.model.revision
      → (r1 r2 r3 : Reply × Payload F × SyncServer F Opt) × (do_post h l s now mine grads ≡ ok r1)
        × (do_post h l r1.2 now theirs grads ≡ ok r2)
        × (do_post h l r2.2 now again grads ≡ ok r3)
        × (r1.0.revision ≡ s.model.revision)
        × (encoded r1.1 ≡ whole_of s.model mine.island_id)
        × (base_of r3.1 ≡ some (s.model.revision, whole_of s.model theirs.island_id))
  unfolding built_flat frag_names reply_payload lookup
  do_post-delta_mixed l s now mine theirs again grads sound one empty bound (p1, p2, p3) accept
        base =
      let (c1, e1, k1) = do_post-pulled l s now mine grads sound one p1 in
      let s1 = (pulled s mine c1).2 in
      let (c2, e2, k2) = do_post-pulled l s1 now theirs grads k1 one p2 in
      let s2 = (pulled s1 theirs c2).2 in
      let (c3, e3, k3) = do_post-pulled l s2 now again grads k2 one p3 in
      let ring1 : s1.served ≡ (s.model.revision, whole_of s.model mine.island_id) ∷ [] =
        ring_after s.model.revision s.served_max _ s.served bound (inl empty) in
      let ring2 : s2.served ≡ (s.model.revision, whole_of s.model theirs.island_id) ∷ [] =
        ring_after s.model.revision s.served_max _ s1.served bound (inr (_, ring1)) in
      (
        pulled s mine c1,
        pulled s1 theirs c2,
        pulled s2 again c3,
        e1,
        e2,
        e3,
        refl,
        (reply_payload-base h s mine (whole_of s.model mine.island_id)).0,
        rw (accept, pull-is_whole s2 again one p3, ring2, base)
            (rw ((nat_eq.beq_iff s.model.revision s.model.revision).1 refl)
              (ap (λ k. some (k, whole_of s.model theirs.island_id)) base)),
      )
