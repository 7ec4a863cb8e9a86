-- ===== src/Diloco/Sync/Served.antt =====
-- The ring of served snapshots: which snapshots a delta is taken against (`_served`, in `do_POST`).
use panofabric_engine.Prelude.{
  ℕ, zero, suc, ◌+◌, ◌≤◌, ◌≡◌, refl, sym, ap, subst, ◌∙◌, ◌⊎◌, inl, inr, true, false, none, some,
  List, [], ◌∷◌, arith, ltb, nat_eq, drop, Bool-cases,
}
use panofabric_engine.Prelude.Dict.{
  Dict, keys, Distinct, contains, contains-lookup, lookup, insert, lookup-insert, insert-Distinct,
}
use panofabric_engine.Diloco.Server.{
  Hooks, Server, Params, frag_names, built_flat, commit_step, apply_one,
}
use panofabric_engine.Diloco.Sync.{Header, SyncServer, is_whole, remember}
use panofabric_engine.Diloco.Sync.Requests.{target}

module _ {F : Type 0} where
  contains-drop :
      (n k : ℕ) (d : Dict ℕ (List F))
      → contains k (keys d) ≡ false
      → contains k (keys (drop n d)) ≡ false
  unfolding contains
  contains-drop zero k d h = h
  contains-drop (suc n) k [] h = refl
  contains-drop (suc n) k ((j, v) ∷ d) h = contains-drop n k d (ground arith)

  drop-Distinct : (n : ℕ) (d : Dict ℕ (List F)) → Distinct (keys d) → Distinct (keys (drop n d))
  drop-Distinct zero d h = h
  drop-Distinct (suc n) [] h = tt
  drop-Distinct (suc n) (e ∷ d) h = drop-Distinct n d h.1

  -- The oldest entries are the only ones that the bound removes.
  lookup-drop :
      (n k : ℕ) (v : List F) (d : Dict ℕ (List F))
      → Distinct (keys d)
      → lookup k (drop n d) ≡ some v
      → lookup k d ≡ some v
  unfolding lookup
  lookup-drop zero k v d dis e = e
  lookup-drop (suc n) k v [] dis e = e
  lookup-drop (suc n) k v ((j, w) ∷ d) dis e =
      let later = lookup-drop n k v d dis.1 e in ground (arith, later, contains-lookup j d dis.0)

module _ {F Opt : Type 0} (h : Hooks F Opt) where
  -- The whole model as a worker is sent it now.
  abbrev pub current : Server F Opt → List F
  current m = built_flat h m none (frag_names m none)

  -- The ring holds one buffer for a revision, of this server's past.
  pub record IsTracked (s : SyncServer F Opt) : Type 0 where
    pub distinct : Distinct (keys s.served)
    pub known :
        (k : ℕ) (b : List F)
        → lookup k s.served ≡ some b
        → (k ≤ s.model.revision) × (k ≡ s.model.revision → b ≡ current s.model)

  -- What the last reply to a worker left: the revision it names next, and the buffer that the reply
  -- encoded.
  pub record Holds (s : SyncServer F Opt) (k : ℕ) (buffer : List F) : Type 0 where
    pub past : k ≤ s.model.revision
    pub now : k ≡ s.model.revision → buffer ≡ current s.model
    pub same : (b : List F) → lookup k s.served ≡ some b → b ≡ buffer

  -- A reply is remembered under its revision, or not at all.
  remember-lookup :
      (s : SyncServer F Opt) (hd : Header) (rev : ℕ) (flat : List F) (k : ℕ) (b : List F)
      → Distinct (keys s.served)
      → lookup k (remember h s hd rev flat).served ≡ some b
      → ((k ≡ rev) × (b ≡ flat) × (is_whole h s hd ≡ true)) ⊎ (lookup k s.served ≡ some b)
  unfolding remember
  remember-lookup s hd rev flat k b dis e = elim (Bool-cases (is_whole h s hd)) [
    | inl w ↦
        let kept =
          lookup-drop _ k b (insert rev flat s.served) (insert-Distinct rev flat s.served dis)
            (rw (w, remember) at e) in
        ground (arith, kept, lookup-insert rev k flat s.served)
    | inr w ↦ inr (rw (w, remember) at e)
  ]

  pub target-cases :
      (m : Server F Opt) (hd : Header) (grads : Params F)
      → (target h m hd grads ≡ m) ⊎ ((target h m hd grads).revision ≡ m.revision + 1)
  target-cases m hd grads = elim (Bool-cases hd.flag) [
    | inl e ↦ elim (Bool-cases (ltb m.revision hd.baseline_revision)) [
      | inl stale ↦ inl (rw (e, stale) refl)
      | inr fresh ↦ inr (rw (e, fresh) (unfold apply_one in unfold commit_step in refl))
    ]
    | inr e ↦ inl (rw e refl)
  ]

  pub remember-model :
      (s : SyncServer F Opt) (hd : Header) (rev : ℕ) (flat : List F)
      → (remember h s hd rev flat).model ≡ s.model
  unfolding remember
  remember-model s hd rev flat = ground arith

  -- A handled request, before it is remembered: the model went from `m` to `t`, and `flat` is the
  -- buffer of the reply.
  pub record HandledAs (s s' : SyncServer F Opt) (hd : Header) (flat : List F) : Type 0 where
    pub served : s'.served ≡ s.served
    pub moved :
        ((s'.model.revision ≡ s.model.revision) × (current s'.model ≡ current s.model))
        ⊎ (s'.model.revision ≡ s.model.revision + 1)
    pub buffer : is_whole h s' hd ≡ true → flat ≡ current s'.model

  abbrev pub after : SyncServer F Opt → Header → List F → SyncServer F Opt
  after s' hd flat = remember h s' hd s'.model.revision flat

  module _ (s s' : SyncServer F Opt) (hd : Header) (flat : List F) (e : HandledAs s s' hd flat)
      (tracked : IsTracked s) where
    -- An entry of the ring afterwards is the reply or an older one.
    after-lookup :
        (k : ℕ) (b : List F)
        → lookup k (after s' hd flat).served ≡ some b
        → ((k ≡ s'.model.revision) × (b ≡ current s'.model)) ⊎ (lookup k s.served ≡ some b)
    after-lookup k b found =
        elim (remember-lookup s' hd s'.model.revision flat k b
          (subst (λ d. Distinct (keys d)) (sym e.served) tracked.distinct) found) [
            | inl (at, is, whole) ↦ inl (at, is ∙ e.buffer whole)
            | inr old ↦ inr (ap (lookup k) (sym e.served) ∙ old)
          ]

    after-current : current (after s' hd flat).model ≡ current s'.model
    after-current = ap current (remember-model s' hd s'.model.revision flat)

    after-revision : (after s' hd flat).model.revision ≡ s'.model.revision
    after-revision = ap (λ m. m.revision) (remember-model s' hd s'.model.revision flat)

    after-Distinct : Distinct (keys (after s' hd flat).served)
    unfolding remember
    after-Distinct = elim (Bool-cases (is_whole h s' hd)) [
      | inl w ↦
          rw (w, remember)
            (drop-Distinct _ _ (
              insert-Distinct _ _ _
                (subst (λ d. Distinct (keys d)) (sym e.served) tracked.distinct)))
      | inr w ↦ rw (w, remember) (subst (λ d. Distinct (keys d)) (sym e.served) tracked.distinct)
    ]

    -- What was true of a revision before is true of it afterwards.
    still :
        (k : ℕ) (b : List F)
        → k ≤ s.model.revision
        → (k ≡ s.model.revision → b ≡ current s.model)
        → (k ≤ s'.model.revision) × (k ≡ s'.model.revision → b ≡ current s'.model)
    still k b past now = elim e.moved [
      | inl (same, flat) ↦ (omega arith, λ at. now (at ∙ same) ∙ sym flat)
      | inr next ↦ (omega arith, λ at. absurd (omega arith))
    ]

    pub after-IsTracked : IsTracked (after s' hd flat)
    after-IsTracked = record {
      distinct = after-Distinct;
      known = λ k b found. elim (after-lookup k b found) [
        | inl (at, is) ↦ rw after-revision (omega arith, λ _. is ∙ sym after-current)
        | inr old ↦
            let (past, now) = tracked.known k b old in
            let (past', now') = still k b past now in
            rw (after-revision, after-current) (past', now')
      ];
    }

    pub after-Holds :
        (k : ℕ) (buffer : List F) → Holds s k buffer → Holds (after s' hd flat) k buffer
    after-Holds k buffer w =
        let (past, now) = still k buffer w.past w.now in
        record {
          past = rw after-revision past;
          now = λ at. now (at ∙ after-revision) ∙ sym after-current;
          same = λ b found. elim (after-lookup k b found) [
            | inl (at, is) ↦ is ∙ sym (now at)
            | inr old ↦ w.same b old
          ];
        }

    pub replied-Holds : is_whole h s' hd ≡ true → Holds (after s' hd flat) s'.model.revision flat
    replied-Holds whole = record {
      past = rw after-revision (omega arith);
      now = λ at. e.buffer whole ∙ sym after-current;
      same = λ b found. elim (after-lookup s'.model.revision b found) [
        | inl (at, is) ↦ is ∙ sym (e.buffer whole)
        | inr old ↦
            let (past, now) = tracked.known _ b old in
            let (past', now') = still _ b past now in now' refl ∙ sym (e.buffer whole)
      ];
    }

  pub remember-is_whole :
      (s : SyncServer F Opt) (hd : Header) (flat : List F)
      → is_whole h (after s hd flat) hd ≡ is_whole h s hd
  remember-is_whole s hd flat =
      ap (λ m. is_whole h (record s { model = m }) hd) (remember-model s hd s.model.revision flat)
