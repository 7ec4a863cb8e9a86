-- ===== src/Diloco/Rounds/Groups.antt =====
-- The synchronous round as steps of threads, and one step at a time.
use panofabric_engine.Prelude.{
  ℕ, ◌≤◌, ◌<◌, ◌≡◌, refl, sym, ap, subst, ◌∙◌, ◌⊎◌, inl, inr, true, false, Option, none, some, List,
  [], ◌∷◌, ◌++◌, map, append-nil, append_assoc, arith, ◌||◌, if◌then◌else◌, length, length-append,
  get_elem?, concat, All, All-append, Bool-cases, Option-cases,
}
use panofabric_engine.Prelude.Slots.{get_elem?-last, set-last, get_elem?-snoc, All-get}
use panofabric_engine.Prelude.Result.{Error}
use panofabric_engine.Diloco.Server.{Params}
use panofabric_engine.Diloco.Rounds.{
  GraceBatch, Rounds, open_batch, join_batch, update, accumulate, claim, is_full, sync_accumulate,
  grace_batch_publish, filled,
}

module _ {F : Type 0} (sync_workers : ℕ) where
  -- One section of a thread, with the push that it brings.
  pub data SyncStep : Rounds F → List (Params F) → Rounds F → Type 0 where
    push :
        (s : Rounds F) (g : Params F) (speed : ℕ)
        → SyncStep s (g ∷ []) (sync_accumulate sync_workers s g speed).2
    wake : (s : Rounds F) (i : ℕ) → SyncStep s [] (claim (is_full sync_workers) i s).1
    -- The processor fills its batch and publishes it.
    fill :
        (s : Rounds F) (i : ℕ) (b : GraceBatch F) (pool : ℕ) (flat : List F) (revision : ℕ)
        → get_elem? s.batches i ≡ some b
        → b.claimed ≡ true
        → SyncStep s []
            (record s { batches = update i (λ b. filled b pool flat revision) s.batches })
    publish :
        (s : Rounds F) (i : ℕ) (b : GraceBatch F) (e : Option Error)
        → get_elem? s.batches i ≡ some b
        → b.claimed ≡ true
        → SyncStep s [] (grace_batch_publish i e s)

  -- The states of a server, with the pushes that it took in, in their order.
  pub data SyncRun : List (Params F) → Rounds F → Type 0 where
    start : SyncRun [] (record { batches = []; grace_batch = none })
    next :
        {ps qs : List (Params F)} {s s' : Rounds F}
        → SyncRun ps s
        → SyncStep s qs s'
        → SyncRun (ps ++ qs) s'

  abbrev pub Closed : GraceBatch F → Type 0
  Closed b = (b.claimed ≡ true) × (length b.grads_list ≡ sync_workers)

  abbrev pub Opened : GraceBatch F → Type 0
  Opened b =
      (b.claimed ≡ false)
      × (b.done ≡ false)
      × (1 ≤ length b.grads_list)
      × (length b.grads_list < sync_workers)

  -- All batches are closed, or all but the last, which is the open one.
  abbrev pub IsGrouped : Rounds F → Type 0
  IsGrouped s =
      ((s.grace_batch ≡ none) × All Closed s.batches)
      ⊎ ((before : List (GraceBatch F)) × (b : GraceBatch F) × (s.batches ≡ before ++ b ∷ [])
          × (s.grace_batch ≡ some (length before))
          × All Closed before
          × Opened b)

  abbrev pub pushed : List (GraceBatch F) → List (Params F)
  pushed bs = concat (map (λ b. b.grads_list) bs)

  pub pushed-snoc :
      (bs : List (GraceBatch F)) (b : GraceBatch F)
      → pushed (bs ++ b ∷ []) ≡ pushed bs ++ b.grads_list
  pushed-snoc [] b = append-nil b.grads_list
  pushed-snoc (x ∷ bs) b =
      ap (◌++◌ x.grads_list) (pushed-snoc bs b) ∙ sym (append_assoc x.grads_list _ _)

  -- The test of the thread that joined the last batch.
  pub claim-last :
      (before : List (GraceBatch F)) (b : GraceBatch F)
      → b.claimed ≡ false
      → b.done ≡ false
      → claim
          (is_full sync_workers)
          (length before)
          (record { batches = before ++ b ∷ []; grace_batch = some (length before) })
        ≡ (if is_full sync_workers b
            then (
              true,
              record { batches = before ++ record b { claimed = true } ∷ []; grace_batch = none },
            )
            else (false, record { batches = before ++ b ∷ []; grace_batch = some (length before) }))
  unfolding claim
  claim-last before b c d =
      rw (get_elem?-last before b, tested b c d, claim)
        (ap
          (λ bs.
            if is_full sync_workers b
            then (true, record { batches = bs; grace_batch = none })
            else (false, record { batches = before ++ b ∷ []; grace_batch = some (length before) }))
          (set-last before b (record b { claimed = true })))
    where
      tested :
          (b : GraceBatch F) → b.claimed ≡ false → b.done ≡ false → (b.done || b.claimed) ≡ false
      tested b c d = rw (c, d) refl

  -- A push that makes the last batch `b`: the batch is closed exactly when it is full.
  settled :
      (before : List (GraceBatch F)) (b : GraceBatch F) (s : Rounds F)
      → All Closed before
      → b.claimed ≡ false
      → b.done ≡ false
      → 1 ≤ length b.grads_list
      → length b.grads_list ≤ sync_workers
      → s ≡ record { batches = before ++ b ∷ []; grace_batch = some (length before) }
      → IsGrouped (claim (is_full sync_workers) (length before) s).1
        × (pushed (claim (is_full sync_workers) (length before) s).1.batches
            ≡ pushed before ++ b.grads_list)
  settled before b s all c d least most e =
      rw (e, claim-last before b c d)
        (elim (Bool-cases (is_full sync_workers b)) [
          | inl full ↦ rw full (
            inl (refl, All-append Closed before _ all ((refl, ground arith), tt)),
            pushed-snoc before (record b { claimed = true }),
          )
          | inr short ↦
              rw short (
                inr (before, b, refl, refl, all, (c, d, least, ground arith)),
                pushed-snoc before b,
              )
        ])

  pub waited : (s : Rounds F) (i : ℕ) → IsGrouped s → claim (is_full sync_workers) i s ≡ (false, s)
  unfolding claim
  waited s i (inl (none_open, all)) = elim (Option-cases (get_elem? s.batches i)) [
    | inl e ↦ rw (e, claim) refl
    | inr (b, e) ↦
        let closed = All-get Closed s.batches i b all e in rw (e, claim) (ground (arith, closed.0))
  ]
  waited s i (inr (before, b, is, at, all, (c, d, least, less))) =
      elim (Option-cases (get_elem? s.batches i)) [
        | inl e ↦ rw (e, claim) refl
        | inr (x, e) ↦ elim (get_elem?-snoc before b i x (sym (ap (λ bs. get_elem? bs i) is) ∙ e)) [
          | inl same ↦
              rw (e, claim)
                (ground (
                  arith,
                  c,
                  d,
                  less,
                  ap (λ y. y.claimed) same,
                  ap (λ y. y.done) same,
                  ap (λ y. length y.grads_list) same,
                ))
          | inr (old, _, _) ↦
              let closed = All-get Closed before i x all old in
              rw (e, claim) (ground (arith, closed.0))
        ]
      ]

  pub accumulate-last :
      (before : List (GraceBatch F)) (b : GraceBatch F) (g : Params F) (speed : ℕ)
      (deadline : Option ℕ)
      → accumulate
          (record { batches = before ++ b ∷ []; grace_batch = some (length before) })
          g
          speed
          deadline
        ≡ (
          length before,
          record {
            batches = before ++ join_batch g speed b ∷ [];
            grace_batch = some (length before);
          },
        )
  unfolding accumulate
  accumulate-last before b g speed deadline =
      rw (get_elem?-last before b, accumulate, update)
        (ap (λ bs. (length before, record { batches = bs; grace_batch = some (length before) }))
          (set-last before b (join_batch g speed b)))

  abbrev pub last_open : List (GraceBatch F) → GraceBatch F → Rounds F
  last_open before b = record { batches = before ++ b ∷ []; grace_batch = some (length before) }

  pub last_shape :
      (before : List (GraceBatch F)) (b : GraceBatch F) (s : Rounds F)
      → s.batches ≡ before ++ b ∷ []
      → s.grace_batch ≡ some (length before)
      → s ≡ last_open before b
  last_shape before b s is at =
      ap (λ bs. record { batches = bs; grace_batch = s.grace_batch }) is
      ∙ ap (λ i. record { batches = before ++ b ∷ []; grace_batch = i }) at

  entered_last :
      (before : List (GraceBatch F)) (b : GraceBatch F) (g : Params F) (speed : ℕ)
      → All Closed before
      → Opened b
      → IsGrouped (sync_accumulate sync_workers (last_open before b) g speed).2
        × (pushed (sync_accumulate sync_workers (last_open before b) g speed).2.batches
            ≡ pushed (before ++ b ∷ []) ++ g ∷ [])
  unfolding sync_accumulate accumulate
  entered_last before b g speed all (c, d, one, less) =
      let longer = length-append b.grads_list (g ∷ []) in
      let p =
        settled before (join_batch g speed b) (accumulate (last_open before b) g speed none).1 all c
          d (omega (arith, longer)) (omega (arith, longer))
          (ap (λ r. r.1) (accumulate-last before b g speed none)) in
      (
        p.0,
        p.1
            ∙ sym (append_assoc (pushed before) b.grads_list (g ∷ []))
            ∙ ap (λ gs. gs ++ g ∷ []) (sym (pushed-snoc before b)),
      )

  pub entered :
      (s : Rounds F) (g : Params F) (speed : ℕ)
      → 1 ≤ sync_workers
      → IsGrouped s
      → IsGrouped (sync_accumulate sync_workers s g speed).2
        × (pushed (sync_accumulate sync_workers s g speed).2.batches ≡ pushed s.batches ++ g ∷ [])
  unfolding sync_accumulate accumulate
  entered s g speed least (inl (none_open, all)) =
      rw (none_open, sync_accumulate, accumulate)
        (settled s.batches (open_batch g speed none) _ all refl refl (omega arith) least refl)
  entered s g speed least (inr (before, b, is, at, all, opened)) =
      subst
        (λ s.
          IsGrouped (sync_accumulate sync_workers s g speed).2
          × (pushed (sync_accumulate sync_workers s g speed).2.batches
              ≡ pushed s.batches ++ g ∷ []))
        (sym (last_shape before b s is at)) (entered_last before b g speed all opened)
