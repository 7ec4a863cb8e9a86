-- ===== src/Diloco/Rounds/Processor.antt =====
-- Which thread processes a synchronous round (`_sync_accumulate_and_wait`).
use panofabric_engine.Prelude.{
  ℕ, ◌≤◌, ◌<◌, ◌≡◌, refl, sym, ap, subst, ◌⊎◌, inl, inr, Bool, true, false, none, some, List, [],
  ◌∷◌, ◌++◌, arith, length, length-append, get_elem?, Bool-cases,
}
use panofabric_engine.Prelude.Slots.{get_elem?-last}
use panofabric_engine.Diloco.Server.{Params}
use panofabric_engine.Diloco.Rounds.{
  GraceBatch, Rounds, open_batch, join_batch, accumulate, claim, is_full, sync_accumulate,
}
use panofabric_engine.Diloco.Rounds.Groups.{
  IsGrouped, Opened, claim-last, accumulate-last, last_open, last_shape,
}

module _ {F : Type 0} (sync_workers : ℕ) where
  -- The thread of the push `g` joined a batch with it, and processes that batch or waits for it.
  abbrev pub Joins : Params F → ℕ × Bool × Rounds F → Type 0
  Joins g (i, processor, s) =
      (b : GraceBatch F) × (earlier : List (Params F)) × (get_elem? s.batches i ≡ some b)
      × (b.grads_list ≡ earlier ++ g ∷ [])
      × (b.claimed ≡ processor)
      × (((processor ≡ true) × (length b.grads_list ≡ sync_workers) × (s.grace_batch ≡ none))
          ⊎ ((processor ≡ false) × (length b.grads_list < sync_workers) × (s.grace_batch ≡ some i)))

  claim-Joins :
      (before : List (GraceBatch F)) (b : GraceBatch F) (earlier : List (Params F)) (g : Params F)
      (s : Rounds F)
      → b.claimed ≡ false
      → b.done ≡ false
      → b.grads_list ≡ earlier ++ g ∷ []
      → length b.grads_list ≤ sync_workers
      → s ≡ last_open sync_workers before b
      → (let (processor, s') = claim (is_full sync_workers) (length before) s in
          Joins g (length before, processor, s'))
  claim-Joins before b earlier g s c d last most e =
      rw (e, claim-last sync_workers before b c d)
        (elim (Bool-cases (is_full sync_workers b)) [
          | inl full ↦ rw full (
            record b { claimed = true },
            earlier,
            get_elem?-last before (record b { claimed = true }),
            last,
            refl,
            inl (refl, ground arith, refl),
          )
          | inr short ↦
              rw short
                (b, earlier, get_elem?-last before b, last, c, inr (refl, ground arith, refl))
        ])

  Joins-last :
      (before : List (GraceBatch F)) (b : GraceBatch F) (g : Params F) (speed : ℕ)
      → Opened sync_workers b
      → Joins g (sync_accumulate sync_workers (last_open sync_workers before b) g speed)
  unfolding sync_accumulate accumulate
  Joins-last before b g speed (c, d, one, less) =
      let longer = length-append b.grads_list (g ∷ []) in
      claim-Joins before (join_batch g speed b) b.grads_list g _ c d refl (omega (arith, longer))
        (ap (λ r. r.1) (accumulate-last sync_workers before b g speed none))

  pub sync_accumulate-Joins :
      (s : Rounds F) (g : Params F) (speed : ℕ)
      → 1 ≤ sync_workers
      → IsGrouped sync_workers s
      → Joins g (sync_accumulate sync_workers s g speed)
  unfolding sync_accumulate accumulate
  sync_accumulate-Joins s g speed least (inl (none_open, all)) =
      rw (none_open, sync_accumulate, accumulate)
        (claim-Joins s.batches (open_batch g speed none) [] g _ refl refl refl least refl)
  sync_accumulate-Joins s g speed least (inr (before, b, is, at, all, opened)) =
      subst (λ s. Joins g (sync_accumulate sync_workers s g speed))
        (sym (last_shape sync_workers before b s is at)) (Joins-last before b g speed opened)
