-- ===== src/Diloco/Rounds/Batches.antt =====
-- Every run of the synchronous mode, and what one processed batch does to the model.
use panofabric_engine.Prelude.{
  ℕ, ◌≤◌, ◌≡◌, refl, sym, ap, ◌∙◌, inl, inr, true, false, some, List, ◌++◌, append-nil, length,
  length-set, get_elem?, set, concat,
}
use panofabric_engine.Prelude.Slots.{get_elem?-snoc, All-set, All-get, map-set_same}
use panofabric_engine.Diloco.Server.{Params}
use panofabric_engine.Diloco.Rounds.{
  GraceBatch, Rounds, update, claim, is_full, sync_accumulate, grace_batch_publish, filled,
}
use panofabric_engine.Diloco.Rounds.Groups.{
  SyncStep, push, wake, fill, publish, SyncRun, start, next, Closed, IsGrouped, pushed, waited,
  entered,
}
use panofabric_engine.Diloco.Rounds.Processor.{Joins, sync_accumulate-Joins}

module _ {F : Type 0} (sync_workers : ℕ) where
  -- Writing to a claimed batch without touching its claim or its gradients.
  rewritten :
      (f : GraceBatch F → GraceBatch F)
      → ((b : GraceBatch F) → ((f b).claimed ≡ b.claimed) × ((f b).grads_list ≡ b.grads_list))
      → (s : Rounds F) (i : ℕ) (b : GraceBatch F) → get_elem? s.batches i ≡ some b
      → b.claimed ≡ true
      → IsGrouped sync_workers s
      → IsGrouped sync_workers (record s { batches = update i f s.batches })
        × (pushed sync_workers (update i f s.batches) ≡ pushed sync_workers s.batches)
  rewritten f keeps s i b e claimed grouped =
      rw (e, update)
        (
          regrouped grouped,
          ap concat (map-set_same (λ b. b.grads_list) s.batches i (f b) b e (keeps b).1),
        )
    where
      closed : length b.grads_list ≡ sync_workers → Closed sync_workers (f b)
      closed n = ((keeps b).0 ∙ claimed, ap length (keeps b).1 ∙ n)

      regrouped :
          IsGrouped sync_workers s
          → IsGrouped sync_workers (record s { batches = set s.batches i (f b) })
      regrouped (inl (none_open, all)) = inl (
        none_open,
        All-set (Closed sync_workers) s.batches i (f b) all
            (closed (All-get (Closed sync_workers) s.batches i b all e).1),
      )
      regrouped (inr (before, c, is, at, all, opened)) =
          elim (get_elem?-snoc before c i b (ap (λ bs. get_elem? bs i) (sym is) ∙ e)) [
            | inl same ↦ cc (ap (λ y. y.claimed) same, claimed, opened.0)
            | inr (old, put, _) ↦ inr (
              set before i (f b),
              c,
              ap (λ bs. set bs i (f b)) is ∙ put (f b),
              at ∙ ap some (sym (length-set before i (f b))),
              All-set (Closed sync_workers) before i (f b) all
                  (closed (All-get (Closed sync_workers) before i b all old).1),
              opened,
            )
          ]

  stepped :
      {s s' : Rounds F} {ps : List (Params F)}
      → 1 ≤ sync_workers
      → SyncStep sync_workers s ps s'
      → IsGrouped sync_workers s
      → IsGrouped sync_workers s'
        × (pushed sync_workers s'.batches ≡ pushed sync_workers s.batches ++ ps)
  stepped least (push s g speed) grouped = entered sync_workers s g speed least grouped
  stepped least (wake s i) grouped =
      rw (waited sync_workers s i grouped) (grouped, sym (append-nil _))
  stepped least (fill s i b pool flat revision e claimed) grouped =
      let p =
        rewritten (λ b. filled b pool flat revision) (λ b. (refl, refl)) s i b e claimed grouped in
      (p.0, p.1 ∙ sym (append-nil _))
  stepped least (publish s i b error e claimed) grouped =
      let p =
        rewritten (λ b. record b { error = error; done = true }) (λ b. (refl, refl)) s i b e claimed
          grouped in
      unfold grace_batch_publish in (p.0, p.1 ∙ sym (append-nil _))

  -- In every state that a synchronous server of at least one worker reaches, the batches in their
  -- order are the pushes in theirs, each once: every claimed batch has exactly `sync_workers` of them, and at
  -- most one batch is not claimed, the last, which has fewer, at least one, and is the one that the next push
  -- joins. A thread that is woken never becomes the processor. The thread of the next push, whichever
  -- it is, puts it last into a batch: it becomes the processor, with the batch claimed and no batch open,
  -- if the batch then has exactly `sync_workers` pushes, and waits, with the batch open and not claimed, if
  -- it has fewer.
  pub SyncRun-IsGrouped :
      {ps : List (Params F)} {s : Rounds F}
      → 1 ≤ sync_workers
      → SyncRun sync_workers ps s
      → IsGrouped sync_workers s
        × (pushed sync_workers s.batches ≡ ps)
        × ((i : ℕ) → claim (is_full sync_workers) i s ≡ (false, s))
        × ((g : Params F) (speed : ℕ)
            → Joins sync_workers g (sync_accumulate sync_workers s g speed))
  SyncRun-IsGrouped least start = (
    inl (refl, tt),
    refl,
    λ i. unfold claim in refl,
    λ g speed. sync_accumulate-Joins sync_workers _ g speed least (inl (refl, tt)),
  )
  SyncRun-IsGrouped least (next {qs = rest} run step) =
      let (grouped, order, _, _) = SyncRun-IsGrouped least run in
      let (grouped', order') = stepped least step grouped in
      (
        grouped',
        order' ∙ ap (λ ps. ps ++ rest) order,
        λ i. waited sync_workers _ i grouped',
        λ g speed. sync_accumulate-Joins sync_workers _ g speed least grouped',
      )
