-- ===== src/RolloutQueue/Fifo.antt =====
-- The order of the batches through the queue.
use panofabric_engine.Prelude.{
  ◌≡◌, sym, ap, ◌≡⟨◌⟩◌, ◌∎, Option, none, some, List, [], ◌∷◌, ◌++◌, append_assoc, append-nil,
  arith, ◌==◌, if◌then◌else◌, List-cases, inl, inr,
}
use panofabric_engine.RolloutQueue.{RolloutQueueServer, Request, push, pop, Response, handle, serve}

module _ {Batch Body : Type 0} (loads : Body → Option Batch) (dumps : Batch → Body) where
  -- What one exchange put into the queue, read off the wire.
  abbrev pub accepted_one : Request Body → Response Body → List Batch
  accepted_one (push b) resp =
      if resp.status == 204 then (elim (loads b) [ none ↦ [] | some batch ↦ batch ∷ [] ]) else []
  accepted_one pop resp = []

  -- What one exchange handed to a trainer, read off the wire.
  abbrev pub popped_one : Request Body → Response Body → List Batch
  popped_one (push b) resp = []
  popped_one pop resp = elim resp.body [
    | none ↦ []
    | some b ↦ elim (loads b) [ none ↦ [] | some batch ↦ batch ∷ [] ]
  ]

  abbrev pub accepted : List (Request Body × Response Body) → List Batch
  accepted [] = []
  accepted ((r, resp) ∷ log) = accepted_one r resp ++ accepted log

  abbrev pub popped : List (Request Body × Response Body) → List Batch
  popped [] = []
  popped ((r, resp) ∷ log) = popped_one r resp ++ popped log

  module _ (loads-dumps : (b : Batch) → loads (dumps b) ≡ some b) where
    handle_lem :
        (s : RolloutQueueServer Batch) (r : Request Body)
        → s.queue ++ accepted_one r (handle loads dumps s r).1
          ≡ popped_one r (handle loads dumps s r).1 ++ (handle loads dumps s r).0.queue
    unfolding handle
    handle_lem s (push b) = ground (arith, append-nil s.queue)
    handle_lem s pop = elim (List-cases s.queue) [
      | inl e ↦ ground (arith, e, append-nil s.queue)
      | inr (b, rest, e) ↦ ground (arith, e, loads-dumps b, append-nil s.queue)
    ]

    -- Over any sequence of requests, the batches queued at the start and those accepted since are,
    -- in this order, the batches popped and those still queued: none is lost, none is handed out
    -- twice, and the order is kept.
    pub serve-fifo :
        (s : RolloutQueueServer Batch) (rs : List (Request Body))
        → s.queue ++ accepted (serve loads dumps s rs).1
          ≡ popped (serve loads dumps s rs).1 ++ (serve loads dumps s rs).0.queue
    unfolding serve
    serve-fifo s [] = append-nil s.queue
    serve-fifo s (r ∷ rs) =
        let now = handle loads dumps s r in
        let later = serve loads dumps now.0 rs in
        s.queue ++ (accepted_one r now.1 ++ accepted later.1)
        ≡⟨ sym (append_assoc s.queue _ _) ⟩ (s.queue ++ accepted_one r now.1) ++ accepted later.1
        ≡⟨ ap (λ q. q ++ accepted later.1) (handle_lem s r) ⟩
          (popped_one r now.1 ++ now.0.queue) ++ accepted later.1
        ≡⟨ append_assoc (popped_one r now.1) _ _ ⟩
          popped_one r now.1 ++ (now.0.queue ++ accepted later.1)
        ≡⟨ ap (◌++◌ (popped_one r now.1)) (serve-fifo now.0 rs) ⟩
          popped_one r now.1 ++ (popped later.1 ++ later.0.queue)
        ≡⟨ sym (append_assoc (popped_one r now.1) _ _) ⟩
          (popped_one r now.1 ++ popped later.1) ++ later.0.queue ∎
