-- ===== src/RolloutQueue/Clients.antt =====
-- The clients against the server: what a call returns and what it changes.
use panofabric_engine.Prelude.{
  ◌+◌, ◌≡◌, ◌⊎◌, inl, inr, true, false, Option, none, some, List, [], ◌∷◌, ◌++◌, arith, Bool-cases,
  List-cases,
}
use panofabric_engine.RolloutQueue.{
  RolloutQueueServer, Request, Response, push, pop, full, handle, send, pop_client,
}

module _ {Batch Body : Type 0} (loads : Body → Option Batch) (dumps : Batch → Body) where
  -- A transport that reaches the server.
  abbrev pub exchange_with : RolloutQueueServer Batch → Request Body → Option (Response Body)
  exchange_with s r = some (handle loads dumps s r).1

  module _ (loads-dumps : (b : Batch) → loads (dumps b) ≡ some b) where
    -- `send` returns true exactly when the queue has room; then the batch is the last one in the
    -- queue, and otherwise the queue is unchanged and the rejection is counted.
    pub send-full :
        (s : RolloutQueueServer Batch) (b : Batch)
        → ((full s ≡ false)
            × (send loads dumps (exchange_with s) b ≡ true)
            × ((handle loads dumps s (push (dumps b))).0.queue ≡ s.queue ++ b ∷ [])
            × ((handle loads dumps s (push (dumps b))).0.num_rejected ≡ s.num_rejected))
          ⊎ ((full s ≡ true)
              × (send loads dumps (exchange_with s) b ≡ false)
              × ((handle loads dumps s (push (dumps b))).0.queue ≡ s.queue)
              × ((handle loads dumps s (push (dumps b))).0.num_rejected ≡ s.num_rejected + 1))
    unfolding handle send
    send-full s b = elim (Bool-cases (full s)) [
      | inl e ↦ inr (
        e,
        ground (arith, loads-dumps b),
        ground (arith, loads-dumps b),
        ground (arith, loads-dumps b),
      )
      | inr e ↦ inl (
        e,
        ground (arith, loads-dumps b),
        ground (arith, loads-dumps b),
        ground (arith, loads-dumps b),
      )
    ]

    -- `pop` returns the oldest batch and removes it, and `None` exactly from an empty queue, which
    -- it leaves unchanged.
    pub pop_client-queue :
        (s : RolloutQueueServer Batch)
        → ((s.queue ≡ [])
            × (pop_client loads dumps (exchange_with s) ≡ none)
            × ((handle loads dumps s pop).0 ≡ s))
          ⊎ ((b : Batch) × (rest : List Batch) × (s.queue ≡ b ∷ rest)
              × (pop_client loads dumps (exchange_with s) ≡ some b)
              × ((handle loads dumps s pop).0.queue ≡ rest))
    unfolding handle pop_client
    pop_client-queue s = elim (List-cases s.queue) [
      | inl e ↦ inl (e, ground (arith, e), ground (arith, e))
      | inr (b, rest, e) ↦ inr (b, rest, e, ground (arith, e, loads-dumps b), ground (arith, e))
    ]
