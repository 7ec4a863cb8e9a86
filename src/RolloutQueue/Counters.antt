-- ===== src/RolloutQueue/Counters.antt =====
-- The counters and the bound.
use panofabric_engine.Prelude.{
  ℕ, ◌+◌, ◌≤◌, ◌<◌, ◌≡◌, Option, List, [], ◌∷◌, arith, length, length-append, Option-cases,
  List-cases, inl, inr, ap,
}
use panofabric_engine.RolloutQueue.{RolloutQueueServer, Request, push, pop, init, handle, serve}

-- Every accepted batch is popped or still there, and a bounded queue is within its bound.
pub record IsConsistent {Batch : Type 0} (s : RolloutQueueServer Batch) : Type 0 where
  pub balanced : s.num_received ≡ s.num_popped + length s.queue
  pub bounded : 0 < s.maxsize → length s.queue ≤ s.maxsize

module _ {Batch Body : Type 0} (loads : Body → Option Batch) (dumps : Batch → Body) where
  handle-IsConsistent :
      (s : RolloutQueueServer Batch) (r : Request Body)
      → IsConsistent s
      → IsConsistent (handle loads dumps s r).0
  unfolding handle
  handle-IsConsistent s (push b) h = elim (Option-cases (loads b)) [
    | inl e ↦ record { balanced = ground arith; bounded = ground arith }
    | inr (batch, e) ↦ record {
      balanced = ground (arith, length-append s.queue (batch ∷ []));
      bounded = ground (arith, length-append s.queue (batch ∷ []));
    }
  ]
  handle-IsConsistent s pop h = elim (List-cases s.queue) [
    | inl e ↦ ground arith
    | inr (batch, rest, e) ↦ ground (arith, ap length e)
  ]

  serve-IsConsistent :
      (s : RolloutQueueServer Batch) (rs : List (Request Body))
      → IsConsistent s
      → IsConsistent (serve loads dumps s rs).0
  unfolding serve
  serve-IsConsistent s [] h = h
  serve-IsConsistent s (r ∷ rs) h =
      serve-IsConsistent (handle loads dumps s r).0 rs (handle-IsConsistent s r h)

  -- After any requests to a fresh queue, the batches received are those popped and those queued,
  -- and a queue with a bound holds at most that many.
  pub serve-init-IsConsistent :
      (maxsize : ℕ) (rs : List (Request Body))
      → IsConsistent (serve loads dumps (init maxsize) rs).0
  unfolding init
  serve-init-IsConsistent maxsize rs =
      serve-IsConsistent (init maxsize) rs
        (record { balanced = omega arith; bounded = λ _. omega arith })
