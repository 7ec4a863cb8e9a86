-- ===== src/Tests/Queueing.antt =====
-- A queue of one place; a body is a batch as it is.
use panofabric_engine.Prelude.{ℕ, ◌≡◌, refl, Option, some, List, [], ◌∷◌, ◌++◌}
use panofabric_engine.RolloutQueue.{RolloutQueueServer, Request, push, pop, serve}
use panofabric_engine.RolloutQueue.Fifo.{accepted, popped, serve-fifo}

abbrev loads : ℕ → Option ℕ
loads n = some n

abbrev dumps : ℕ → ℕ
dumps n = n

abbrev one_place : RolloutQueueServer ℕ
one_place = record {
  queue = 5 ∷ [];
  maxsize = 1;
  num_received = 1;
  num_rejected = 0;
  num_popped = 0;
}

abbrev requests : List (Request ℕ)
requests = push 6 ∷ pop ∷ push 7 ∷ pop ∷ pop ∷ []

serve-fifo_example :
    (5 ∷ []) ++ accepted loads dumps (serve loads dumps one_place requests).1
    ≡ popped loads dumps (serve loads dumps one_place requests).1
      ++ (serve loads dumps one_place requests).0.queue
serve-fifo_example = serve-fifo loads dumps (λ b. refl) one_place requests
