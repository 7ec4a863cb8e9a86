-- ===== src/RolloutQueue.antt =====
-- panoengine/decentralized/rollout_queue.py: the bounded queue between generator workers and
-- trainers, its two handlers, and the push and pop clients. `pickle` is a parameter: `loads` is
-- `none` where it raises one of the errors that the handler catches.
pub mod Fifo
pub mod Counters
pub mod Clients
use panofabric_engine.Prelude.{
  ℕ, suc, ◌+◌, Bool, true, false, Option, none, some, List, [], ◌∷◌, ◌++◌, leb, ◌==◌, if◌then◌else◌,
  length,
}

-- `version` and `worker_id` ride in the batch; the queue never looks into one.
pub record RolloutQueueServer (Batch : Type 0) : Type 0 where
  pub queue : List Batch
  pub maxsize : ℕ
  pub num_received : ℕ
  pub num_rejected : ℕ
  pub num_popped : ℕ

pub record Response (Body : Type 0) : Type 0 where
  pub status : ℕ
  pub body : Option Body

abbrev pub respond : {Body : Type 0} → ℕ → Response Body
respond code = record { status = code; body = none }

pub data Request (Body : Type 0) : Type 0 where
  push : Body → Request Body
  pop : Request Body

module _ {Batch : Type 0} where
  pub init : ℕ → RolloutQueueServer Batch
  init maxsize = record {
    queue = [];
    maxsize = maxsize;
    num_received = 0;
    num_rejected = 0;
    num_popped = 0;
  }

  -- `asyncio.Queue.full`: a bound of 0 is no bound.
  abbrev pub full : RolloutQueueServer Batch → Bool
  full s = if s.maxsize == 0 then false else leb s.maxsize (length s.queue)

  -- `put_nowait`; `none` is QueueFull.
  pub put_nowait : RolloutQueueServer Batch → Batch → Option (RolloutQueueServer Batch)
  put_nowait s batch = if full s then none else some (record s { queue = s.queue ++ batch ∷ [] })

  -- `get_nowait`; `none` is QueueEmpty.
  get_nowait_from :
      RolloutQueueServer Batch → List Batch → Option (Batch × RolloutQueueServer Batch)
  get_nowait_from s [] = none
  get_nowait_from s (batch ∷ rest) = some (batch, record s { queue = rest })

  pub get_nowait : RolloutQueueServer Batch → Option (Batch × RolloutQueueServer Batch)
  unfolding get_nowait_from
  get_nowait s = get_nowait_from s s.queue

module _ {Batch Body : Type 0} (loads : Body → Option Batch) (dumps : Batch → Body) where
  handle_push : RolloutQueueServer Batch → Body → RolloutQueueServer Batch × Response Body
  unfolding put_nowait
  handle_push s data_read = elim (loads data_read) [
    | none ↦ (s, respond 400)
    | some batch ↦ elim (put_nowait s batch) [
      | none ↦ (record s { num_rejected = s.num_rejected + 1 }, respond 503)
      | some s' ↦ (record s' { num_received = s'.num_received + 1 }, respond 204)
    ]
  ]

  handle_pop : RolloutQueueServer Batch → RolloutQueueServer Batch × Response Body
  unfolding get_nowait
  handle_pop s = elim (get_nowait s) [
    | none ↦ (s, respond 204)
    | some (batch, s') ↦ (
      record s' { num_popped = s'.num_popped + 1 },
      record { status = 200; body = some (dumps batch) },
    )
  ]

  -- One event-loop turn: no handler awaits between its reads and its writes.
  pub handle : RolloutQueueServer Batch → Request Body → RolloutQueueServer Batch × Response Body
  unfolding handle_push handle_pop
  handle s (push data_read) = handle_push s data_read
  handle s pop = handle_pop s

  -- The requests in the order in which the event loop takes them, with their responses.
  pub serve :
      RolloutQueueServer Batch
      → List (Request Body)
      → RolloutQueueServer Batch × List (Request Body × Response Body)
  serve s [] = (s, [])
  serve s (r ∷ rs) =
      let (s', response) = handle s r in let (s'', log) = serve s' rs in (s'', (r, response) ∷ log)

  -- `RolloutQueuePushClient.send`; `exchange` is `none` on a transport failure.
  pub send : (Request Body → Option (Response Body)) → Batch → Bool
  send exchange batch = elim (exchange (push (dumps batch))) [
    | none ↦ false
    | some resp ↦ if resp.status == 204 then true else false
  ]

  -- `RolloutQueuePopClient.pop`
  pub pop_client : (Request Body → Option (Response Body)) → Option Batch
  pop_client exchange = elim (exchange pop) [
    | none ↦ none
    | some resp ↦
        if resp.status == 204
        then none
        else if resp.status == 200
        then (elim resp.body [ none ↦ none | some b ↦ loads b ])
        else none
  ]
