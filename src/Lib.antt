-- ===== src/Lib.antt =====
-- A model of the panofabric engine's decentralized training server and of the small servers
-- beside it, with the theorems that make them correct.
--
-- The program. Islands of workers train a model with an inner optimizer and now and then exchange
-- pseudo-gradients with one parameter server over HTTP (panoengine/decentralized/async_diloco.py). The
-- server commits each push as one step of an outer optimizer, for the whole model or for one of P
-- fragments of its parameters, and answers with a snapshot of the new parameters. Its subclass HeLoCo
-- (heloco.py) corrects a push against the momentum first and sends a look-ahead snapshot, island by
-- island. parameter_server.py decides which options make a server. For reinforcement learning, a
-- trained model goes to the generators in checksummed shards through relay nodes (relay.py), and their
-- rollouts come back through a bounded queue (rollout_queue.py). Served models are reached through a
-- gateway (panoengine/serve/gateway.py) that forwards each request to the least
-- busy healthy replica; a large one is cut into pipeline stages by layers (sharder.py).
--
-- The parts. Paths of the source are under panoengine/decentralized.
--   Diloco/Fragments    async_diloco.py: `_fragment_bounds`, and the slices of names and sizes.
--   Diloco/Server       async_diloco.py: the model state of `AsyncDiLoCoServer` (parameters, outer
--                       optimizer, revision, snapshot cache); `_commit_step_locked`, `_apply_one`,
--                       `_frag_snapshot_locked`, `_snapshot_flat`. What a subclass overrides is the
--                       record `Hooks`, and what the server relies on is `IsLocal`.
--   Diloco/Dylu         async_diloco.py: the speed pool and the recommended number of local steps.
--   Diloco/Sync         async_diloco.py: `do_POST` with `_handle_sync` on the asynchronous path, the
--                       encodings of a reply, and the ring `_served` behind delta downloads.
--   Diloco/Rounds       async_diloco.py: `_GraceBatch`, the grace window, the synchronous round and
--                       their processor; threads are steps of a relation.
--   Diloco/Optim        `DelayedNesterovOptimizer` (async_diloco.py), `HeLoCoOptimizer` (heloco.py).
--   Diloco/Heloco       heloco.py: corrections, look-ahead, which island gets which; it and the base
--                       class are instances of `Hooks`.
--   Diloco/Checkpoint   async_diloco.py: `save_checkpoint`, `_load_checkpoint`, `_maybe_checkpoint`, and
--                       the restart in the constructor.
--   Diloco/Mla          mla.py: `MLAOptimizer` and its server.
--   Diloco/Registry     async_diloco.py: heartbeats, `/done`, the monitor and the counts of workers.
--   Diloco/Wire         async_diloco.py: `_read_exact_into`, over the stream's `readinto`.
--   Diloco/Build        parameter_server.py: `build_server` and the constructors' checks.
--   Worker              async_diloco.py: `AsyncDiLoCo` as one process: its state and encodings.
--   Worker/Session      `_session_roundtrip`; Worker/Adopt `_adopt_global`, `_adopt_fragment`,
--                       `_apply_dylu`; Worker/Boundary `_step_post_hook` and all that it calls.
--   Worker/Replica      `_sync_replica`, `_resync_replica`, `_adopt_replica`: the worker over several ranks.
--   Worker/Exchange     the worker at the server of Diloco/Sync, body by body.
--   Relay/Sharding      relay.py: `shard_state_dict` ... `reassemble_state_dict`.
--   Relay/Store         relay.py: `RelayServer` and its handlers.
--   Relay/Client        relay.py: `RelayClient`, over those handlers.
--   RolloutQueue        rollout_queue.py: the queue server and its two clients.
--   Gateway             panoengine/serve/gateway.py: routing, in-flight counts and health.
--   Sharder             panoengine/serve/sharder.py: `plan_ranges`.
--   Prelude             Boolean tests, lists over the native numbers, stable sorting, extreme
--                       positions, Python's dict, cells, exceptions as values.
--   Tests               samples, and each property at one of them.
--
-- How it is modelled. State is a record and each operation a function from state to state; a raised
-- exception is an `err`. A tensor is the list of its elements in the wire's order. Scalars and the
-- arithmetic on them are a parameter (`Torch`): but for two theorems, which say so, none uses
-- a law of floating-point numbers. Worker
-- speeds and times are natural numbers. `torch.save`, `torch.load`, SHA-256 and `pickle` are
-- parameters; where a theorem needs that loading inverts saving, it says so. Each function is one
-- critical section of the source or a sequence of them that one lock covers, unless its file says
-- otherwise. Loops recurse on a list or on a number, without fuel, but for
-- the inner `while` of `plan_ranges`, whose fuel is the number of layers, at least the one pass that it
-- takes, and for `read_loop`, whose fuel is the number of bytes, of which each pass reads at least one, and for
-- `fetch_loop`, whose fuel is the number of relays, of which each pass takes one out.
--
-- Not modelled: the layout of a body and of a reply, sockets and HTTP framing, the session slots, the
-- waits of the cohort gate, saves that overlap, the fragments of a worker of several ranks and the
-- words that choose its branch, the heatmap log of HeLoCo, the launcher, the pipeline's engines, the
-- reinforcement-learning controllers and the models.
pub mod Prelude
pub mod Diloco
pub mod RolloutQueue
pub mod Relay
pub mod Gateway
pub mod Sharder
pub mod Worker
pub mod Tests
