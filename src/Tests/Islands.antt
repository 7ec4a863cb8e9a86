-- ===== src/Tests/Islands.antt =====
-- A worker at the sample server, and workers of two fragments.
use panofabric_engine.Prelude.{
  ℕ, ◌+◌, ◌/◌, ◌≡◌, refl, true, false, none, some, List, [], ◌∷◌, ◌++◌, arith, string_eq,
}
use panofabric_engine.Prelude.Result.{Result, ok, io_error}
use panofabric_engine.Prelude.Dict.{contains, lookup}
use panofabric_engine.Diloco.Server.{built_flat, apply_one}
use panofabric_engine.Diloco.Sync.{Header}
use panofabric_engine.Diloco.Heloco.{diloco_hooks}
use panofabric_engine.Diloco.Heloco.Local.{diloco_hooks-IsLocal}
use panofabric_engine.Diloco.Optim.{sub_tensor}
use panofabric_engine.Worker.{Wire, Body, f32_bytes, Posted, busy, refused, Answer, Worker}
use panofabric_engine.Worker.Session.{post_loop, session_roundtrip}
use panofabric_engine.Worker.Adopt.{chunks, adopt_global, adopt_fragment}
use panofabric_engine.Worker.Boundary.{kept_local, sync, boundary, step_post_hook}
use panofabric_engine.Worker.Blending.{adopt_global-blend, adopt_fragment-lookup}
use panofabric_engine.Worker.Exchange.{post_gated}
use panofabric_engine.Worker.Exchange.Retries.{post_loop-busy}
use panofabric_engine.Worker.Exchange.Whole.{joined}
use panofabric_engine.Worker.Exchange.Whole.Commits.{sync-commits}
use panofabric_engine.Worker.Pace.Steps.{WorkerRun, here, next, hooks, IsTimed, WorkerRun-IsTimed}
use panofabric_engine.Worker.Recovery.{IsWaiting, boundary-err}
use panofabric_engine.Tests.Samples.{
  torch, nesterov, fresh_nesterov, weights, model-IsSound, diloco, server, layout, push_header,
}

abbrev pub wire : Wire ℕ (List ℕ) (List ℕ)
wire = record {
  quantize = λ xs ns. xs;
  dequantize = λ q ns. q;
  to_bf16 = λ xs. xs;
  from_bf16 = λ b. b;
}

abbrev lerp : List ℕ → List ℕ → List ℕ
lerp xs ys = xs ++ ys

abbrev pub per : ℕ → ℕ → ℕ
per n d = n / d

abbrev pub worker : Worker ℕ
worker = record {
  param_names = "a" ∷ "b" ∷ [];
  param_numels = 1 ∷ 2 ∷ [];
  frag_bounds = (0, 2) ∷ [];
  num_fragments = 1;
  island_id = some 1;
  wire_bf16 = false;
  quantizes = false;
  blends = false;
  on_cpu = true;
  reset_inner_state = false;
  busy_retries = 10;
  delta_refresh_every = 8;
  resync_backoff_max = 60;
  model = ("a", 3 ∷ []) ∷ ("b", 3 ∷ 3 ∷ []) ∷ [];
  inner_state = [];
  global_params = weights;
  baseline_revision = 3;
  have_baseline = true;
  server_bf16 = false;
  deltas_since_full = 0;
  sync_every = 2;
  local_step = 1;
  window_start = 5;
  frag_idx = 0;
  inflight = none;
  pending_resync = false;
  resync_at = 0;
  resync_backoff = 1;
  skip_speed_report = false;
}

sync-commits_example :
    (sync torch wire lerp per
      (post_gated diloco torch wire layout 7)
      (joined diloco torch wire lerp per layout 7 worker server.model)
      (4, server)
      9).0.baseline_revision
    ≡ 4
unfolding diloco_hooks sub_tensor built_flat apply_one
sync-commits_example =
    (sync-commits diloco (diloco_hooks-IsLocal torch nesterov) torch wire lerp per layout 7 worker
      server 4 9 refl refl refl (model-IsSound fresh_nesterov diloco) (omega arith) (omega arith)
      refl refl).2

post_loop-busy_example :
    post_loop torch wire
      (post_gated diloco torch wire layout 7)
      10
      (11, server)
      push_header
      (f32_bytes (2 ∷ 4 ∷ 6 ∷ []))
    ≡ (busy, (0, server))
post_loop-busy_example =
    post_loop-busy diloco torch wire layout 7 10 11 server push_header (f32_bytes (2 ∷ 4 ∷ 6 ∷ []))

-- A server that cannot be reached.
abbrev unreachable : ℕ → Header → Body ℕ (List ℕ) (List ℕ) → Posted ℕ (List ℕ) (List ℕ) × ℕ
unreachable n hd body = (refused io_error, n + 1)

abbrev after_pull : Worker ℕ
after_pull = record worker { pending_resync = true; resync_at = 8; resync_backoff = 40 }

boundary-err_example :
    IsWaiting torch wire lerp per unreachable after_pull 49 60
      (boundary torch wire lerp per unreachable after_pull 0 9).0
unfolding session_roundtrip
boundary-err_example =
    boundary-err torch wire lerp per unreachable after_pull 0 9 io_error refl (λ _. omega arith)
      refl

worker-IsTimed : IsTimed torch wire lerp per unreachable worker
worker-IsTimed = (
  record {
    fragments = omega arith;
    turn = omega arith;
    cycle = (2, omega arith, refl);
    idle = λ e. refl;
    whole = λ e. refl;
    before = λ i e. cc;
    backoff = omega arith;
  },
  omega arith,
)

abbrev hooked : Worker ℕ × Result (Unit {0}) × ℕ
hooked = step_post_hook torch wire lerp per unreachable worker 0 9 (ok tt)

a_run : WorkerRun torch wire lerp per unreachable worker 0 hooked.0 hooked.2
unfolding step_post_hook
a_run = next here (hooks 9 refl)

WorkerRun-IsTimed_example : IsTimed torch wire lerp per unreachable hooked.0
WorkerRun-IsTimed_example = WorkerRun-IsTimed torch wire lerp per unreachable a_run worker-IsTimed

abbrev blending : Worker ℕ
blending = record worker { blends = true }

abbrev received : Answer ℕ
received = record { flat_params = 7 ∷ 8 ∷ 9 ∷ []; new_steps = 0; revision = 4; applied = true }

-- On the CPU the trained value 3 is not in the result.
adopt_global-blend_example :
    (lookup "a" (adopt_global lerp blending received (some (kept_local blending))).global_params
      ≡ some (7 ∷ []))
    × (lookup "a" (adopt_global lerp blending received (some (kept_local blending))).model
        ≡ some (7 ∷ 7 ∷ []))
unfolding contains lookup chunks
adopt_global-blend_example =
    adopt_global-blend lerp blending received "a" (3 ∷ []) (7 ∷ []) (refl, (refl, tt)) refl refl
      refl

adopt_fragment-lookup_example :
    (lookup "b" (adopt_fragment lerp blending 0 received).global_params ≡ some (8 ∷ 9 ∷ []))
    × (lookup "b" (adopt_fragment lerp blending 0 received).model ≡ some (8 ∷ 9 ∷ 3 ∷ 3 ∷ []))
unfolding contains lookup chunks
adopt_fragment-lookup_example =
    adopt_fragment-lookup lerp blending 0 received "b" (refl, (refl, tt)) refl
