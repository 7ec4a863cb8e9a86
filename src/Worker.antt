-- ===== src/Worker.antt =====
-- The worker of async_diloco.py, `AsyncDiLoCo`, as one process: its state, one request with its
-- retries, and what an answer installs. A server is a function of its state and a request. Encodings of
-- numbers are parameters.
pub mod Session
pub mod Adopt
pub mod Boundary
pub mod Pace
pub mod Blending
pub mod Recovery
pub mod Exchange
pub mod Replica
use panofabric_engine.Prelude.{
  ℕ, zero, suc, ◌+◌, ◌-◌, ◌*◌, ◌/◌, ◌≡◌, String, Bool, true, false, Option, none, some, List, [],
  ◌∷◌, ◌++◌, map, leb, ltb, max, min, ◌==◌, ◌&&◌, if◌then◌else◌, string_eq, length, get_or, take,
  drop, concat, sum,
}
use panofabric_engine.Prelude.Result.{Result, ok, err, Error, value_error, io_error}
use panofabric_engine.Prelude.Dict.{Dict, lookup, insert}
use panofabric_engine.Diloco.Fragments.{Range, slice}
use panofabric_engine.Diloco.Server.{Params, Island}
use panofabric_engine.Diloco.Sync.{WireDtype, float32, bfloat16, int8, Header, Reply}
use panofabric_engine.Diloco.Optim.{Torch, add_tensor, sub_tensor}

-- The encodings: blockwise int8, by the sizes of the blocks, and bf16.
pub record Wire (F Q B : Type 0) : Type 0 where
  pub quantize : List F → List ℕ → Q
  pub dequantize : Q → List ℕ → List F
  pub to_bf16 : List F → B
  pub from_bf16 : B → List F

-- The bytes behind a header.
pub data Body (F Q B : Type 0) : Type 0 where
  no_bytes : Body F Q B
  f32_bytes : List F → Body F Q B
  bf16_bytes : B → Body F Q B
  int8_bytes : Q → Body F Q B

-- A reply with its header's other fields: the number of elements, whether it names a dtype, and the
-- revision of the baseline where the dtype is `delta_int8`.
pub record Response (F Q B : Type 0) : Type 0 where
  pub reply : Reply
  pub numel : ℕ
  pub names_dtype : Bool
  pub delta_from : ℕ
  pub body : Body F Q B

-- What a POST comes to: 503, another error, or a reply.
pub data Posted (F Q B : Type 0) : Type 0 where
  busy : Posted F Q B
  refused : Error → Posted F Q B
  answered : Response F Q B → Posted F Q B

-- What `_session_roundtrip` returns.
pub record Answer (F : Type 0) : Type 0 where
  pub flat_params : List F
  pub new_steps : ℕ
  pub revision : ℕ
  pub applied : Bool

-- `_InflightPush`: the request of the thread, and its result or error once it has ended.
pub record InflightPush (F : Type 0) : Type 0 where
  pub fragment : ℕ
  pub speed : ℕ
  pub flat_grads : List F
  pub outcome : Option (Result (Answer F))

-- The state of `AsyncDiLoCo`. The first group is set by the constructor for good; `blends` is whether
-- `fragment_update_alpha` is above 0, and `on_cpu` whether the model is on the CPU.
pub record Worker (F : Type 0) : Type 0 where
  pub param_names : List String
  pub param_numels : List ℕ
  pub frag_bounds : List Range
  pub num_fragments : ℕ
  pub island_id : Island
  pub wire_bf16 : Bool
  pub quantizes : Bool
  pub blends : Bool
  pub on_cpu : Bool
  pub reset_inner_state : Bool
  pub busy_retries : ℕ
  pub delta_refresh_every : ℕ
  pub resync_backoff_max : ℕ
  pub model : Params F
  pub inner_state : Params F
  pub global_params : Params F
  pub baseline_revision : ℕ
  pub have_baseline : Bool
  pub server_bf16 : Bool
  pub deltas_since_full : ℕ
  pub sync_every : ℕ
  pub local_step : ℕ
  pub window_start : ℕ
  pub frag_idx : ℕ
  pub inflight : Option (InflightPush F)
  pub pending_resync : Bool
  pub resync_at : ℕ
  pub resync_backoff : ℕ
  pub skip_speed_report : Bool

module _ {F : Type 0} where
  -- `d[name]`; the worker's dictionaries have every name.
  abbrev pub or_empty : Option (List F) → List F
  or_empty none = []
  or_empty (some v) = v

  abbrev pub value : Params F → String → List F
  value d name = or_empty (lookup name d)

  abbrev pub names_of : Worker F → Option ℕ → List String
  names_of w none = w.param_names
  names_of w (some f) = slice w.param_names (get_or w.frag_bounds f (0, 0))

  abbrev pub numels_of : Worker F → Option ℕ → List ℕ
  numels_of w none = w.param_numels
  numels_of w (some f) = slice w.param_numels (get_or w.frag_bounds f (0, 0))

  -- `_baseline_flat`
  unfoldable pub baseline_flat : Worker F → List F
  unfolding lookup
  baseline_flat w = concat (map (value w.global_params) w.param_names)

  abbrev pub offers_delta : Worker F → Option ℕ → Bool
  offers_delta w (some f) = false
  offers_delta w none =
      w.wire_bf16
      && w.have_baseline
      && w.num_fragments == 1
      && ltb w.deltas_since_full w.delta_refresh_every

  abbrev pub upload_dtype : Worker F → WireDtype
  upload_dtype w = if w.quantizes then int8 else if w.server_bf16 then bfloat16 else float32
