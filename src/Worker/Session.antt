-- ===== src/Worker/Session.antt =====
-- `_session_roundtrip`: one request, sent again while the server is busy, and the reading of its reply.
-- The metrics of an exchange are left out.
use panofabric_engine.Prelude.{
  ℕ, zero, suc, Bool, Option, none, some, List, ◌==◌, ◌&&◌, if◌then◌else◌, length, sum, ◌+◌,
}
use panofabric_engine.Prelude.Result.{Result, ok, err, value_error, io_error}
use panofabric_engine.Diloco.Sync.{float32, Header}
use panofabric_engine.Diloco.Optim.{Torch, add_tensor}
use panofabric_engine.Worker.{
  Wire, Body, no_bytes, f32_bytes, bf16_bytes, int8_bytes, Response, Posted, busy, refused,
  answered, Answer, Worker, numels_of, baseline_flat, offers_delta, upload_dtype,
}

module _ {F Q B : Type 0} (t : Torch F) (wire : Wire F Q B) where
  -- The header; a pull has no size and no dtype, which the server does not ask for.
  unfoldable pub make_header : Worker F → Bool → ℕ → Option (List F) → Option ℕ → Header
  make_header w flag speed flat_grads fragment = record {
    flag = flag;
    dtype = elim flat_grads [ none ↦ float32 | some _ ↦ upload_dtype w ];
    numel = elim flat_grads [ none ↦ 0 | some g ↦ length g ];
    fragment = elim flat_grads [ none ↦ none | some _ ↦ fragment ];
    client_fragments = elim fragment [ none ↦ 0 | some _ ↦ w.num_fragments ];
    speed = speed;
    baseline_revision = w.baseline_revision;
    island_id = w.island_id;
    accept_delta = offers_delta w fragment;
    accept_bf16 = w.wire_bf16;
  }

  unfoldable pub make_body : Worker F → Option (List F) → Option ℕ → Body F Q B
  make_body w none fragment = no_bytes
  make_body w (some g) fragment =
      if w.quantizes
      then int8_bytes (wire.quantize g (numels_of w fragment))
      else if w.server_bf16
      then bf16_bytes (wire.to_bf16 g)
      else f32_bytes g

  -- The flat parameters behind a reply, and how many deltas have come in a row then.
  unfoldable pub read_body : Worker F → Response F Q B → Body F Q B → Result (List F × ℕ)
  unfolding baseline_flat add_tensor
  read_body w r no_bytes = err io_error
  read_body w r (f32_bytes flat) = ok (flat, 0)
  read_body w r (bf16_bytes b) = ok (wire.from_bf16 b, 0)
  read_body w r (int8_bytes q) =
      if r.delta_from == w.baseline_revision
      then ok (
        add_tensor t (baseline_flat w) (wire.dequantize q w.param_numels),
        w.deltas_since_full + 1,
      )
      else err value_error

  abbrev pub with_answer :
      Worker F → Response F Q B → Result (List F × ℕ) → Worker F × Result (Answer F)
  with_answer w r (err e) = (w, err e)
  with_answer w r (ok (flat, deltas)) = (
    record w { deltas_since_full = deltas },
    ok (record {
      flat_params = flat;
      new_steps = r.reply.new_steps;
      revision = r.reply.revision;
      applied = r.reply.applied;
    }),
  )

  -- The dtype that a reply names is remembered before its body is read.
  unfoldable pub read_response : Worker F → Option ℕ → Response F Q B → Worker F × Result (Answer F)
  unfolding read_body
  read_response w fragment r =
      if r.numel == sum (numels_of w fragment)
      then (let w' = record w { server_bf16 = w.wire_bf16 && r.names_dtype } in
          with_answer w' r (read_body w' r r.body))
      else (w, err value_error)

  -- An HTTPError or an URLError is an OSError.
  unfoldable pub receive : Worker F → Option ℕ → Posted F Q B → Worker F × Result (Answer F)
  unfolding read_response
  receive w fragment busy = (w, err io_error)
  receive w fragment (refused e) = (w, err e)
  receive w fragment (answered r) = read_response w fragment r

  module _ {S : Type 0} (post : S → Header → Body F Q B → Posted F Q B × S) where
    -- The end of one attempt: the result, or the attempts after it.
    abbrev pub unless_busy : Posted F Q B × S → Posted F Q B × S → Posted F Q B × S
    unless_busy (busy, s) later = later
    unless_busy (refused e, s) later = (refused e, s)
    unless_busy (answered r, s) later = (answered r, s)

    -- `for attempt in range(busy_retries + 1)`, by the retries left.
    unfoldable pub post_loop : ℕ → S → Header → Body F Q B → Posted F Q B × S
    post_loop zero s header payload = post s header payload
    post_loop (suc retries) s header payload =
        let r = post s header payload in unless_busy r (post_loop retries r.1 header payload)

    unfoldable pub session_roundtrip :
        Worker F → S → Bool → ℕ → Option (List F) → Option ℕ → Worker F × Result (Answer F) × S
    unfolding make_header make_body post_loop receive
    session_roundtrip w s flag speed flat_grads fragment =
        let (posted, s') =
          post_loop w.busy_retries s (make_header w flag speed flat_grads fragment)
            (make_body w flat_grads fragment) in
        let (w', result) = receive w fragment posted in (w', result, s')
