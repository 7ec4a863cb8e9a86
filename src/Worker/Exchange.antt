-- ===== src/Worker/Exchange.antt =====
-- A worker at a server: the body of a push becomes gradients by name (`_unflatten`,
-- `_stream_body_into_bufs`), and the reply of `do_POST` a response. The server of a run may have all its
-- session slots taken at first, by a number of further attempts.
pub mod Retries
pub mod Whole
use panofabric_engine.Prelude.{
  ℕ, zero, suc, ◌+◌, ◌-◌, ◌≡◌, String, Bool, true, false, Option, none, some, List, [], ◌∷◌, map,
  if◌then◌else◌, length, string_eq,
}
use panofabric_engine.Prelude.Result.{Result, ok, err, io_error, ◌>>=◌}
use panofabric_engine.Prelude.Dict.{lookup}
use panofabric_engine.Diloco.Server.{Hooks, Server, Params, frag_names}
use panofabric_engine.Diloco.Sync.{
  Header, Layout, Reply, Payload, delta, full_bf16, full_f32, SyncServer, do_post,
}
use panofabric_engine.Diloco.Optim.{Torch, sub_tensor}
use panofabric_engine.Worker.{
  Wire, Body, no_bytes, f32_bytes, bf16_bytes, int8_bytes, Response, Posted, busy, refused,
  answered, value,
}
use panofabric_engine.Worker.Adopt.{chunks}

module _ {F Opt Q B : Type 0} (h : Hooks F Opt) (t : Torch F) (wire : Wire F Q B) where
  -- `p.numel()` of some parameters.
  abbrev pub sizes : Server F Opt → List String → List ℕ
  sizes m names = map (λ name. length (value m.params name)) names

  -- A pull has no body; the dtype of a worker's header is that of its body.
  unfoldable pub decode_push : Server F Opt → Header → Body F Q B → Result (Params F)
  unfolding chunks frag_names lookup
  decode_push m hd no_bytes = if hd.flag then err io_error else ok []
  decode_push m hd (f32_bytes flat) =
      let names = frag_names m hd.fragment in ok (chunks names (sizes m names) flat)
  decode_push m hd (bf16_bytes b) =
      let names = frag_names m hd.fragment in ok (chunks names (sizes m names) (wire.from_bf16 b))
  decode_push m hd (int8_bytes q) =
      let names = frag_names m hd.fragment in
      ok (chunks names (sizes m names) (wire.dequantize q (sizes m names)))

  unfoldable pub encode_reply : Server F Opt → Reply → Payload F → Response F Q B
  unfolding sub_tensor lookup
  encode_reply m reply (delta base_rev base flat) = record {
    reply = reply;
    numel = length flat;
    names_dtype = true;
    delta_from = base_rev;
    body = int8_bytes (wire.quantize (sub_tensor t flat base) (sizes m m.param_names));
  }
  encode_reply m reply (full_bf16 flat) = record {
    reply = reply;
    numel = length flat;
    names_dtype = true;
    delta_from = 0;
    body = bf16_bytes (wire.to_bf16 flat);
  }
  encode_reply m reply (full_f32 flat) = record {
    reply = reply;
    numel = length flat;
    names_dtype = true;
    delta_from = 0;
    body = f32_bytes flat;
  }

  module _ (l : Layout) (now : ℕ) where
    -- An error is answered with 500, which urllib raises.
    abbrev pub replied :
        SyncServer F Opt
        → Result (Reply × Payload F × SyncServer F Opt)
        → Posted F Q B × SyncServer F Opt
    replied s (err e) = (refused io_error, s)
    replied s (ok (reply, payload, s')) = (answered (encode_reply s'.model reply payload), s')

    unfoldable pub post_sync :
        SyncServer F Opt → Header → Body F Q B → Posted F Q B × SyncServer F Opt
    unfolding decode_push do_post encode_reply
    post_sync s hd body = replied s (decode_push s.model hd body >>= do_post h l s now hd)

    -- With that many attempts answered by 503 first.
    unfoldable pub post_gated :
        ℕ × SyncServer F Opt → Header → Body F Q B → Posted F Q B × (ℕ × SyncServer F Opt)
    unfolding post_sync
    post_gated (suc n, s) hd body = (busy, (n, s))
    post_gated (zero, s) hd body = let (posted, s') = post_sync s hd body in (posted, (zero, s'))
