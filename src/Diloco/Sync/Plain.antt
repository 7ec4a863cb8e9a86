-- ===== src/Diloco/Sync/Plain.antt =====
-- A whole-model push on the fp32 wire: it passes the checks, and the reply is the whole buffer.
use panofabric_engine.Prelude.{ℕ, ◌≡◌, ap, ◌∙◌, true, false, none, List, if◌then◌else◌, arith}
use panofabric_engine.Prelude.Result.{Result, ok, ◌>>◌}
use panofabric_engine.Diloco.Server.{Hooks, Params}
use panofabric_engine.Diloco.Sync.{
  Header, Layout, Payload, full_f32, SyncServer, float32, check_push, handle_sync, reply_payload,
  remember, do_post,
}

-- What such a header says.
pub record IsPlain (l : Layout) (hd : Header) : Type 0 where
  pub push : hd.flag ≡ true
  pub whole : hd.fragment ≡ none
  pub plain : hd.dtype ≡ float32
  pub no_delta : hd.accept_delta ≡ false
  pub no_bf16 : hd.accept_bf16 ≡ false
  pub one : l.num_fragments ≡ 1
  pub size : hd.numel ≡ l.total_numel

check_push-IsPlain : (l : Layout) (hd : Header) → IsPlain l hd → check_push l hd ≡ ok tt
unfolding check_push
check_push-IsPlain l hd p = ground arith

module _ {F Opt : Type 0} (h : Hooks F Opt) where
  reply_payload-IsPlain :
      (l : Layout) (s : SyncServer F Opt) (hd : Header) (flat : List F)
      → IsPlain l hd
      → reply_payload h s hd flat ≡ full_f32 flat
  unfolding reply_payload
  reply_payload-IsPlain l s hd flat p = ground arith

  pub do_post-IsPlain :
      (l : Layout) (s : SyncServer F Opt) (now : ℕ) (hd : Header) (grads : Params F)
      → IsPlain l hd
      → (let r = handle_sync h s now hd grads in
          do_post h l s now hd grads ≡ ok (r.0, full_f32 r.1, remember h r.2 hd r.0.revision r.1))
  unfolding do_post
  do_post-IsPlain l s now hd grads p =
      let r = handle_sync h s now hd grads in
      let gate : (if hd.flag then check_push l hd else ok tt) ≡ ok tt =
        ground (arith, check_push-IsPlain l hd p) in
      ap
        (λ (c : Result (Unit {0})).
          c >> ok (r.0, reply_payload h r.2 hd r.1, remember h r.2 hd r.0.revision r.1))
        gate
      ∙ ap (λ (b : Payload F). ok (r.0, b, remember h r.2 hd r.0.revision r.1))
          (reply_payload-IsPlain l r.2 hd r.1 p)
