-- ===== src/Worker/Replica/Lead.antt =====
-- The exchange of the lead: it does not read the model.
use panofabric_engine.Prelude.{
  ℕ, ◌≡◌, refl, ap, inl, inr, Bool, Option, List, ◌==◌, ◌&&◌, nat_eq, sum, Bool-cases,
}
use panofabric_engine.Prelude.Result.{Result, ok, err}
use panofabric_engine.Diloco.Server.{Params}
use panofabric_engine.Diloco.Sync.{Header}
use panofabric_engine.Diloco.Optim.{Torch}
use panofabric_engine.Worker.{
  Wire, Body, Posted, busy, refused, answered, Response, Worker, baseline_flat, numels_of,
}
use panofabric_engine.Worker.Session.{
  read_body, with_answer, read_response, receive, session_roundtrip, make_header, make_body,
  post_loop,
}

module _ {F Q B : Type 0} (t : Torch F) (wire : Wire F Q B) (m : Params F) where
  with_answer-model :
      (w : Worker F) (r : Response F Q B) (a : Result (List F × ℕ))
      → with_answer t wire (record w { model = m }) r a
        ≡ (record (with_answer t wire w r a).0 { model = m }, (with_answer t wire w r a).1)
  with_answer-model w r (err e) = refl
  with_answer-model w r (ok (flat, deltas)) = refl

  receive-model :
      (w : Worker F) (fragment : Option ℕ) (p : Posted F Q B)
      → receive t wire (record w { model = m }) fragment p
        ≡ (record (receive t wire w fragment p).0 { model = m }, (receive t wire w fragment p).1)
  unfolding receive read_response read_body baseline_flat
  receive-model w fragment busy = refl
  receive-model w fragment (refused e) = refl
  receive-model w fragment (answered r) =
      elim (Bool-cases (r.numel == sum (numels_of w fragment))) [
        | inl e ↦
            let w' = record w { server_bf16 = w.wire_bf16 && r.names_dtype } in
            rw e (with_answer-model w' r (read_body t wire w' r r.body))
        | inr e ↦ rw e refl
      ]

  module _ {S : Type 0} (post : S → Header → Body F Q B → Posted F Q B × S) where
    pub session_roundtrip-model :
        (w : Worker F) (s : S) (flag : Bool) (speed : ℕ) (g : Option (List F)) (fragment : Option ℕ)
        → session_roundtrip t wire post (record w { model = m }) s flag speed g fragment ≡ (
            let (w', r, s') = session_roundtrip t wire post w s flag speed g fragment in
            (record w' { model = m }, r, s'))
    unfolding session_roundtrip make_header make_body
    session_roundtrip-model w s flag speed g fragment =
        let (posted, s') =
          post_loop t wire post w.busy_retries s (make_header t wire w flag speed g fragment)
            (make_body t wire w g fragment) in
        ap (λ r. (r.0, r.1, s')) (receive-model w fragment posted)
