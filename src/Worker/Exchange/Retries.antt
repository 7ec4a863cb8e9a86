-- ===== src/Worker/Exchange/Retries.antt =====
-- A busy server costs attempts, not pushes.
use panofabric_engine.Prelude.{
  Bool-cases, inl, inr, leb, leb→le, if◌then◌else◌, ℕ, zero, suc, ◌-◌, ◌≤◌, ◌<◌, ◌≡◌, refl, ap, ◌∙◌,
  arith,
}
use panofabric_engine.Prelude.Result.{Result, ok, err}
use panofabric_engine.Diloco.Server.{Hooks}
use panofabric_engine.Diloco.Sync.{Header, Layout, Reply, Payload, SyncServer}
use panofabric_engine.Diloco.Optim.{Torch}
use panofabric_engine.Worker.{Wire, Body, Posted, busy}
use panofabric_engine.Worker.Session.{unless_busy, post_loop}
use panofabric_engine.Worker.Exchange.{replied, post_sync, post_gated}

module _ {F Opt Q B : Type 0} (h : Hooks F Opt) (t : Torch F) (wire : Wire F Q B) (l : Layout)
    (now : ℕ) where
  abbrev pub served_once : Posted F Q B × SyncServer F Opt → Posted F Q B × (ℕ × SyncServer F Opt)
  served_once (posted, s) = (posted, (0, s))

  -- The free server is not busy.
  replied-settles :
      (s : SyncServer F Opt) (r : Result (Reply × Payload F × SyncServer F Opt))
      (later : Posted F Q B × (ℕ × SyncServer F Opt))
      → unless_busy t wire
          (post_gated h t wire l now)
          (served_once (replied h t wire l now s r))
          later
        ≡ served_once (replied h t wire l now s r)
  replied-settles s (err e) later = refl
  replied-settles s (ok (reply, payload, s')) later = refl

  refused_after :
      (s : SyncServer F Opt) {a b : ℕ}
      → a ≡ b
      → ◌≡◌ {A = Posted F Q B × (ℕ × SyncServer F Opt)} (busy, (a, s)) (busy, (b, s))
  refused_after s e = ap (λ k. (busy, (k, s))) e

  pub post_loop-cases :
      (retries n : ℕ) (s : SyncServer F Opt) (hd : Header) (body : Body F Q B)
      → (n ≤ retries
          → post_loop t wire (post_gated h t wire l now) retries (n, s) hd body
            ≡ served_once (post_sync h t wire l now s hd body))
        × (retries < n
            → post_loop t wire (post_gated h t wire l now) retries (n, s) hd body
              ≡ (busy, (n - retries - 1, s)))
  unfolding post_loop post_gated post_sync
  post_loop-cases zero zero s hd body = (λ _. refl, λ e. absurd (omega arith))
  post_loop-cases zero (suc n) s hd body =
      (λ e. absurd (omega arith), λ _. refused_after s (omega arith))
  post_loop-cases (suc retries) zero s hd body =
      (λ _. replied-settles s _ _, λ e. absurd (omega arith))
  post_loop-cases (suc retries) (suc n) s hd body =
      let rest = post_loop-cases retries n s hd body in
      (λ e. rest.0 (omega arith), λ e. rest.1 (omega arith) ∙ refused_after s (omega arith))

  -- A push is handled once, however often it was sent: with at most `busy_retries` refusals the loop gives
  -- what one request to the free server gives. With more, every attempt is refused, and the server
  -- has seen nothing of it.
  pub post_loop-busy :
      (retries n : ℕ) (s : SyncServer F Opt) (hd : Header) (body : Body F Q B)
      → post_loop t wire (post_gated h t wire l now) retries (n, s) hd body ≡ (
          if leb n retries
          then served_once (post_sync h t wire l now s hd body)
          else (busy, (n - retries - 1, s)))
  post_loop-busy retries n s hd body =
      let cases = post_loop-cases retries n s hd body in
      elim (Bool-cases (leb n retries)) [
        | inl few ↦ rw few (cases.0 (leb→le n retries few))
        | inr many ↦ rw many (cases.1 (ground arith))
      ]
