-- ===== src/Worker/Pace.antt =====
-- What holds of a worker's windows and of its pipeline between inner steps, whatever its server answers.
pub mod Parts
pub mod Steps
use native.Mathlib.Decide.{dec_lt}
use native.Mathlib.Nat.{mul-le-mul_right, mod-lt}
use panofabric_engine.Prelude.{
  ℕ, ◌+◌, ◌-◌, ◌*◌, ◌/◌, ◌%◌, ◌≤◌, ◌<◌, ◌≡◌, refl, sym, ap, subst, ◌∙◌, inl, inr, String, Bool,
  true, false, Option, none, some, List, [], ◌∷◌, ltb, ltb→lt, leb, ◌==◌, ◌&&◌, if◌then◌else◌, min,
  max, sum, Bool-cases, Option-cases, arith,
}
use panofabric_engine.Prelude.Result.{Result, ok, err}
use panofabric_engine.Prelude.Dict.{Dict}
use panofabric_engine.Diloco.Server.{Params}
use panofabric_engine.Diloco.Sync.{Header}
use panofabric_engine.Diloco.Optim.{Torch}
use panofabric_engine.Worker.{
  Wire, Body, no_bytes, f32_bytes, bf16_bytes, int8_bytes, Posted, busy, refused, answered,
  Response, Answer, InflightPush, Worker, numels_of,
}
use panofabric_engine.Worker.Session.{
  read_body, with_answer, read_response, receive, session_roundtrip,
}
use panofabric_engine.Worker.Adopt.{
  Detached, rounded, apply_dylu, clear_inner, adopt_global, adopt_fragment, installed_global,
  installed_fragment,
}
use panofabric_engine.Worker.Boundary.{
  enter_resync, window_speed, pulled, resynced, synced, handled, pull_global, try_resync, sync,
  run_push, land, adopt_landed, join_and_adopt, launch, boundary_fragment, boundary, step_post_hook,
}

-- On the numbers that steer a worker: the fragments, whose turn it is, the cycle, and the exchange that is
-- in flight.
pub record Paced {F : Type 0} (num_fragments frag_idx sync_every : ℕ) (pending_resync : Bool)
    (inflight : Option (InflightPush F)) (resync_backoff resync_backoff_max : ℕ) : Type 0 where
  pub fragments : 1 ≤ num_fragments
  pub turn : frag_idx < num_fragments
  -- The cycle is a whole number of windows for each fragment.
  pub cycle : (k : ℕ) × (1 ≤ k) × (sync_every ≡ k * num_fragments)
  -- While a resync is pending nothing is in flight; nor ever without fragments.
  pub idle : pending_resync ≡ true → inflight ≡ none
  pub whole : num_fragments ≡ 1 → inflight ≡ none
  -- What is in flight is the fragment before the next one.
  pub before :
      (i : InflightPush F) → inflight ≡ some i → (i.fragment + 1) % num_fragments ≡ frag_idx
  pub backoff : resync_backoff ≤ max 1 resync_backoff_max

-- A rounded recommendation is a whole number of windows for each fragment.
rounded-whole : (p n : ℕ) → 1 ≤ p → 0 < rounded p n → (k : ℕ) × (1 ≤ k) × (rounded p n ≡ k * p)
rounded-whole p n h some_steps = elim (Bool-cases (ltb 0 n && ltb 1 p)) [
  | inr e ↦
      let one : (0 < n) × (p ≡ 1) = ground arith in
      (n, omega (arith, one.0), rw e (omega (arith, ap (λ q. n * q) one.1)))
  | inl e ↦ rw e (elim (dec_lt 0 (n / p)) [
    | yes q ↦
        let le : p ≤ n / p * p = omega (arith, mul-le-mul_right p q) in
        (n / p, omega (arith, q), omega (arith, le))
    | no q ↦
        let zero_windows : n / p * p ≡ 0 * p = ap (λ q. q * p) (omega (arith, q)) in
        (1, omega arith, omega (arith, zero_windows))
  ])
]

-- What holds of both branches.
pub if_both {ℓ κ} :
    {A : Type ℓ} {x y : A} (P : A → Type κ) (b : Bool) → P x → P y → P (if b then x else y)
if_both P true here there = here
if_both P false here there = there

pub if_cases {ℓ κ} :
    {A : Type ℓ} {x y : A} (P : A → Type κ) (b : Bool)
    → (b ≡ true → P x)
    → (b ≡ false → P y)
    → P (if b then x else y)
if_cases P true here there = here refl
if_cases P false here there = there refl

module _ {F : Type 0} where
  abbrev pub IsPaced : Worker F → Type 0
  IsPaced w =
      Paced w.num_fragments w.frag_idx w.sync_every w.pending_resync w.inflight w.resync_backoff
        w.resync_backoff_max

  -- A window that is not over yet.
  abbrev pub IsEarly : Worker F → Type 0
  IsEarly w = w.local_step < w.sync_every / w.num_fragments

  -- A cycle that is set anew is whole again.
  pub apply_dylu-IsPaced : (w : Worker F) (n : ℕ) → IsPaced w → IsPaced (apply_dylu w n)
  unfolding apply_dylu
  apply_dylu-IsPaced w n k = record {
    fragments = k.fragments;
    turn = k.turn;
    cycle = elim (Bool-cases (ltb 0 (rounded w.num_fragments n))) [
      | inl e ↦ rw e (rounded-whole w.num_fragments n k.fragments (ltb→lt 0 _ e))
      | inr e ↦ rw e (k.cycle)
    ];
    idle = k.idle;
    whole = k.whole;
    before = k.before;
    backoff = k.backoff;
  }

  pub enter_resync-IsPaced :
      (w : Worker F) (now : ℕ) → w.inflight ≡ none → IsPaced w → IsPaced (enter_resync w now)
  unfolding enter_resync
  enter_resync-IsPaced w now e k = record {
    fragments = k.fragments;
    turn = k.turn;
    cycle = k.cycle;
    idle = λ _. e;
    whole = k.whole;
    before = k.before;
    backoff = omega arith;
  }

  -- An exchange changes what the worker knows of the wire, at most.
  abbrev pub Wired : Worker F → Worker F → Type 0
  Wired w w' = (b : Bool) × (d : ℕ) × (w' ≡ record w { server_bf16 = b; deltas_since_full = d })

module _ {F Q B : Type 0} (t : Torch F) (wire : Wire F Q B) where
  read_response-Wired :
      (w : Worker F) (fragment : Option ℕ) (r : Response F Q B)
      → Wired w (read_response t wire w fragment r).0
  unfolding read_response
  read_response-Wired w fragment r = elim (Bool-cases (r.numel == sum (numels_of w fragment))) [
    | inr e ↦ rw e (w.server_bf16, w.deltas_since_full, refl)
    | inl e ↦
        let w' = record w { server_bf16 = w.wire_bf16 && r.names_dtype } in
        rw e (with_answer-Wired (read_body t wire w' r r.body))
  ]
    where
      with_answer-Wired :
          (a : Result (List F × ℕ))
          → Wired w
              (with_answer t wire (record w { server_bf16 = w.wire_bf16 && r.names_dtype }) r a).0
      with_answer-Wired (err e) = (w.wire_bf16 && r.names_dtype, w.deltas_since_full, refl)
      with_answer-Wired (ok (flat, deltas)) = (w.wire_bf16 && r.names_dtype, deltas, refl)

  receive-Wired :
      (w : Worker F) (fragment : Option ℕ) (p : Posted F Q B)
      → Wired w (receive t wire w fragment p).0
  unfolding receive
  receive-Wired w fragment busy = (w.server_bf16, w.deltas_since_full, refl)
  receive-Wired w fragment (refused e) = (w.server_bf16, w.deltas_since_full, refl)
  receive-Wired w fragment (answered r) = read_response-Wired w fragment r

  module _ {S : Type 0} (post : S → Header → Body F Q B → Posted F Q B × S) where
    pub session-Wired :
        (w : Worker F) (s : S) (flag : Bool) (speed : ℕ) (g : Option (List F)) (fragment : Option ℕ)
        → Wired w (session_roundtrip t wire post w s flag speed g fragment).0
    unfolding session_roundtrip
    session-Wired w s flag speed g fragment = receive-Wired w fragment _
