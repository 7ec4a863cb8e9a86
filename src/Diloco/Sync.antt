-- ===== src/Diloco/Sync.antt =====
-- The `/sync` request on the asynchronous path (no grace period, no round): the header checks of
-- `do_POST`, `_handle_sync`, and the reply with its ring of served snapshots. A request is taken as one
-- step; the source holds the stream lock over a push, but takes the snapshot and enters it in the
-- ring in two sections. Body bytes are decoded outside: a request carries its gradients. A header names
-- a baseline revision always, as the worker's does.
pub mod Requests
pub mod Served
pub mod Payloads
pub mod Deltas
pub mod Variants
pub mod Plain
use panofabric_engine.Prelude.{
  ℕ, suc, ◌+◌, ◌-◌, ◌≡◌, String, Bool, true, false, Option, none, some, List, [], ◌∷◌, leb, ltb,
  ◌==◌, ◌&&◌, if◌then◌else◌, nat_eq, length, get_or, sum, drop, range_from,
}
use panofabric_engine.Prelude.Result.{Result, ok, err, value_error, ◌>>=◌, ◌>>◌}
use panofabric_engine.Prelude.Dict.{Dict, lookup, insert}
use panofabric_engine.Diloco.Fragments.{Range}
use panofabric_engine.Diloco.Server.{
  Hooks, Server, Params, Island, apply_one, snapshot_flat, or_zero,
}
use panofabric_engine.Diloco.Dylu.{Dylu, record_speeds, pool_speed, dylu_steps}

pub data WireDtype : Type 0 where
  float32 bfloat16 int8 : WireDtype
  -- Any other text in the header.
  unsupported : WireDtype

-- The header's fields that the server reads.
pub record Header : Type 0 where
  pub flag : Bool
  pub dtype : WireDtype
  pub numel : ℕ
  pub fragment : Option ℕ
  -- 0 where the header has none.
  pub client_fragments : ℕ
  pub speed : ℕ
  pub baseline_revision : ℕ
  pub island_id : Island
  pub accept_delta : Bool
  pub accept_bf16 : Bool

-- The fragment table and the sizes that a header is checked against.
pub record Layout : Type 0 where
  pub num_fragments : ℕ
  pub frag_sizes : List ℕ
  pub total_numel : ℕ

pub check_numel : ℕ → ℕ → Result (Unit {0})
check_numel numel expected = if numel == expected then ok tt else err value_error

pub check_dtype : WireDtype → Result (Unit {0})
check_dtype unsupported = err value_error
check_dtype _ = ok tt

-- The checks of a push, in their order. The dtype is looked at when the body is read.
pub check_push : Layout → Header → Result (Unit {0})
unfolding check_numel check_dtype
check_push l h = elim h.fragment [
  | some f ↦
      if h.client_fragments == l.num_fragments
      then (if ltb f l.num_fragments
          then (check_numel h.numel (get_or l.frag_sizes f 0) >> check_dtype h.dtype)
          else err value_error)
      else err value_error
  | none ↦
      if l.num_fragments == 1
      then (check_numel h.numel l.total_numel >> check_dtype h.dtype)
      else err value_error
]

pub record SyncServer (F Opt : Type 0) : Type 0 where
  pub model : Server F Opt
  pub dylu : Dylu
  -- Whole-model snapshots by revision, oldest insertion first.
  pub served : Dict ℕ (List F)
  pub served_max : ℕ

pub record Reply : Type 0 where
  pub new_steps : ℕ
  pub revision : ℕ
  pub applied : Bool

-- What is sent: a difference to the snapshot at a revision, or the whole buffer.
pub data Payload (F : Type 0) : Type 0 where
  delta : (base_rev : ℕ) (base flat : List F) → Payload F
  full_bf16 full_f32 : List F → Payload F

module _ {F Opt : Type 0} (h : Hooks F Opt) where
  -- The reply, the buffer and the new state. `now` is the clock.
  abbrev pub Handled : Type 0
  Handled = Reply × List F × SyncServer F Opt

  abbrev pub with_snapshot : SyncServer F Opt → ℕ → Bool → List F × Server F Opt → Handled
  with_snapshot s steps applied (flat, m) = (
    record { new_steps = steps; revision = m.revision; applied = applied },
    flat,
    record s { model = m },
  )

  -- `_handle_sync`
  unfoldable pub handle_sync : SyncServer F Opt → ℕ → Header → Params F → Handled
  unfolding apply_one snapshot_flat record_speeds pool_speed dylu_steps
  handle_sync s now hd grads =
      if hd.flag
      then (if ltb s.model.revision hd.baseline_revision
          -- The rejected push is answered for an unknown island.
          then with_snapshot s s.dylu.dylu_H false (snapshot_flat h s.model hd.fragment none)
          else (let (pool, dylu') = pool_speed (record_speeds s.dylu now (hd.speed ∷ [])) now in
              let m = apply_one h s.model grads (or_zero hd.fragment) hd.island_id in
              with_snapshot (record s { dylu = dylu' }) (dylu_steps dylu' hd.speed pool) true
                (snapshot_flat h m hd.fragment hd.island_id)))
      else with_snapshot s s.dylu.dylu_H false (snapshot_flat h s.model none hd.island_id)

  -- `fragment` of a pull is `None`: the header is not asked.
  abbrev pub scope : Header → Option ℕ
  scope hd = if hd.flag then hd.fragment else none

  abbrev pub is_whole : SyncServer F Opt → Header → Bool
  is_whole s hd = elim (scope hd) [ some _ ↦ false | none ↦ s.model.num_fragments == 1 ]

  -- `while len(served) > served_max: served.popitem(last=False)`
  abbrev trim : ℕ → Dict ℕ (List F) → Dict ℕ (List F)
  trim bound d = drop (length d - bound) d

  -- The encoding, and the record of what was served.
  unfoldable pub reply_payload : SyncServer F Opt → Header → List F → Payload F
  unfolding lookup
  reply_payload s hd flat =
      let full = if hd.accept_bf16 then full_bf16 flat else full_f32 flat in
      if hd.accept_delta && is_whole s hd
      then (elim (lookup hd.baseline_revision s.served) [
        | some base ↦ delta hd.baseline_revision base flat
        | none ↦ full
      ])
      else full

  unfoldable pub remember : SyncServer F Opt → Header → ℕ → List F → SyncServer F Opt
  unfolding insert
  remember s hd revision flat =
      if is_whole s hd
      then record s { served = trim s.served_max (insert revision flat s.served) }
      else s

  -- `do_POST` behind its path and session-slot tests; an error is answered with 500.
  unfoldable pub do_post :
      Layout
      → SyncServer F Opt
      → ℕ
      → Header
      → Params F
      → Result (Reply × Payload F × SyncServer F Opt)
  unfolding check_push handle_sync reply_payload remember
  do_post l s now hd grads = do
    (if hd.flag then check_push l hd else ok tt)
    let r = handle_sync s now hd grads
    ok (r.0, reply_payload r.2 hd r.1, remember r.2 hd r.0.revision r.1)
