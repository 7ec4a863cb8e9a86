-- ===== src/Diloco/Checkpoint.antt =====
-- Server checkpoints: `save_checkpoint`, `_load_checkpoint`, `_maybe_checkpoint`, the constructor's
-- restart from a file, and what of an optimizer its `state_dict` holds. `torch.save`, `torch.load` and
-- the module's `load_state_dict` are parameters. The disk is the two files of one checkpoint path; what
-- `os.replace` leaves after a loss of power is left out. A session's commit and its checkpoint are taken
-- as one step; between them the source takes the snapshot, which changes the cache alone.
pub mod Restart
pub mod Lag
use panofabric_engine.Prelude.{
  ℕ, ◌+◌, ◌≡◌, String, Bool, true, false, Option, none, some, List, [], ◌∷◌, map, take, length, leb,
  if◌then◌else◌, string_eq,
}
use panofabric_engine.Prelude.Result.{Result, ok, err, io_error, ◌>>=◌}
use panofabric_engine.Prelude.Dict.{Dict, keys, values}
use panofabric_engine.Diloco.Server.{Hooks, Server, Params, Island, apply_one}
use panofabric_engine.Diloco.Optim.{Buffers, NesterovState}
use panofabric_engine.Diloco.Heloco.{Momenta}

-- What a checkpoint holds, with the optimizer's state dict `S`.
pub record Saved (F S : Type 0) : Type 0 where
  pub model : Params F
  pub outer_optimizer : S
  pub revision : ℕ
  pub applied_pushes : ℕ

-- The state dict of `self._outer_optimizer`, and loading one into an optimizer.
pub record Stored (Opt S : Type 0) : Type 0 where
  pub state_dict : Opt → S
  pub load_state_dict : Opt → S → Opt

-- `DelayedNesterovOptimizer` inherits both methods: they know the state of the parameters, and not the
-- attribute `_push_count`.
unfoldable pub nesterov_stored : {F : Type 0} → Stored (NesterovState F) (Dict String (Buffers F))
nesterov_stored = record {
  state_dict = λ o. o.state;
  load_state_dict = λ o s. record o { state = s };
}

-- `HeLoCoServer` saves its outer optimizer, and not `_diloco_optimizer`.
unfoldable pub heloco_stored : {F : Type 0} → Stored (Momenta F) (Dict String (List F))
heloco_stored = record {
  state_dict = λ o. o.heloco;
  load_state_dict = λ o s. record o { heloco = s };
}

pub record TorchFiles (F S Byte : Type 0) : Type 0 where
  pub save : Saved F S → List Byte
  pub load : List Byte → Result (Saved F S)
  -- `load_state_dict` of a module with these parameters.
  pub load_params : Params F → Params F → Result (Params F)

abbrev pub sizes_of : {F : Type 0} → Params F → List ℕ
sizes_of p = map length (values p)

-- What is documented of them. A tensor is the list of its elements here, so that the shapes that
-- `load_state_dict` compares are sizes; the tensors of a server's own checkpoint keep their shapes.
pub record IsTorchFiles {F S Byte : Type 0} (t : TorchFiles F S Byte) : Type 0 where
  pub load_save : (x : Saved F S) → t.load (t.save x) ≡ ok x
  pub load_same :
      (p q : Params F) → keys p ≡ keys q → sizes_of p ≡ sizes_of q → t.load_params p q ≡ ok q

pub record Disk (Byte : Type 0) : Type 0 where
  -- The file at `checkpoint_path`, and the one at that path with `.tmp`.
  pub checkpoint : Option (List Byte)
  pub temporary : Option (List Byte)

pub record Checkpointed (F Opt Byte : Type 0) : Type 0 where
  pub model : Server F Opt
  -- Whether the server has a `checkpoint_path`.
  pub has_path : Bool
  pub checkpoint_every : ℕ
  pub last_checkpoint_revision : ℕ
  pub disk : Disk Byte

abbrev pub initial :
    {F Opt Byte : Type 0} → Server F Opt → Bool → ℕ → Disk Byte → Checkpointed F Opt Byte
initial m has_path every d = record {
  model = m;
  has_path = has_path;
  checkpoint_every = every;
  last_checkpoint_revision = 0;
  disk = d;
}

-- How a save ends: as it should, or by an exception or the end of the process after so many bytes.
pub data Attempt : Type 0 where
  completed : Attempt
  cut : ℕ → Attempt

module _ {F Opt S Byte : Type 0} (st : Stored Opt S) (t : TorchFiles F S Byte) where
  -- The dict that `save_checkpoint` makes under the lock.
  abbrev pub state_of : Server F Opt → Saved F S
  state_of s = record {
    model = s.params;
    outer_optimizer = st.state_dict s.opt;
    revision = s.revision;
    applied_pushes = s.applied_pushes;
  }

  -- `save_checkpoint`: `torch.save` to the temporary file, then `os.replace`.
  unfoldable pub save_checkpoint :
      Server F Opt → Attempt → Disk Byte → Result (Disk Byte) × Disk Byte
  save_checkpoint s completed d =
      let d' : Disk Byte = record { checkpoint = some (t.save (state_of s)); temporary = none } in
      (ok d', d')
  save_checkpoint s (cut n) d =
      (err io_error, record d { temporary = some (take n (t.save (state_of s))) })

  -- The part of `_load_checkpoint` that changes the model state.
  unfoldable pub restored : Server F Opt → Saved F S → Result (Server F Opt)
  restored s x = do
    params' ← t.load_params s.params x.model
    ok (record s {
      params = params';
      opt = st.load_state_dict s.opt x.outer_optimizer;
      revision = x.revision;
      applied_pushes = x.applied_pushes;
    })

  unfoldable pub load_checkpoint :
      Checkpointed F Opt Byte → List Byte → Result (Checkpointed F Opt Byte)
  unfolding restored
  load_checkpoint s file = do
    x ← t.load file
    m ← restored s.model x
    ok (record s { model = m; last_checkpoint_revision = m.revision })

  -- The end of the constructor, for a model just built.
  unfoldable pub init_server :
      Server F Opt → Bool → ℕ → Disk Byte → Result (Checkpointed F Opt Byte)
  unfolding load_checkpoint
  init_server m has_path every d =
      let s = initial m has_path every d in
      if has_path
      then elim d.checkpoint [ none ↦ ok s | some file ↦ load_checkpoint s file ]
      else ok s

  -- `revision - last_checkpoint_revision >= checkpoint_every`, for a server with a path.
  abbrev pub is_due : Checkpointed F Opt Byte → Bool
  is_due s =
      if s.has_path
      then leb (s.last_checkpoint_revision + s.checkpoint_every) s.model.revision
      else false

  -- `_maybe_checkpoint`; an exception of the save is logged.
  unfoldable pub maybe_checkpoint : Checkpointed F Opt Byte → Attempt → Checkpointed F Opt Byte
  unfolding save_checkpoint
  maybe_checkpoint s attempt =
      if is_due s
      then record s {
        last_checkpoint_revision = s.model.revision;
        disk = (save_checkpoint s.model attempt s.disk).1;
      }
      else s

  module _ (h : Hooks F Opt) where
    -- The end of a session that pushes.
    unfoldable pub session :
        Checkpointed F Opt Byte → Params F → ℕ → Island → Attempt → Checkpointed F Opt Byte
    unfolding apply_one maybe_checkpoint
    session s grads fragment island attempt =
        maybe_checkpoint (record s { model = apply_one h s.model grads fragment island }) attempt
