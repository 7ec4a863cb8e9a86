-- ===== src/Tests/Checkpoints.antt =====
-- Checkpoints of the sample server, in files whose only byte is the whole dict.
use panofabric_engine.Prelude.{
  ℕ, ◌+◌, ◌*◌, ◌≤◌, ◌<◌, ◌≡◌, refl, String, Bool, true, false, none, some, List, [], ◌∷◌, ◌==◌,
  ◌&&◌, if◌then◌else◌, length, arith, nat_eq, string_eq,
}
use panofabric_engine.Prelude.Result.{Result, ok, err, io_error, runtime_error}
use panofabric_engine.Prelude.Dict.{Dict, keys}
use panofabric_engine.Diloco.Server.{Params, frag_names, snapshot_flat}
use panofabric_engine.Diloco.Optim.{Buffers, NesterovState, is_milestone}
use panofabric_engine.Diloco.Heloco.{Heloco, Momenta, heloco_hooks}
use panofabric_engine.Diloco.Heloco.Local.{heloco_hooks-IsLocal}
use panofabric_engine.Diloco.Checkpoint.{
  Saved, TorchFiles, IsTorchFiles, Disk, Checkpointed, Attempt, completed, cut, sizes_of,
  save_checkpoint, initial, init_server, load_checkpoint, restored, nesterov_stored, heloco_stored,
}
use panofabric_engine.Diloco.Checkpoint.Restart.{
  Push, push_all, rebuilt, fresh_optimizer, init_server-resumes, init_server-milestones,
}
use panofabric_engine.Diloco.Checkpoint.Lag.{run_sessions, failed_saves, run_sessions-lag}
use panofabric_engine.Tests.Samples.{
  torch, nesterov, heloco, fresh_nesterov, weights, gradients, model, model-IsSound, diloco,
}

-- Strict loading: the same names in the same order, of the same sizes.
matches : Params ℕ → Params ℕ → Bool
matches [] [] = true
matches ((n, x) ∷ p) ((m, y) ∷ q) = string_eq.beq n m && ((length x == length y) && matches p q)
matches _ _ = false

matches_same : (p q : Params ℕ) → keys p ≡ keys q → sizes_of p ≡ sizes_of q → matches p q ≡ true
unfolding matches
matches_same [] [] same sizes = refl
matches_same [] (_ ∷ q) same sizes = cc
matches_same (_ ∷ p) [] same sizes = cc
matches_same ((n, x) ∷ p) ((m, y) ∷ q) same sizes =
    let name : n ≡ m = cc same in
    let size : length x ≡ length y = cc sizes in
    ground (arith, matches_same p q (cc same) (cc sizes), name, size, string_eq.beq_iff n m)

module _ {S : Type 0} where
  load_dict : List (Saved ℕ S) → Result (Saved ℕ S)
  load_dict (x ∷ []) = ok x
  load_dict _ = err io_error

  abbrev files : TorchFiles ℕ S (Saved ℕ S)
  files = record {
    save = λ x. x ∷ [];
    load = load_dict;
    load_params = λ p q. if matches p q then ok q else err runtime_error;
  }

  files-IsTorchFiles : IsTorchFiles files
  unfolding load_dict
  files-IsTorchFiles = record {
    load_save = λ x. refl;
    load_same = λ p q same sizes. rw (matches_same p q same sizes) refl;
  }

abbrev plain_heloco : Heloco ℕ
plain_heloco = record heloco { diloco = none; correction_workers = none }

abbrev seeded : Momenta ℕ
seeded = record { heloco = ("a", 2 ∷ []) ∷ []; nesterov = fresh_nesterov }

abbrev unseeded : Momenta ℕ
unseeded = record { heloco = []; nesterov = fresh_nesterov }

abbrev zeros : Params ℕ
zeros = ("a", 0 ∷ []) ∷ ("b", 0 ∷ 0 ∷ []) ∷ []

abbrev no_files : {S : Type 0} → Disk (Saved ℕ S)
no_files = record { checkpoint = none; temporary = none }

abbrev further : List (Push ℕ)
further = (gradients, none, some 1) ∷ (gradients, none, none) ∷ []

init_server-resumes_example :
    (r : Checkpointed ℕ (Momenta ℕ) (Saved ℕ (Dict String (List ℕ)))) × (init_server heloco_stored
        files
        (rebuilt heloco_stored files (model seeded) zeros unseeded)
        true
        10
        (save_checkpoint heloco_stored files (model seeded) completed no_files).1
      ≡ ok r)
    × ((push_all (heloco_hooks torch plain_heloco) r.model further).revision
        ≡ (push_all (heloco_hooks torch plain_heloco) (model seeded) further).revision)
    × ((snapshot_flat
          (heloco_hooks torch plain_heloco)
          (push_all (heloco_hooks torch plain_heloco) r.model further)
          none
          none).0
        ≡ (snapshot_flat
            (heloco_hooks torch plain_heloco)
            (push_all (heloco_hooks torch plain_heloco) (model seeded) further)
            none
            none).0)
unfolding heloco_stored frag_names
init_server-resumes_example =
    init_server-resumes (heloco_hooks torch plain_heloco) (heloco_hooks-IsLocal torch plain_heloco)
      heloco_stored files files-IsTorchFiles (model seeded) zeros unseeded 10 no_files further none
      none (model-IsSound seeded (heloco_hooks torch plain_heloco)).layout
      (model-IsSound seeded (heloco_hooks torch plain_heloco)).coherent refl refl refl
      ((refl, λ _. refl), ((refl, λ _. refl), tt))

-- One push since the last milestone.
abbrev midway : NesterovState ℕ
midway = record { push_count = 1; state = ("a", record { grad_buffer = 2 ∷ []; m = 0 ∷ [] }) ∷ [] }

init_server-milestones_example :
    (r : Checkpointed ℕ (NesterovState ℕ) (Saved ℕ (Dict String (Buffers ℕ)))) × (init_server
        nesterov_stored files
        (rebuilt nesterov_stored files (model midway) zeros fresh_optimizer)
        true
        10
        (save_checkpoint nesterov_stored files (model midway) completed no_files).1
      ≡ ok r)
    × (r.model.opt.state ≡ midway.state)
    × (is_milestone torch nesterov (push_all diloco r.model further).opt.push_count ≡ true)
    × (is_milestone torch nesterov (push_all diloco (model midway) further).opt.push_count ≡ false)
init_server-milestones_example =
    init_server-milestones torch nesterov files files-IsTorchFiles (model midway) zeros 10 no_files
      further refl refl

abbrev checkpoint_file : Disk (Saved ℕ (Dict String (Buffers ℕ)))
checkpoint_file = record {
  checkpoint =
      some
        (record { model = weights; outer_optimizer = []; revision = 3; applied_pushes = 3 } ∷ []);
  temporary = none;
}

abbrev running : Checkpointed ℕ (NesterovState ℕ) (Saved ℕ (Dict String (Buffers ℕ)))
running = record (initial (model fresh_nesterov) true 1 checkpoint_file) {
  last_checkpoint_revision = 3;
}

abbrev sessions : List (Push ℕ × Attempt)
sessions = ((gradients, none, none), completed) ∷ ((gradients, none, none), cut 0) ∷ []

run_sessions-lag_example :
    (file : List (Saved ℕ (Dict String (Buffers ℕ)))) × (saved : Saved ℕ (Dict String (Buffers ℕ)))
    × ((run_sessions nesterov_stored files diloco running sessions).disk.checkpoint ≡ some file)
    × (files.load file ≡ ok saved)
    × (saved.revision ≤ (run_sessions nesterov_stored files diloco running sessions).model.revision)
    × ((run_sessions nesterov_stored files diloco running sessions).model.revision
        < saved.revision + (failed_saves nesterov_stored files diloco running sessions + 1) * 1)
unfolding init_server load_checkpoint restored matches load_dict nesterov_stored
run_sessions-lag_example =
    run_sessions-lag nesterov_stored files diloco files-IsTorchFiles (model fresh_nesterov) 1
      checkpoint_file running sessions (omega arith) (λ e. cc) refl
