-- ===== src/Tests/Samples.antt =====
-- A server of two parameters with one fragment, whose scalars are natural numbers.
use panofabric_engine.Prelude.{
  ℕ, ◌+◌, ◌-◌, ◌*◌, ◌/◌, ◌≡◌, refl, subst, inl, inr, String, Bool-cases, true, false, none, some,
  List, [], ◌∷◌, ltb, leb, sum, arith, length, string_eq, pair_eq,
}
use panofabric_engine.Prelude.Dict.{contains, lookup}
use panofabric_engine.Diloco.Server.{Hooks, Server, Params}
use panofabric_engine.Diloco.Dylu.{Dylu}
use panofabric_engine.Diloco.Sync.{Header, Layout, Reply, SyncServer, float32}
use panofabric_engine.Diloco.Sync.Requests.{IsSound}
use panofabric_engine.Diloco.Optim.{Torch, add_tensor, over, DelayedNesterov, NesterovState}
use panofabric_engine.Diloco.Heloco.{Heloco, Momenta, heloco_hooks, diloco_hooks}

abbrev pub torch : Torch ℕ
torch = record {
  zero = 0;
  one = 1;
  of_nat = λ n. n;
  add = λ x y. x + y;
  sub = λ x y. x - y;
  mul = λ x y. x * y;
  div = λ x y. x / y;
  neg = λ x. x;
  less = ltb;
  greater_equal = λ x y. leb y x;
  norm = sum;
  dot = λ xs ys. sum xs * sum ys;
}

abbrev pub nesterov : DelayedNesterov ℕ
nesterov = record { lr = 1; momentum = 1; nesterov_period = 2 }

abbrev pub heloco : Heloco ℕ
heloco = record {
  lr = 1;
  momentum = 1;
  rho = 1;
  c_ok = 1;
  k_s = 1;
  k_d = 1;
  kappa = 3;
  beta_max = 1;
  eps = 1;
  correction_workers = some (0 ∷ []);
  whole_gradient = false;
  diloco = some nesterov;
}

abbrev pub fresh_nesterov : NesterovState ℕ
fresh_nesterov = record { push_count = 0; state = [] }

abbrev pub weights : Params ℕ
weights = ("a", 5 ∷ []) ∷ ("b", 7 ∷ 9 ∷ []) ∷ []

abbrev pub gradients : Params ℕ
gradients = ("a", 2 ∷ []) ∷ ("b", 4 ∷ 6 ∷ []) ∷ []

module _ {Opt : Type 0} (o : Opt) where
  abbrev pub model : Server ℕ Opt
  model = record {
    param_names = "a" ∷ "b" ∷ [];
    frag_bounds = (0, 2) ∷ [];
    num_fragments = 1;
    params = weights;
    opt = o;
    revision = 3;
    applied_pushes = 3;
    snapshot_cache = [];
  }

  pub model-IsSound : (h : Hooks ℕ Opt) → IsSound h model
  unfolding contains lookup
  model-IsSound h = record {
    layout = record {
      distinct = (refl, (refl, tt));
      chain = (refl, omega arith, refl);
      count = refl;
    };
    coherent = record { fresh = λ f v rev flat i e s. cc };
    counted = omega arith;
  }

abbrev pub diloco : Hooks ℕ (NesterovState ℕ)
diloco = diloco_hooks torch nesterov

abbrev pub dylu : Dylu
dylu = record {
  dylu_H = 100;
  timeout = 60;
  percent_num = 9;
  percent_den = 10;
  worker_speeds = (8, 5) ∷ (4, 6) ∷ [];
}

abbrev pub server : SyncServer ℕ (NesterovState ℕ)
server = record { model = model fresh_nesterov; dylu = dylu; served = []; served_max = 8 }

abbrev pub layout : Layout
layout = record { num_fragments = 1; frag_sizes = 3 ∷ []; total_numel = 3 }

abbrev pub push_header : Header
push_header = record {
  flag = true;
  dtype = float32;
  numel = 3;
  fragment = none;
  client_fragments = 1;
  speed = 4;
  baseline_revision = 3;
  island_id = some 1;
  accept_delta = true;
  accept_bf16 = false;
}

abbrev pub pull_header : Header
pull_header = record push_header { flag = false }

-- The sample server after a pull of the whole model.
abbrev pub flat : List ℕ
flat = 5 ∷ 7 ∷ 9 ∷ []

abbrev pub pulled : SyncServer ℕ (NesterovState ℕ)
pulled = record server {
  model = record (model fresh_nesterov) { snapshot_cache = ((0, ""), (3, flat)) ∷ [] };
  served = (3, flat) ∷ [];
}

abbrev pub pulled_reply : Reply
pulled_reply = record { new_steps = 100; revision = 3; applied = false }

-- The sample model on a server of HeLoCo with a momentum; island 1 is a DiLoCo island.
abbrev pub momenta : Momenta ℕ
momenta = record { heloco = ("a", 1 ∷ []) ∷ ("b", 2 ∷ 3 ∷ []) ∷ []; nesterov = fresh_nesterov }

abbrev pub heloco_server_hooks : Hooks ℕ (Momenta ℕ)
heloco_server_hooks = heloco_hooks torch heloco

abbrev pub heloco_server : SyncServer ℕ (Momenta ℕ)
heloco_server = record { model = model momenta; dylu = dylu; served = []; served_max = 8 }

-- The rounded mean of tensors.
abbrev sum_tensors : List (List ℕ) → List ℕ
sum_tensors [] = 0 ∷ 0 ∷ []
sum_tensors (t ∷ ts) = add_tensor torch t (sum_tensors ts)

abbrev pub mean : List (List ℕ) → List ℕ
mean ts = over torch (sum_tensors ts) (length ts)

-- What holds of two names holds of each name of their list.
pub one_of_two :
    (a b : String) (P : String → Type 0) (n : String)
    → contains n (a ∷ b ∷ []) ≡ true
    → P a
    → P b
    → P n
unfolding contains
one_of_two a b P n e pa pb = elim (Bool-cases (string_eq.beq a n)) [
  | inl same ↦ subst P ((string_eq.beq_iff a n).0 same) pa
  | inr other ↦ elim (Bool-cases (string_eq.beq b n)) [
    | inl same ↦ subst P ((string_eq.beq_iff b n).0 same) pb
    | inr neither ↦ absurd (ground (arith, e, other, neither))
  ]
]
