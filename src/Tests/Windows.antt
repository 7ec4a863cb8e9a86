-- ===== src/Tests/Windows.antt =====
-- A window of three pushes, and a step of MLA, over the field of two elements.
use panofabric_engine.Prelude.{
  ◌%◌, ◌≡◌, refl, Bool, true, false, not, [], ◌∷◌, ◌==◌, nat_eq, string_eq,
}
use panofabric_engine.Prelude.Dict.{contains, lookup}
use panofabric_engine.Diloco.Server.{Params}
use panofabric_engine.Diloco.Optim.{Torch, DelayedNesterov, NesterovState, heloco_step}
use panofabric_engine.Diloco.Mla.{mla_step, mla_step-eq-heloco_step}
use panofabric_engine.Diloco.Optim.Exact.{IsExact}
use panofabric_engine.Diloco.Optim.Mean.{IsOneStep, total_from, steps, steps-mean}

xor : Bool → Bool → Bool
xor true y = not y
xor false y = y

and : Bool → Bool → Bool
and true y = y
and false y = false

-- Only the division by one is used.
quotient : Bool → Bool → Bool
quotient x true = x
quotient x false = false

abbrev bits : Torch Bool
bits = record {
  zero = false;
  one = true;
  of_nat = λ n. n % 2 == 1;
  add = xor;
  sub = xor;
  mul = and;
  div = quotient;
  neg = λ x. x;
  less = λ x y. and (not x) y;
  greater_equal = λ x y. not (and (not x) y);
  norm = λ xs. true;
  dot = λ xs ys. true;
}

xor_assoc : (x y z : Bool) → xor (xor x y) z ≡ xor x (xor y z)
unfolding xor
xor_assoc true true z = double z
  where
    double : (z : Bool) → z ≡ not (not z)
    double true = refl
    double false = refl
xor_assoc true false z = refl
xor_assoc false y z = refl

xor_comm : (x y : Bool) → xor x y ≡ xor y x
unfolding xor
xor_comm true true = refl
xor_comm true false = refl
xor_comm false true = refl
xor_comm false false = refl

and_assoc : (x y z : Bool) → and (and x y) z ≡ and x (and y z)
unfolding and
and_assoc true y z = refl
and_assoc false y z = refl

xor-false : (x : Bool) → xor x false ≡ x
unfolding xor
xor-false true = refl
xor-false false = refl

and-xor : (c x y : Bool) → and c (xor x y) ≡ xor (and c x) (and c y)
unfolding and xor
and-xor true x y = refl
and-xor false x y = refl

and-false : (c : Bool) → and c false ≡ false
unfolding and
and-false true = refl
and-false false = refl

quotient-xor : (x y n : Bool) → quotient (xor x y) n ≡ xor (quotient x n) (quotient y n)
unfolding quotient xor
quotient-xor x y true = refl
quotient-xor x y false = refl

quotient-false : (n : Bool) → quotient false n ≡ false
unfolding quotient
quotient-false true = refl
quotient-false false = refl

bits-IsExact : IsExact bits
bits-IsExact = record {
  add_assoc = xor_assoc;
  add_comm = xor_comm;
  add_zero = xor-false;
  mul_add = and-xor;
  mul_assoc = and_assoc;
  mul_neg = λ c x. refl;
  neg_mul = λ c x. refl;
  mul_zero = and-false;
  div_add = quotient-xor;
  div_zero = quotient-false;
  div_neg = λ x n. refl;
  neg_add = λ x y. refl;
  neg_zero = refl;
}

abbrev three : DelayedNesterov Bool
three = record { lr = true; momentum = true; nesterov_period = 3 }

-- Six pushes of before are over, and left a momentum.
abbrev optimizer : NesterovState Bool
optimizer = record {
  push_count = 6;
  state = ("a", record { grad_buffer = false ∷ false ∷ []; m = true ∷ false ∷ [] }) ∷ [];
}

abbrev bit_params : Params Bool
bit_params = ("a", true ∷ true ∷ []) ∷ ("b", false ∷ []) ∷ []

abbrev push : Params Bool
push = ("a", true ∷ false ∷ []) ∷ []

steps-mean_example :
    IsOneStep bits three bits-IsExact "a"
      (true ∷ true ∷ [])
      (true ∷ false ∷ [])
      (total_from bits three
        (false ∷ false ∷ [])
        ((true ∷ false ∷ []) ∷ (true ∷ false ∷ []) ∷ (true ∷ false ∷ []) ∷ []))
      (steps bits three (push ∷ push ∷ push ∷ []) (optimizer, bit_params))
unfolding lookup contains
steps-mean_example =
    steps-mean bits three bits-IsExact "a" optimizer bit_params push (push ∷ push ∷ [])
      ((true ∷ false ∷ []) ∷ (true ∷ false ∷ []) ∷ (true ∷ false ∷ []) ∷ []) (true ∷ true ∷ [])
      (true ∷ false ∷ []) (refl, (refl, tt)) refl refl (refl, (refl, (refl, tt))) refl refl

mla_step-eq-heloco_step_example :
    mla_step bits true true [] bit_params push ≡ heloco_step bits true true [] bit_params push
mla_step-eq-heloco_step_example =
    mla_step-eq-heloco_step bits true true [] bit_params push bits-IsExact
