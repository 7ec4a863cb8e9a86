-- ===== src/Worker/Replica/Shards.antt =====
-- A replica whose ranks hold the parts of one worker's model.
use panofabric_engine.Prelude.{
  ℕ, zero, suc, ◌≡◌, refl, sym, ap, ◌∙◌, String, true, none, some, List, [], ◌∷◌, map, length,
  concat, arith, string_eq,
}
use panofabric_engine.Prelude.Dict.{contains, lookup, beq_refl}
use panofabric_engine.Diloco.Server.{Params}
use panofabric_engine.Diloco.Optim.{Torch, sub_tensor}
use panofabric_engine.Worker.{Worker, value, or_empty}
use panofabric_engine.Worker.Boundary.{pseudo_grad}
use panofabric_engine.Worker.Replica.{Placement, Replica, full_value, gathered}

abbrev pub over_ranks : {F : Type 0} → Worker F → Params F → List (Worker F) → Replica F
over_ranks w m fs = record { lead = record w { model = m }; followers = fs }

-- The parts of ranks `i` on.
abbrev pub parts_of : {F : Type 0} → Placement F → String → List F → ℕ → ℕ → List (List F)
parts_of pl n v i zero = []
parts_of pl n v i (suc k) = pl.own i n v ∷ parts_of pl n v (suc i) k

-- What is documented of a placement over `world` ranks, for tensors of a parameter's shape: the parts make
-- up the whole, and blending goes element by element.
pub record IsPlacement {F : Type 0} (pl : Placement F) (lerp : List F → List F → List F) (world : ℕ)
    (Fits : String → List F → Type 0) : Type 0 where
  pub full_parts :
      (n : String) (v : List F) → Fits n v → pl.full_tensor n (parts_of pl n v 0 world) ≡ v
  pub own_lerp :
      (i : ℕ) (n : String) (c p : List F)
      → Fits n c
      → Fits n p
      → pl.own i n (lerp c p) ≡ lerp (pl.own i n c) (pl.own i n p)
  pub fits_lerp : (n : String) (c p : List F) → Fits n c → Fits n p → Fits n (lerp c p)

module _ {F : Type 0} (pl : Placement F) (Fits : String → List F → Type 0) where
  -- A model that the parts are taken from.
  pub record IsWhole (names : List String) (model : Params F) : Type 0 where
    pub at :
        (n : String) → contains n names ≡ true → (p : List F) × (lookup n model ≡ some p) × Fits n p

  -- The model of rank `i`.
  pub record IsPart (names : List String) (model : Params F) (i : ℕ) (local : Params F)
      : Type 0 where
    pub at :
        (n : String) (p : List F)
        → contains n names ≡ true
        → lookup n model ≡ some p
        → lookup n local ≡ some (pl.own i n p)

  -- The settings, the cycle and the model that the ranks share.
  module _ (names : List String) (numels : List ℕ) (fragments cycle : ℕ) (model : Params F) where
    -- A follower: its part of the model, and what else it acts by.
    pub record FollowerOf (i : ℕ) (f : Worker F) : Type 0 where
      pub part : IsPart names model i f.model
      pub names_are : f.param_names ≡ names
      pub numels_are : f.param_numels ≡ numels
      pub fragments_are : f.num_fragments ≡ fragments
      pub cycle_is : f.sync_every ≡ cycle

    abbrev pub FollowersOf : ℕ → List (Worker F) → Type 0
    FollowersOf i [] = Unit
    FollowersOf i (f ∷ fs) = FollowerOf i f × FollowersOf (suc i) fs

    pub record Standing (m : Params F) (fs : List (Worker F)) : Type 0 where
      pub whole : IsWhole names model
      pub first : IsPart names model 0 m
      pub rest : FollowersOf 1 fs

  abbrev pub IsFollower : Worker F → ℕ → Worker F → Type 0
  IsFollower w = FollowerOf w.param_names w.param_numels w.num_fragments w.sync_every w.model

  abbrev pub AreFollowers : Worker F → ℕ → List (Worker F) → Type 0
  AreFollowers w = FollowersOf w.param_names w.param_numels w.num_fragments w.sync_every w.model

  -- The replica of these ranks stands for the worker; its lead is the worker with the first part of the
  -- model.
  abbrev pub StandFor : Worker F → Params F → List (Worker F) → Type 0
  StandFor w = Standing w.param_names w.param_numels w.num_fragments w.sync_every w.model

  map-value-parts :
      (w : Worker F) (i : ℕ) (fs : List (Worker F)) (n : String) (p : List F)
      → AreFollowers w i fs
      → contains n w.param_names ≡ true
      → lookup n w.model ≡ some p
      → map (λ f. value f.model n) fs ≡ parts_of pl n p i (length fs)
  map-value-parts w i [] n p all c h = refl
  map-value-parts w i (f ∷ fs) n p all c h =
      cc (ap or_empty (all.0.part.at n p c h), map-value-parts w (suc i) fs n p all.1 c h)

  module _ (t : Torch F) (lerp : List F → List F → List F) (w : Worker F) (m : Params F)
      (fs : List (Worker F)) (law : IsPlacement pl lerp (suc (length fs)) Fits)
      (h : StandFor w m fs) where
    full_value-value :
        (n : String)
        → contains n w.param_names ≡ true
        → full_value t pl (over_ranks w m fs) n ≡ value w.model n
    full_value-value n c =
        let (p, has, fits) = h.whole.at n c in
        let lead_part : value m n ≡ pl.own 0 n p = ap or_empty (h.first.at n p c has) in
        let other_parts = map-value-parts w 1 fs n p h.rest c has in
        ap (λ v. pl.full_tensor n (v ∷ map (λ f. value f.model n) fs)) lead_part
        ∙ ap (λ vs. pl.full_tensor n (pl.own 0 n p ∷ vs)) other_parts
        ∙ law.full_parts n p fits
        ∙ sym (ap or_empty has)

    gathered_names :
        (ns : List String)
        → ((n : String) → contains n ns ≡ true → contains n w.param_names ≡ true)
        → map
            (λ n. sub_tensor t (value w.global_params n) (full_value t pl (over_ranks w m fs) n))
            ns
          ≡ map (λ n. sub_tensor t (value w.global_params n) (value w.model n)) ns
    unfolding contains
    gathered_names [] within = refl
    gathered_names (n ∷ ns) within = cc (
      full_value-value n (within n (rw (beq_refl n) refl)),
      gathered_names ns (λ k c. within k (ground (arith, c))),
    )

    -- What is gathered is what the worker would push.
    pub gathered-eq-pseudo_grad : gathered t pl (over_ranks w m fs) ≡ pseudo_grad t w none
    unfolding gathered pseudo_grad
    gathered-eq-pseudo_grad = ap concat (gathered_names w.param_names (λ n c. c))
