-- ===== src/Diloco/Build.antt =====
-- `build_server` and the constructors' checks: which combinations of options make a server. Of the model
-- the sizes of its parameters are looked at; the numbers of the optimizers and the network options are
-- left out: they are passed on unchecked.
use panofabric_engine.Prelude.{
  ℕ, ◌≤◌, ◌<◌, ◌≡◌, refl, sym, ap, ◌∙◌, Bool, true, false, ◌&&◌, Option, none, some, List, ltb,
  if◌then◌else◌, arith,
}
use panofabric_engine.Prelude.Result.{Result, ok, err, value_error, ◌>>=◌, ◌>>◌, >>=-eq-ok}
use panofabric_engine.Diloco.Fragments.{Range, fragment_bounds}

pub data OuterMethod : Type 0 where
  heloco_method diloco_method mla_method : OuterMethod
  -- Any other text.
  other_method : OuterMethod

pub data OtherIslands : Type 0 where
  heloco_uncorrected : OtherIslands
  diloco_islands : OtherIslands
  unsupported : OtherIslands

pub record Options : Type 0 where
  pub outer_method : OuterMethod
  pub num_fragments : Option ℕ
  pub sync_workers : ℕ
  pub grace_period : ℕ
  pub has_rho : Bool
  pub known_scope : Bool
  pub other_islands_method : OtherIslands

-- The options that decide how a server handles a push.
pub record Built : Type 0 where
  pub method : OuterMethod
  pub fragments : ℕ
  pub frag_bounds : List Range
  pub workers : ℕ
  pub grace : ℕ
  pub other_islands : OtherIslands

-- `x is not None and x > 1`
abbrev pub is_fragmented : Option ℕ → Bool
is_fragmented none = false
is_fragmented (some n) = ltb 1 n

-- The argument is passed on only when it is above 1; the constructor's default is 1.
abbrev pub fragments_of : Option ℕ → ℕ
fragments_of none = 1
fragments_of (some n) = if ltb 1 n then n else 1

abbrev refuse : Bool → Result (Unit {0})
refuse bad = if bad then err value_error else ok tt

-- The constructor of `AsyncDiLoCoServer`, for a model with parameters of the given sizes.
unfoldable pub construct : Options → ℕ → List ℕ → Result Built
unfolding fragment_bounds
construct o n param_numels = do
  refuse (ltb 1 n && ltb 0 o.grace_period)
  refuse (ltb 0 o.sync_workers && ltb 0 o.grace_period)
  refuse (ltb 0 o.sync_workers && ltb 1 n)
  frag_bounds ← fragment_bounds param_numels n
  ok (record {
    method = o.outer_method;
    fragments = n;
    frag_bounds = frag_bounds;
    workers = o.sync_workers;
    grace = o.grace_period;
    other_islands = o.other_islands_method;
  })

-- The checks of one method, those of `HeLoCoServer` included.
unfoldable pub method_checks : Options → OuterMethod → Result (Unit {0})
method_checks o heloco_method = do
  if o.known_scope then ok tt else err value_error
  elim o.other_islands_method [
    | heloco_uncorrected ↦ ok tt
    | diloco_islands ↦ ok tt
    | unsupported ↦ err value_error
  ]
method_checks o diloco_method = refuse o.has_rho
method_checks o mla_method = refuse o.has_rho
method_checks o other_method = err value_error

abbrev pub is_heloco : OuterMethod → Bool
is_heloco heloco_method = true
is_heloco _ = false

unfoldable pub build_server : Options → List ℕ → Result Built
unfolding construct method_checks
build_server o param_numels = do
  if is_fragmented o.num_fragments
      then (if is_heloco o.outer_method then ok tt else err value_error)
      else ok tt
  refuse (ltb 0 o.sync_workers && is_fragmented o.num_fragments)
  method_checks o o.outer_method
  construct o (fragments_of o.num_fragments) param_numels

refuse-ok : (bad : Bool) {u : Unit {0}} → refuse bad ≡ ok u → bad ≡ false
refuse-ok true e = cc
refuse-ok false e = refl

fragments_of-fragmented : (x : Option ℕ) → ltb 1 (fragments_of x) ≡ true → is_fragmented x ≡ true
fragments_of-fragmented none e = cc
fragments_of-fragmented (some n) e = ground arith

fragments_of-least : (x : Option ℕ) → 1 ≤ fragments_of x
fragments_of-least none = omega arith
fragments_of-least (some n) = ground arith

-- What passed the constructor.
construct-ok :
    (o : Options) (n : ℕ) (param_numels : List ℕ) (b : Built)
    → construct o n param_numels ≡ ok b
    → (b.method ≡ o.outer_method)
      × (b.fragments ≡ n)
      × (b.workers ≡ o.sync_workers)
      × (b.grace ≡ o.grace_period)
      × ((ltb 1 n && ltb 0 o.grace_period) ≡ false)
      × ((ltb 0 o.sync_workers && ltb 0 o.grace_period) ≡ false)
      × ((ltb 0 o.sync_workers && ltb 1 n) ≡ false)
unfolding construct
construct-ok o n numels b e =
    let (_, first, e1) = >>=-eq-ok (refuse (ltb 1 n && ltb 0 o.grace_period)) _ e in
    let (_, second, e2) = >>=-eq-ok (refuse (ltb 0 o.sync_workers && ltb 0 o.grace_period)) _ e1 in
    let (_, third, e3) = >>=-eq-ok (refuse (ltb 0 o.sync_workers && ltb 1 n)) _ e2 in
    let (_, _, e4) = >>=-eq-ok (fragment_bounds numels n) _ e3 in
    let built = ok-eq _ _ e4 in
    (
      ap (λ b. b.method) (sym built),
      ap (λ b. b.fragments) (sym built),
      ap (λ b. b.workers) (sym built),
      ap (λ b. b.grace) (sym built),
      refuse-ok _ first,
      refuse-ok _ second,
      refuse-ok _ third,
    )
  where
    ok-eq : (x y : Built) → ok x ≡ ok y → x ≡ y
    ok-eq x y e = cc

-- A server that is built has at least one fragment, and batches pushes in one way at most: by fragments, which
-- only HeLoCo has, by a grace period, or by rounds.
pub build_server-exclusive :
    (o : Options) (param_numels : List ℕ) (b : Built)
    → build_server o param_numels ≡ ok b
    → (1 ≤ b.fragments)
      × (1 < b.fragments → (is_heloco b.method ≡ true) × (b.grace ≡ 0) × (b.workers ≡ 0))
      × (0 < b.workers → b.grace ≡ 0)
unfolding build_server construct method_checks
build_server-exclusive o numels b e =
    let (_, method, e1) =
      >>=-eq-ok
        (if is_fragmented o.num_fragments
          then (if is_heloco o.outer_method then ok tt else err value_error)
          else ok tt)
        _ e in
    let (_, _, e2) =
      >>=-eq-ok (refuse (ltb 0 o.sync_workers && is_fragmented o.num_fragments)) _ e1 in
    let (_, _, e3) = >>=-eq-ok (method_checks o o.outer_method) _ e2 in
    let (m, f, w, g, apart, rounds, whole) =
      construct-ok o (fragments_of o.num_fragments) numels b e3 in
    let checked : ltb 1 (fragments_of o.num_fragments) ≡ true → is_heloco o.outer_method ≡ true =
      λ many. ground (arith, fragments_of-fragmented o.num_fragments many, method) in
    (
      ground (arith, fragments_of-least o.num_fragments),
      λ many.
          let many' : ltb 1 (fragments_of o.num_fragments) ≡ true = ground arith in
          (
            ap is_heloco m ∙ checked many',
            ground (arith, many', apart),
            ground (arith, many', whole),
          ),
      λ some_workers. ground (arith, rounds),
    )
