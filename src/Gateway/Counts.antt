-- ===== src/Gateway/Counts.antt =====
-- The in-flight counts against the requests that are open, over every interleaving.
use panofabric_engine.Prelude.{
  ℕ, ◌+◌, ◌-◌, ◌≤◌, ◌≡◌, refl, sym, ap, subst, ◌∙◌, inl, inr, String, Bool, true, false, some, List,
  [], ◌∷◌, ◌++◌, map, if◌then◌else◌, Bool-cases, Option-cases, arith, string_eq,
}
use panofabric_engine.Prelude.Dict.{Dict, contains, is_some, lookup, insert, lookup-insert}
use panofabric_engine.Prelude.Result.{ok}
use panofabric_engine.Gateway.{
  Gateway, get_default, fill, retarget, handle_reject, handle_begin, handle_fail, handle_finish,
  probe,
}

-- How often a target occurs.
unfoldable pub count : String → List String → ℕ
count t [] = 0
count t (u ∷ us) = let rest = count t us in if string_eq.beq u t then rest + 1 else rest

count-middle :
    (t u : String) (xs ys : List String)
    → count t (xs ++ u ∷ ys)
      ≡ (if string_eq.beq u t then count t (xs ++ ys) + 1 else count t (xs ++ ys))
unfolding count
count-middle t u [] ys = refl
count-middle t u (x ∷ xs) ys = ground (arith, count-middle t u xs ys)

pub lookup-fill :
    {A : Type 0} (f : String → A) (k : String) (acc : Dict String A) (ts : List String)
    → lookup k (fill f acc ts) ≡ (if contains k ts then some (f k) else lookup k acc)
unfolding fill contains
lookup-fill f k acc [] = refl
lookup-fill f k acc (t ∷ ts) = elim (Bool-cases (string_eq.beq t k)) [
  | inl same ↦
      let at : t ≡ k = (string_eq.beq_iff t k).0 same in
      ground
        (arith, same, ap f at, lookup-fill f k (insert t (f t) acc) ts, lookup-insert t k (f t) acc)
  | inr other ↦
      ground (arith, other, lookup-fill f k (insert t (f t) acc) ts, lookup-insert t k (f t) acc)
]

module _ (strip : String → String) where
  -- One section of the event loop, with the requests that are open before and after it. A request begins on
  -- any target: it was picked before an `await`.
  pub data GatewayStep : Gateway → List String → Gateway → List String → Type 0 where
    retargeted :
        {g g' : Gateway} {serving : List String} (ts : List String)
        → retarget strip g ts ≡ ok g'
        → GatewayStep g serving g' serving
    rejected :
        {g : Gateway} {serving : List String} → GatewayStep g serving (handle_reject g) serving
    began :
        {g : Gateway} {serving : List String} (t : String)
        → GatewayStep g serving (handle_begin g t) (t ∷ serving)
    failed :
        {g : Gateway} (xs ys : List String) (t : String)
        → GatewayStep g (xs ++ t ∷ ys) (handle_fail g t) (xs ++ t ∷ ys)
    finished :
        {g : Gateway} (xs ys : List String) (t : String)
        → GatewayStep g (xs ++ t ∷ ys) (handle_finish g t) (xs ++ ys)
    probed :
        {g : Gateway} {serving : List String} (t : String) (up : Bool)
        → GatewayStep g serving (probe g t up) serving

  -- Every count is at most the number of open requests to its target, and every target has a count
  -- and a health.
  pub record IsCounted (g : Gateway) (serving : List String) : Type 0 where
    pub counted : (t : String) → get_default (lookup t g.inflight) 0 ≤ count t serving
    pub has_count :
        (t : String) → contains t g.targets ≡ true → is_some (lookup t g.inflight) ≡ true
    pub has_health :
        (t : String) → contains t g.targets ≡ true → is_some (lookup t g.healthy) ≡ true

  retargeted-IsCounted :
      (g : Gateway) (serving clean : List String)
      → IsCounted g serving
      → IsCounted
          (record g {
            targets = clean;
            inflight = fill (λ u. get_default (lookup u g.inflight) 0) [] clean;
            healthy = fill (λ u. get_default (lookup u g.healthy) false) [] clean;
          })
          serving
  unfolding lookup
  retargeted-IsCounted g serving clean h = record {
    counted = λ t.
        ground
          (arith, lookup-fill (λ u. get_default (lookup u g.inflight) 0) t [] clean, h.counted t);
    has_count =
        λ t c. ground (arith, lookup-fill (λ u. get_default (lookup u g.inflight) 0) t [] clean);
    has_health =
        λ t c. ground (arith, lookup-fill (λ u. get_default (lookup u g.healthy) false) t [] clean);
  }

  began-IsCounted :
      (g : Gateway) (serving : List String) (u : String)
      → IsCounted g serving
      → IsCounted (handle_begin g u) (u ∷ serving)
  unfolding handle_begin count
  began-IsCounted g serving u h = record {
    counted = λ t. elim (Bool-cases (string_eq.beq u t)) [
      | inl same ↦
          let at : u ≡ t = (string_eq.beq_iff u t).0 same in
          rw (lookup-insert u t (get_default (lookup u g.inflight) 0 + 1) g.inflight, same)
            (omega (arith, h.counted t, ap (λ k. get_default (lookup k g.inflight) 0) at))
      | inr other ↦
          rw (lookup-insert u t (get_default (lookup u g.inflight) 0 + 1) g.inflight, other)
            (h.counted t)
    ];
    has_count = λ t c. ground (
      arith,
      lookup-insert u t (get_default (lookup u g.inflight) 0 + 1) g.inflight,
      h.has_count t c,
    );
    has_health = h.has_health;
  }

  failed-IsCounted :
      (g : Gateway) (serving : List String) (u : String)
      → IsCounted g serving
      → IsCounted (handle_fail g u) serving
  unfolding handle_fail
  failed-IsCounted g serving u h = record {
    counted = h.counted;
    has_count = h.has_count;
    has_health = λ t c. ground (arith, lookup-insert u t false g.healthy, h.has_health t c);
  }

  finished-IsCounted :
      (g : Gateway) (xs ys : List String) (u : String)
      → IsCounted g (xs ++ u ∷ ys)
      → IsCounted (handle_finish g u) (xs ++ ys)
  unfolding handle_finish
  finished-IsCounted g xs ys u h = elim (Option-cases (lookup u g.inflight)) [
    | inl gone ↦
        rw (gone, handle_finish)
          (record {
            counted = λ t. elim (Bool-cases (string_eq.beq u t)) [
              | inl same ↦
                  let at : u ≡ t = (string_eq.beq_iff u t).0 same in
                  let none_left : get_default (lookup t g.inflight) 0 ≡ 0 =
                    ap (λ o. get_default o 0) (ap (λ k. lookup k g.inflight) (sym at) ∙ gone) in
                  omega (arith, none_left)
              | inr other ↦ ground (arith, h.counted t, count-middle t u xs ys)
            ];
            has_count = h.has_count;
            has_health = h.has_health;
          })
    | inr (n, found) ↦
        rw (found, handle_finish)
          (record {
            counted = λ t. elim (Bool-cases (string_eq.beq u t)) [
              | inl same ↦
                  let at : u ≡ t = (string_eq.beq_iff u t).0 same in
                  let here : get_default (lookup t g.inflight) 0 ≡ n =
                    ap (λ o. get_default o 0) (ap (λ k. lookup k g.inflight) (sym at) ∙ found) in
                  ground (
                    arith,
                    h.counted t,
                    here,
                    count-middle t u xs ys,
                    lookup-insert u t (n - 1) g.inflight,
                  )
              | inr other ↦
                  ground (
                    arith,
                    h.counted t,
                    count-middle t u xs ys,
                    lookup-insert u t (n - 1) g.inflight,
                  )
            ];
            has_count =
                λ t c. ground (arith, lookup-insert u t (n - 1) g.inflight, h.has_count t c);
            has_health = h.has_health;
          })
  ]

  probed-IsCounted :
      (g : Gateway) (serving : List String) (u : String) (up : Bool)
      → IsCounted g serving
      → IsCounted (probe g u up) serving
  unfolding probe
  probed-IsCounted g serving u up h = elim (Option-cases (lookup u g.healthy)) [
    | inl gone ↦ rw (gone, probe) h
    | inr (b, found) ↦
        rw (found, probe)
          (record {
            counted = h.counted;
            has_count = h.has_count;
            has_health = λ t c. ground (arith, lookup-insert u t up g.healthy, h.has_health t c);
          })
  ]

  ok-eq : (x y : Gateway) → ok x ≡ ok y → x ≡ y
  ok-eq x y e = cc

  retarget-IsCounted :
      (g g' : Gateway) (serving ts : List String)
      → retarget strip g ts ≡ ok g'
      → IsCounted g serving
      → IsCounted g' serving
  unfolding retarget
  retarget-IsCounted g g' serving [] e h = cc
  retarget-IsCounted g g' serving (t ∷ ts) e h =
      subst (λ g. IsCounted g serving) (ok-eq _ g' e)
        (retargeted-IsCounted g serving (map strip (t ∷ ts)) h)

  -- In every section of the event loop, in any order: no target's count exceeds the number of requests open
  -- on it, whatever targets came and went meanwhile, and every target keeps a count and a health.
  pub GatewayStep-IsCounted :
      {g g' : Gateway} {serving serving' : List String}
      → GatewayStep g serving g' serving'
      → IsCounted g serving
      → IsCounted g' serving'
  GatewayStep-IsCounted (retargeted ts e) h = retarget-IsCounted _ _ _ ts e h
  GatewayStep-IsCounted rejected h =
      unfold handle_reject in
      record { counted = h.counted; has_count = h.has_count; has_health = h.has_health }
  GatewayStep-IsCounted (began t) h = began-IsCounted _ _ t h
  GatewayStep-IsCounted (failed xs ys t) h = failed-IsCounted _ _ t h
  GatewayStep-IsCounted (finished xs ys t) h = finished-IsCounted _ xs ys t h
  GatewayStep-IsCounted (probed t up) h = probed-IsCounted _ _ t up h
