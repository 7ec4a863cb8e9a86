-- ===== src/Diloco/Registry/Cohort.antt =====
-- What `/done` does to the count that the cohort gate compares.
use panofabric_engine.Prelude.{
  ℕ, ◌+◌, ◌≤◌, ◌≡◌, refl, sym, ap, ◌∙◌, inl, inr, String, Bool, true, false, [], ◌∷◌, Bool-cases,
  arith, length, string_eq,
}
use panofabric_engine.Prelude.Dict.{Dict, keys, contains, Distinct, insert, remove, keep_entries}
use panofabric_engine.Diloco.Registry.{
  Registry, is_alive, heartbeat, done, active_workers, worker_count, cohort_count,
}

module _ (p : String → ℕ → Bool) (w : String) where
  remove-absent : (d : Dict String ℕ) → contains w (keys d) ≡ false → remove w d ≡ d
  unfolding contains remove
  remove-absent [] h = refl
  remove-absent ((k, ts) ∷ d) h = elim (Bool-cases (string_eq.beq k w)) [
    | inl e ↦ ground (arith, e, h)
    | inr e ↦
        let later : contains w (keys d) ≡ false = ground (arith, e, h) in
        rw e (ap (λ r. (k, ts) ∷ r) (remove-absent d later))
  ]

  -- Leaving takes at most one of the kept entries away.
  length-remove :
      (d : Dict String ℕ)
      → Distinct (keys d)
      → length (keep_entries p d) ≤ length (keep_entries p (remove w d)) + 1
  unfolding remove keep_entries
  length-remove [] h = omega arith
  length-remove ((k, ts) ∷ d) h = elim (Bool-cases (string_eq.beq k w)) [
    | inl e ↦
        let at : k ≡ w = (string_eq.beq_iff k w).0 e in
        let absent : contains w (keys d) ≡ false = ap (λ j. contains j (keys d)) (sym at) ∙ h.0 in
        rw (e, remove-absent d absent) (ground arith)
    | inr e ↦ let rest = length-remove d h.1 in rw (e, keep_entries) (ground (arith, rest))
  ]

  contains-remove : (d : Dict String ℕ) → contains w (keys (remove w d)) ≡ false
  unfolding contains remove
  contains-remove [] = refl
  contains-remove ((k, ts) ∷ d) = ground (arith, contains-remove d)

  -- A new entry that is kept is one more.
  length-insert :
      (ts : ℕ) (d : Dict String ℕ)
      → contains w (keys d) ≡ false
      → p w ts ≡ true
      → length (keep_entries p (insert w ts d)) ≡ length (keep_entries p d) + 1
  unfolding contains insert keep_entries
  length-insert ts [] h kept = rw (kept, keep_entries) refl
  length-insert ts ((k, old) ∷ d) h kept = elim (Bool-cases (string_eq.beq k w)) [
    | inl e ↦ ground (arith, e, h)
    | inr e ↦
        let later : contains w (keys d) ≡ false = ground (arith, e, h) in
        rw (e, keep_entries) (ground (arith, length-insert ts d later kept))
  ]

-- `/done` of a worker that has not announced it before never lowers the count of the cohort gate, whether
-- the worker was active or silent. A heartbeat that arrives after it counts the worker once more while the
-- heartbeat is fresh.
pub cohort_count-done :
    (s : Registry) (at now : ℕ) (w : String)
    → Distinct (keys s.heartbeats)
    → contains w s.finished ≡ false
    → now ≤ at + s.heartbeat_timeout
    → (cohort_count s now ≤ cohort_count (done s w) now)
      × (cohort_count (heartbeat (done s w) at w) now ≡ cohort_count (done s w) now + 1)
unfolding cohort_count worker_count active_workers heartbeat done
cohort_count-done s at now w d new fresh =
    let left = length-remove (is_alive s now) w s.heartbeats d in
    let alive : is_alive s now w at ≡ true = ground arith in
    let again =
      length-insert (is_alive s now) w at (remove w s.heartbeats)
        (contains-remove (is_alive s now) w s.heartbeats) alive in
    rw new (omega (arith, left), omega (arith, again))
