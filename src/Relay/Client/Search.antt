-- ===== src/Relay/Client/Search.antt =====
-- `fetch_latest`: the order of the relays is random, but not whether one is found.
use panofabric_engine.Prelude.{
  ℕ, zero, suc, ◌+◌, ◌≤◌, ◌<◌, ◌≡◌, refl, ap, subst, ◌⊎◌, inl, inr, String, true, Option, none,
  some, List, [], ◌∷◌, map, arith, if◌then◌else◌, string_eq, length, get_or, Bool-cases,
}
use panofabric_engine.Prelude.Result.{Result, ok}
use panofabric_engine.Prelude.Dict.{Dict, contains, beq_refl}
use panofabric_engine.Relay.Sharding.{Codec}
use panofabric_engine.Relay.Client.{
  Floats, Random, IsRandom, RelayClient, Relays, next, found, remove_first, weights, total,
  weighted_choice, try_relay, fetch_loop, fetch_latest,
}

contains-get_or :
    (us : List String) (i : ℕ) (d : String) → i < length us → contains (get_or us i d) us ≡ true
unfolding contains
contains-get_or [] i d h = absurd (omega arith)
contains-get_or (u ∷ us) zero d h = rw (beq_refl u) refl
contains-get_or (u ∷ us) (suc i) d h = ground (arith, contains-get_or us i d (omega arith))

length-remove_first :
    (url : String) (us : List String)
    → contains url us ≡ true
    → length us ≡ length (remove_first url us) + 1
unfolding contains remove_first
length-remove_first url [] h = cc
length-remove_first url (u ∷ us) h = ground (arith, length-remove_first url us)

contains-remove_first :
    (url v : String) (us : List String)
    → contains v us
      ≡ (if string_eq.beq url v then contains v us else contains v (remove_first url us))
unfolding contains remove_first
contains-remove_first url v [] = ground arith
contains-remove_first url v (u ∷ us) =
    ground (arith, contains-remove_first url v us, string_eq.beq_iff u url, string_eq.beq_iff u v)

contains-of_remove_first :
    (url v : String) (us : List String)
    → contains v (remove_first url us) ≡ true
    → contains v us ≡ true
unfolding contains remove_first
contains-of_remove_first url v [] h = cc
contains-of_remove_first url v (u ∷ us) h = ground (arith, contains-of_remove_first url v us)

length-map : {A B : Type 0} (f : A → B) (xs : List A) → length (map f xs) ≡ length xs
length-map f [] = refl
length-map f (x ∷ xs) = ap suc (length-map f xs)

module _ {F G : Type 0} (fl : Floats F) (rng : Random F G) (law : IsRandom rng) where
  weighted_choice_lt :
      (c : RelayClient F) (g : G) (us : List String)
      → 0 < length us
      → (weighted_choice fl rng c g us).0 < length us
  unfolding weighted_choice
  weighted_choice_lt c g us h = elim (Bool-cases (fl.less fl.zero (total fl (weights fl c us)))) [
    | inl e ↦
        let same : length (weights fl c us) ≡ length us = length-map _ us in
        rw e (omega (arith, law.choices_lt g (weights fl c us) (omega (arith, same, h)), same))
    | inr e ↦ rw e (law.choice_lt g (length us) h)
  ]

  module _ {Tensor Bytes : Type 0} (codec : Codec Tensor Bytes) (relays : Relays Bytes)
      (min_version : ℕ) where
    -- The relay has nothing for the client, whatever the rates.
    abbrev pub Skips : String → Type 0
    Skips url = (c : RelayClient F) → (try_relay fl codec relays c url min_version).1 ≡ next

    -- The relay gives this version of a state dict.
    abbrev pub Offers : String → ℕ → Dict String Tensor → Type 0
    Offers url v d =
        (c : RelayClient F) → (try_relay fl codec relays c url min_version).1 ≡ found v d

    -- A return of what some relay of the list offers.
    abbrev pub Returns : List String → Result (Option (ℕ × Dict String Tensor)) → Type 0
    Returns urls r =
        (url : String) × (v : ℕ) × (d : Dict String Tensor) × (contains url urls ≡ true)
        × Offers url v d
        × (r ≡ ok (some (v, d)))

    abbrev pub EachAnswers : List String → Type 0
    EachAnswers urls =
        (url : String)
        → contains url urls ≡ true
        → Skips url ⊎ ((v : ℕ) × (d : Dict String Tensor) × Offers url v d)

    -- What is chosen from a list.
    abbrev chosen : RelayClient F → G → List String → String
    chosen c g us = get_or us (weighted_choice fl rng c g us).0 ""

    contains-chosen :
        (c : RelayClient F) (g : G) (u : String) (us : List String)
        → contains (chosen c g (u ∷ us)) (u ∷ us) ≡ true
    contains-chosen c g u us =
        contains-get_or (u ∷ us) (weighted_choice fl rng c g (u ∷ us)).0 ""
          (weighted_choice_lt c g (u ∷ us) (omega arith))

    fetch_loop-Returns :
        (n : ℕ) (c : RelayClient F) (g : G) (urls : List String)
        → length urls ≤ n
        → EachAnswers urls
        → Returns urls (fetch_loop fl codec relays rng n c g urls min_version).0
          ⊎ (((fetch_loop fl codec relays rng n c g urls min_version).0 ≡ ok none)
              × ((url : String) → contains url urls ≡ true → Skips url))
    unfolding fetch_loop contains
    fetch_loop-Returns zero c g [] h each = inr (refl, λ url e. cc)
    fetch_loop-Returns zero c g (u ∷ us) h each = absurd (omega arith)
    fetch_loop-Returns (suc n) c g [] h each = inr (refl, λ url e. cc)
    fetch_loop-Returns (suc n) c g (u ∷ us) h each =
        let url = chosen c g (u ∷ us) in
        let within = contains-chosen c g u us in
        let shorter = length-remove_first url (u ∷ us) within in
        elim (each url within) [
          | inl skips ↦
              rw (fetch_loop, skips c)
                (elim (fetch_loop-Returns n (try_relay fl codec relays c url min_version).0
                  (weighted_choice fl rng c g (u ∷ us)).1 (remove_first url (u ∷ us))
                  (omega (arith, shorter, h))
                  (λ v e. each v (contains-of_remove_first url v (u ∷ us) e))) [
                    | inl (v, version, d, e, offers, is) ↦
                        inl (v, version, d, contains-of_remove_first url v (u ∷ us) e, offers, is)
                    | inr (is, none_left) ↦ inr (
                      is,
                      λ v e. elim (Bool-cases (string_eq.beq url v)) [
                        | inl same ↦
                            subst (λ (w : String). Skips w) ((string_eq.beq_iff url v).0 same) skips
                        | inr other ↦
                            let stays = contains-remove_first url v (u ∷ us) in
                            none_left v (ground (arith, stays, other, e))
                      ],
                    )
                  ])
          | inr (v, d, offers) ↦ inl (url, v, d, within, offers, rw (fetch_loop, offers c) refl)
        ]

    -- If each relay, whatever the rates, either has nothing for the client or gives a version, then
    -- `fetch_latest` returns what a relay of the list gives if there is one, and `None` only if there is
    -- none: in whatever order the random choices try them, no relay is left out.
    pub fetch_latest-Returns :
        (c : RelayClient F) (g : G)
        → EachAnswers c.relay_urls
        → Returns c.relay_urls (fetch_latest fl codec relays rng c g min_version).0
          ⊎ (((fetch_latest fl codec relays rng c g min_version).0 ≡ ok none)
              × ((url : String) → contains url c.relay_urls ≡ true → Skips url))
    unfolding fetch_latest
    fetch_latest-Returns c g each =
        fetch_loop-Returns (length c.relay_urls) c g c.relay_urls (omega arith) each
