-- ===== src/Relay/Client.antt =====
-- `RelayClient`: the rates of the relays, the weighted choice, `publish` and `fetch_latest`. The relays
-- answer a fetch as they are when it starts, a network error and a status are values, and `random` and
-- the arithmetic of floats are parameters. A manifest that is no JSON is left out.
pub mod Publish
pub mod Search
pub mod Holding
pub mod Delivery
use panofabric_engine.Prelude.{
  ℕ, zero, suc, ◌+◌, ◌<◌, ◌≡◌, String, Bool, true, false, not, Option, none, some, List, [], ◌∷◌,
  map, ltb, ◌==◌, if◌then◌else◌, nat_eq, string_eq, length, get_or, sum,
}
use panofabric_engine.Prelude.Result.{Result, ok, err, Error, integrity_error, io_error}
use panofabric_engine.Prelude.Dict.{Dict, lookup, insert}
use panofabric_engine.Relay.Sharding.{Codec, CheckpointManifest, reassemble_state_dict}

-- Python's floats, and `_EMA_ALPHA`.
pub record Floats (F : Type 0) : Type 0 where
  pub zero : F
  pub one : F
  pub ema_alpha : F
  pub of_nat : ℕ → F
  pub add : F → F → F
  pub sub : F → F → F
  pub mul : F → F → F
  pub div : F → F → F
  pub less : F → F → Bool

-- `random.Random`, with the position that `choice` and `choices` take of so many candidates.
pub record Random (F G : Type 0) : Type 0 where
  pub choice : G → ℕ → ℕ × G
  pub choices : G → List F → ℕ × G

-- What is documented of them: a position of the candidates.
pub record IsRandom {F G : Type 0} (rng : Random F G) : Type 0 where
  pub choice_lt : (g : G) (n : ℕ) → 0 < n → (rng.choice g n).0 < n
  pub choices_lt : (g : G) (ws : List F) → 0 < length ws → (rng.choices g ws).0 < length ws

pub record RelayClient (F : Type 0) : Type 0 where
  pub relay_urls : List String
  pub success_rate : Dict String F
  pub bandwidth : Dict String F

-- What a GET comes to: a 404, another failure, or a 200 with its content.
pub data Got (A : Type 0) : Type 0 where
  missing : Got A
  broken : Got A
  got : A → Got A

-- The relays as a fetch finds them, and the time that the shards of one take.
pub record Relays (Bytes : Type 0) : Type 0 where
  pub latest : String → Got CheckpointManifest
  pub shard : String → ℕ → ℕ → Got Bytes
  pub elapsed : String → ℕ

-- What `fetch_latest` does after one relay: the next one, a return, or an exception.
pub data Tried (D : Type 0) : Type 0 where
  next : Tried D
  found : ℕ → D → Tried D
  raised : Error → Tried D

-- `remaining.remove(url)`
unfoldable pub remove_first : String → List String → List String
remove_first url [] = []
remove_first url (u ∷ us) =
    let rest = remove_first url us in if string_eq.beq u url then us else u ∷ rest

module _ {F : Type 0} (fl : Floats F) where
  -- `self._success_rate[url]`; every relay has an entry.
  abbrev pub rate : Dict String F → String → F
  rate rates url = elim (lookup url rates) [ none ↦ fl.one | some r ↦ r ]

  -- `(1 - _EMA_ALPHA) * old`
  abbrev pub decayed : F → F
  decayed old = fl.mul (fl.sub fl.one fl.ema_alpha) old

  unfoldable pub record_success : RelayClient F → String → ℕ → ℕ → RelayClient F
  unfolding lookup insert
  record_success c url num_bytes elapsed = record c {
    success_rate =
        insert url (fl.add fl.ema_alpha (decayed (rate c.success_rate url))) c.success_rate;
    bandwidth =
        if ltb 0 elapsed
        then (let observed = fl.div (fl.of_nat num_bytes) (fl.of_nat elapsed) in
            insert url (fl.add (fl.mul fl.ema_alpha observed) (decayed (rate c.bandwidth url)))
              c.bandwidth)
        else c.bandwidth;
  }

  unfoldable pub record_failure : RelayClient F → String → RelayClient F
  unfolding lookup insert
  record_failure c url = record c {
    success_rate = insert url (decayed (rate c.success_rate url)) c.success_rate;
  }

  abbrev pub weights : RelayClient F → List String → List F
  weights c candidates = map (λ u. fl.mul (rate c.success_rate u) (rate c.bandwidth u)) candidates

  unfoldable pub total : List F → F
  total [] = fl.zero
  total (w ∷ ws) = fl.add w (total ws)

  -- `_weighted_choice`, as a position of the candidates.
  unfoldable pub weighted_choice :
      {G : Type 0} → Random F G → RelayClient F → G → List String → ℕ × G
  unfolding lookup total
  weighted_choice rng c g candidates =
      if fl.less fl.zero (total (weights c candidates))
      then rng.choices g (weights c candidates)
      else rng.choice g (length candidates)

  module _ {Tensor Bytes : Type 0} (codec : Codec Tensor Bytes) (relays : Relays Bytes) where
    -- `_fetch_manifest`
    unfoldable pub fetch_manifest :
        RelayClient F → String → ℕ → RelayClient F × Option CheckpointManifest
    unfolding record_failure
    fetch_manifest c url min_version = elim (relays.latest url) [
      | missing ↦ (c, none)
      | broken ↦ (record_failure c url, none)
      | got m ↦ (c, if ltb min_version m.version then some m else none)
    ]

    -- The loop over the shards: `n` of them from `idx` on.
    unfoldable pub shard_loop : String → ℕ → ℕ → ℕ → Option (List Bytes)
    shard_loop url version idx zero = some []
    shard_loop url version idx (suc n) =
        let rest = shard_loop url version (idx + 1) n in
        elim (relays.shard url version idx) [
          | missing ↦ none
          | broken ↦ none
          | got bytes ↦ elim rest [ none ↦ none | some more ↦ some (bytes ∷ more) ]
        ]

    -- `_fetch_shards`
    unfoldable pub fetch_shards :
        RelayClient F → String → CheckpointManifest → RelayClient F × Option (List Bytes)
    unfolding shard_loop record_success record_failure
    fetch_shards c url m = elim (shard_loop url m.version 0 m.num_shards) [
      | none ↦ (record_failure c url, none)
      | some shards ↦ (
        record_success c url (sum (map codec.byte_length shards)) (relays.elapsed url),
        some shards,
      )
    ]

    -- The handler around `reassemble_state_dict`.
    abbrev pub assembled :
        RelayClient F
        → String
        → ℕ
        → Result (Dict String Tensor)
        → RelayClient F × Tried (Dict String Tensor)
    assembled c url version (ok d) = (c, found version d)
    assembled c url version (err integrity_error) = (record_failure c url, next)
    assembled c url version (err e) = (c, raised e)

    -- The body of the loop of `fetch_latest` behind the shards, and behind the manifest.
    abbrev pub after_shards :
        String
        → CheckpointManifest
        → RelayClient F × Option (List Bytes)
        → RelayClient F × Tried (Dict String Tensor)
    after_shards url m (c, none) = (c, next)
    after_shards url m (c, some shards) =
        assembled c url m.version (reassemble_state_dict codec shards m)

    abbrev pub after_manifest :
        String
        → RelayClient F × Option CheckpointManifest
        → RelayClient F × Tried (Dict String Tensor)
    after_manifest url (c, none) = (c, next)
    after_manifest url (c, some m) = after_shards url m (fetch_shards c url m)

    unfoldable pub try_relay :
        RelayClient F → String → ℕ → RelayClient F × Tried (Dict String Tensor)
    unfolding fetch_manifest fetch_shards reassemble_state_dict record_failure
    try_relay c url min_version = after_manifest url (fetch_manifest c url min_version)

    module _ {G : Type 0} (rng : Random F G) where
      -- The loop of `fetch_latest`; each pass takes one relay out of `remaining`.
      unfoldable pub fetch_loop :
          ℕ
          → RelayClient F
          → G
          → List String
          → ℕ
          → Result (Option (ℕ × Dict String Tensor)) × RelayClient F × G
      unfolding weighted_choice remove_first try_relay
      fetch_loop zero c g remaining min_version = (ok none, c, g)
      fetch_loop (suc n) c g [] min_version = (ok none, c, g)
      fetch_loop (suc n) c g (u ∷ us) min_version =
          let (i, g') = weighted_choice rng c g (u ∷ us) in
          let url = get_or (u ∷ us) i "" in
          let (c', tried) = try_relay c url min_version in
          let rest = fetch_loop n c' g' (remove_first url (u ∷ us)) min_version in
          elim tried [
            | next ↦ rest
            | found version d ↦ (ok (some (version, d)), c', g')
            | raised e ↦ (err e, c', g')
          ]

      unfoldable pub fetch_latest :
          RelayClient F → G → ℕ → Result (Option (ℕ × Dict String Tensor)) × RelayClient F × G
      unfolding fetch_loop
      fetch_latest c g min_version = fetch_loop (length c.relay_urls) c g c.relay_urls min_version
