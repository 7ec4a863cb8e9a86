-- ===== src/Tests/Fetching.antt =====
-- A relay client with two relays.
use panofabric_engine.Prelude.{
  ℕ, ◌+◌, ◌-◌, ◌*◌, ◌/◌, ◌≡◌, ◌⊎◌, refl, inl, inr, String, true, none, some, List, [], ◌∷◌, arith,
  ltb, if◌then◌else◌, length, string_eq, nat_eq,
}
use panofabric_engine.Prelude.Result.{ok}
use panofabric_engine.Prelude.Dict.{Dict, contains, lookup}
use panofabric_engine.Relay.Sharding.{CheckpointManifest, shard_state_dict, build_manifest}
use panofabric_engine.Relay.Store.{RelayServer}
use panofabric_engine.Relay.Store.Eviction.{IsValid}
use panofabric_engine.Relay.Client.{
  Floats, Random, IsRandom, RelayClient, Relays, missing, got, fetch_latest, try_relay,
}
use panofabric_engine.Relay.Client.Publish.{publish, relays_of}
use panofabric_engine.Relay.Client.Search.{Skips, Offers, Returns, fetch_latest-Returns}
use panofabric_engine.Relay.Client.Delivery.{IsReady, fetch_latest-publish}
use panofabric_engine.Tests.Samples.{one_of_two}
use panofabric_engine.Tests.Relaying.{Bytes, codec, state_dict}

abbrev floats : Floats ℕ
floats = record {
  zero = 0;
  one = 1;
  ema_alpha = 1;
  of_nat = λ n. n;
  add = λ x y. x + y;
  sub = λ x y. x - y;
  mul = λ x y. x * y;
  div = λ x y. x / y;
  less = ltb;
}

-- The last candidate.
abbrev rng : Random ℕ ℕ
rng = record { choice = λ g n. (n - 1, g); choices = λ g ws. (length ws - 1, g) }

rng-IsRandom : IsRandom rng
rng-IsRandom = record {
  choice_lt = λ g n h. omega (arith, h);
  choices_lt = λ g ws h. omega (arith, h);
}

abbrev client : RelayClient ℕ
client = record { relay_urls = "east" ∷ "west" ∷ []; success_rate = []; bandwidth = [] }

abbrev empty_store : RelayServer Bytes
empty_store = record { retain_last = 5; shards = []; manifests = [] }

abbrev stores : Dict String (RelayServer Bytes)
stores = ("west", empty_store) ∷ ("east", empty_store) ∷ []

empty-IsValid : IsValid empty_store
empty-IsValid = record { distinct = tt; same = λ v. refl }

stores-IsReady : (url : String) → contains url client.relay_urls ≡ true → IsReady stores 3 url
unfolding lookup contains
stores-IsReady url e =
    one_of_two "east" "west" (IsReady stores 3) url e
      (record {
        store = empty_store;
        present = refl;
        valid = empty-IsValid;
        keeps = omega arith;
        newest = λ w h. cc;
      })
      (record {
        store = empty_store;
        present = refl;
        valid = empty-IsValid;
        keeps = omega arith;
        newest = λ w h. cc;
      })

fetch_latest-publish_example :
    (shards : List Bytes) × (shard_state_dict codec state_dict 2 ≡ ok shards)
    × (let published = publish stores client.relay_urls 3 shards (build_manifest codec 3 shards) in
        (published.1 ≡ ok tt)
        × ((r : Bytes) × ((fetch_latest floats codec
                (relays_of published.0 (λ _. 1))
                rng
                client
                0
                2).0
              ≡ ok (some (3, r)))
            × ((k : String) → lookup k r ≡ lookup k state_dict)))
unfolding contains
fetch_latest-publish_example =
    fetch_latest-publish floats rng rng-IsRandom codec (λ d. refl) client 0 stores (λ _. 1)
      state_dict 2 3 2 (omega arith) (omega arith) (omega arith) (refl, (refl, tt)) stores-IsReady

-- The first relay has a checkpoint of one shard, and the other one has none.
abbrev manifest : CheckpointManifest
manifest = record { version = 4; num_shards = 1; shard_checksums = "wq" ∷ []; shard_sizes = 1 ∷ [] }

abbrev relays : Relays Bytes
relays = record {
  latest = λ url. if string_eq.beq url "east" then got manifest else missing;
  shard = λ url version idx. got (("wq", 8) ∷ []);
  elapsed = λ url. 1;
}

east : Offers floats rng rng-IsRandom codec relays 2 "east" 4 (("wq", 8) ∷ [])
unfolding try_relay
east c = refl

west : Skips floats rng rng-IsRandom codec relays 2 "west"
unfolding try_relay
west c = refl

fetch_latest-Returns_example :
    Returns floats rng rng-IsRandom codec relays 2 client.relay_urls
      (fetch_latest floats codec relays rng client 0 2).0
    ⊎ (((fetch_latest floats codec relays rng client 0 2).0 ≡ ok none)
        × ((url : String)
            → contains url client.relay_urls ≡ true
            → Skips floats rng rng-IsRandom codec relays 2 url))
fetch_latest-Returns_example =
    fetch_latest-Returns floats rng rng-IsRandom codec relays 2 client 0 (λ url e.
      one_of_two "east" "west"
        (λ u.
          Skips floats rng rng-IsRandom codec relays 2 u
          ⊎ ((v : ℕ) × (d : Bytes) × Offers floats rng rng-IsRandom codec relays 2 u v d))
        url e (inr (4, _, east)) (inl west))
