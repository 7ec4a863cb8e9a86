-- ===== src/Worker/Replica/Adopts.antt =====
-- What the ranks of a replica install, against the worker that it stands for.
use panofabric_engine.Prelude.{
  ℕ, suc, ◌≡◌, refl, sym, ap, subst, ◌∙◌, String, Bool, true, false, Option, none, some, List, [],
  ◌∷◌, map, length, string_eq, if◌then◌else◌,
}
use panofabric_engine.Prelude.Dict.{Dict, keys, contains, Distinct, lookup}
use panofabric_engine.Diloco.Server.{Params}
use panofabric_engine.Worker.{Answer, Worker}
use panofabric_engine.Worker.Adopt.{
  Detached, copied, chunks, install, kept_of, adopt_global, apply_dylu,
}
use panofabric_engine.Worker.Adopt.Installs.{keys-chunks}
use panofabric_engine.Worker.Replica.{
  Placement, Replica, kept_shards, owned, adopt_follower, adopt_followers, adopt_replica,
}
use panofabric_engine.Worker.Replica.Copies.{
  lookup-map, keys-map, install-globals, merged, install-copied,
}
use panofabric_engine.Worker.Replica.Shards.{
  IsPlacement, IsWhole, IsPart, IsFollower, AreFollowers, StandFor, over_ranks,
}

module _ {F : Type 0} (pl : Placement F) (lerp : List F → List F → List F)
    (Fits : String → List F → Type 0) where
  -- The answer has a part of the parameter's shape for each name.
  pub record HasParts (w : Worker F) (flat : List F) : Type 0 where
    pub distinct : Distinct w.param_names
    pub sizes : length w.param_names ≡ length w.param_numels
    pub at :
        (n : String)
        → contains n w.param_names ≡ true
        → (c : List F) × (lookup n (chunks w.param_names w.param_numels flat) ≡ some c) × Fits n c

  module _ (world : ℕ) (law : IsPlacement pl lerp world Fits) where
    own-merged :
        (b : Bool) (i : ℕ) (n : String) (c p : List F)
        → Fits n c
        → Fits n p
        → pl.own i n (merged lerp b c p) ≡ merged lerp b (pl.own i n c) (pl.own i n p)
    own-merged true i n c p fc fp = law.own_lerp i n c p fc fp
    own-merged false i n c p fc fp = refl

    fits-merged :
        (b : Bool) (n : String) (c p : List F) → Fits n c → Fits n p → Fits n (merged lerp b c p)
    fits-merged true n c p fc fp = law.fits_lerp n c p fc fp
    fits-merged false n c p fc fp = fc

    abbrev pub copies : Bool → Params F → Option (Dict String (Detached F))
    copies b model = if b then some (map (λ (k, v). (k, copied v)) model) else none

    abbrev model_behind : Bool → Worker F → List F → Params F
    model_behind b w flat =
        (install lerp (kept_of (copies b w.model)) (chunks w.param_names w.param_numels flat)
          (w.global_params, w.model)).1

    parts-Distinct :
        (w : Worker F) (flat : List F)
        → HasParts w flat
        → Distinct (keys (chunks w.param_names w.param_numels flat))
    parts-Distinct w flat has =
        subst (λ (ks : List String). Distinct ks)
          (sym (keys-chunks w.param_names w.param_numels flat has.sizes)) has.distinct

    model_behind-IsWhole :
        (b : Bool) (w : Worker F) (flat : List F)
        → HasParts w flat
        → IsWhole pl Fits w.param_names w.model
        → IsWhole pl Fits w.param_names (model_behind b w flat)
    model_behind-IsWhole b w flat has whole = record {
      at = λ n e.
          let (c, part, fc) = has.at n e in
          let (p, had, fp) = whole.at n e in
          (
            merged lerp b c p,
            install-copied lerp b _ w.global_params w.model n c p (parts-Distinct w flat has) part
                had,
            fits-merged b n c p fc fp,
          );
    }

    -- Each rank's model behind the broadcasts is its part of the worker's.
    rank_model-IsPart :
        (b : Bool) (w : Worker F) (flat : List F) (i : ℕ) (local : Params F)
        → HasParts w flat
        → IsWhole pl Fits w.param_names w.model
        → IsPart pl Fits w.param_names w.model i local
        → IsPart pl Fits w.param_names
            (model_behind b w flat)
            i
            (install lerp
              (kept_of (copies b local))
              (owned pl i (chunks w.param_names w.param_numels flat))
              ([], local)).1
    rank_model-IsPart b w flat i local has whole part = record {
      at = λ n q e now.
          let (c, in_parts, fc) = has.at n e in
          let (p, had, fp) = whole.at n e in
          let parts = chunks w.param_names w.param_numels flat in
          let worker_has =
            install-copied lerp b parts w.global_params w.model n c p (parts-Distinct w flat has)
              in_parts had in
          let rank_has =
            install-copied lerp b (owned pl i parts) [] local n (pl.own i n c) (pl.own i n p)
              (subst (λ (ks : List String). Distinct ks)
                (sym (keys-map (λ k v. pl.own i k v) parts)) (parts-Distinct w flat has))
              (lookup-map (λ k v. pl.own i k v) parts n ∙ rw in_parts refl) (part.at n p e had) in
          let same : merged lerp b c p ≡ q = cc (worker_has, now) in
          rank_has ∙ ap some (sym (own-merged b i n c p fc fp) ∙ ap (pl.own i n) same);
    }

    adopt_follower-IsFollower :
        (b : Bool) (w : Worker F) (a : Answer F) (i : ℕ) (f : Worker F)
        → HasParts w a.flat_params
        → IsWhole pl Fits w.param_names w.model
        → IsFollower pl Fits w i f
        → IsFollower pl Fits
            (adopt_global lerp w a (copies b w.model))
            i
            (adopt_follower pl lerp i f a (if b then some (kept_shards f) else none))
    unfolding adopt_global apply_dylu
    adopt_follower-IsFollower b w a i f has whole h = record {
      part =
          subst
            (λ (ns : List String).
              IsPart pl Fits w.param_names (model_behind b w a.flat_params) i
                (install lerp (kept_of (copies b f.model))
                  (owned pl i (chunks ns f.param_numels a.flat_params)) ([], f.model)).1)
            (sym h.names_are)
            (subst
              (λ (ks : List ℕ).
                IsPart pl Fits w.param_names (model_behind b w a.flat_params) i
                  (install lerp (kept_of (copies b f.model))
                    (owned pl i (chunks w.param_names ks a.flat_params)) ([], f.model)).1)
              (sym h.numels_are) (rank_model-IsPart b w a.flat_params i f.model has whole h.part));
      names_are = h.names_are;
      numels_are = h.numels_are;
      fragments_are = h.fragments_are;
      cycle_is = cc (h.fragments_are, h.cycle_is);
    }

    adopt_followers-Are :
        (b : Bool) (w : Worker F) (a : Answer F) (i : ℕ) (fs : List (Worker F))
        → HasParts w a.flat_params
        → IsWhole pl Fits w.param_names w.model
        → AreFollowers pl Fits w i fs
        → AreFollowers pl Fits
            (adopt_global lerp w a (copies b w.model))
            i
            (adopt_followers pl lerp i fs a b)
    unfolding adopt_followers
    adopt_followers-Are b w a i [] has whole all = tt
    adopt_followers-Are b w a i (f ∷ fs) has whole all = (
      adopt_follower-IsFollower b w a i f has whole all.0,
      adopt_followers-Are b w a (suc i) fs has whole all.1,
    )

    -- A replica that stands for a worker, as an outcome of the replica and of the worker.
    abbrev pub Follows : {S : Type 0} → Replica F × S → Worker F × S → Type 0
    Follows r w =
        (m : Params F) × (fs : List (Worker F)) × (r ≡ (over_ranks w.0 m fs, w.1))
        × StandFor pl Fits w.0 m fs

    pub adopt_replica-Follows :
        {S : Type 0} (s : S) (b : Bool) (w : Worker F) (m : Params F) (fs : List (Worker F))
        (a : Answer F)
        → HasParts w a.flat_params
        → StandFor pl Fits w m fs
        → Follows
            (adopt_replica pl lerp (over_ranks w m fs) a b, s)
            (adopt_global lerp w a (copies b w.model), s)
    unfolding adopt_global adopt_replica apply_dylu
    adopt_replica-Follows s b w m fs a has h =
        let parts = chunks w.param_names w.param_numels a.flat_params in
        (
          _,
          adopt_followers pl lerp 1 fs a b,
          ap
              (λ (g : Params F). (
                record {
                  lead = record (adopt_global lerp w a (copies b w.model)) {
                    model = (install lerp (kept_of (copies b m)) (owned pl 0 parts) ([], m)).1;
                    global_params = g;
                  };
                  followers = adopt_followers pl lerp 1 fs a b;
                },
                s,
              ))
              (install-globals lerp (λ _. none) (kept_of (copies b w.model)) parts w.global_params
                [] w.model),
          record {
            whole = model_behind-IsWhole b w a.flat_params has h.whole;
            first = rank_model-IsPart b w a.flat_params 0 m has h.whole h.first;
            rest = adopt_followers-Are b w a 1 fs has h.whole h.rest;
          },
        )
