-- ===== src/Diloco/Sync/Payloads.antt =====
-- What a reply of `/sync` encodes, and what a delta is against.
use panofabric_engine.Prelude.{
  ℕ, ◌≡◌, refl, ◌⊎◌, inl, inr, Option, none, some, List, ◌&&◌, if◌then◌else◌, nat_eq, Bool-cases,
  Option-cases, arith,
}
use panofabric_engine.Prelude.Dict.{lookup}
use panofabric_engine.Diloco.Server.{Hooks}
use panofabric_engine.Diloco.Sync.{
  Header, Payload, delta, full_bf16, full_f32, SyncServer, is_whole, reply_payload,
}

-- What a delta is taken against.
abbrev pub base_of : {F : Type 0} → Payload F → Option (ℕ × List F)
base_of (delta k base flat) = some (k, base)
base_of (full_bf16 flat) = none
base_of (full_f32 flat) = none

-- The buffer that the payload encodes.
abbrev pub encoded : {F : Type 0} → Payload F → List F
encoded (delta k base flat) = flat
encoded (full_bf16 flat) = flat
encoded (full_f32 flat) = flat

module _ {F Opt : Type 0} (h : Hooks F Opt) where
  abbrev whole_payload : Header → List F → Payload F
  whole_payload hd flat = if hd.accept_bf16 then full_bf16 flat else full_f32 flat

  whole_payload-encoded : (hd : Header) (flat : List F) → encoded (whole_payload hd flat) ≡ flat
  whole_payload-encoded hd flat = ground arith

  whole_payload-base : (hd : Header) (flat : List F) → base_of (whole_payload hd flat) ≡ none
  whole_payload-base hd flat = ground arith

  -- A payload encodes the buffer of the reply. A delta is against what the ring has for the baseline
  -- that the header names.
  pub reply_payload-base :
      (s : SyncServer F Opt) (hd : Header) (flat : List F)
      → (encoded (reply_payload h s hd flat) ≡ flat)
        × ((base_of (reply_payload h s hd flat) ≡ none)
            ⊎ ((b : List F) × (lookup hd.baseline_revision s.served ≡ some b)
                × (base_of (reply_payload h s hd flat) ≡ some (hd.baseline_revision, b))))
  unfolding reply_payload
  reply_payload-base s hd flat = elim (Bool-cases (hd.accept_delta && is_whole h s hd)) [
    | inl e ↦ elim (Option-cases (lookup hd.baseline_revision s.served)) [
      | inl missing ↦
          rw (e, missing, reply_payload)
            (whole_payload-encoded hd flat, inl (whole_payload-base hd flat))
      | inr (base, found) ↦ rw (e, found, reply_payload) (refl, inr (base, refl, refl))
    ]
    | inr e ↦
        rw (e, reply_payload) (whole_payload-encoded hd flat, inl (whole_payload-base hd flat))
  ]
