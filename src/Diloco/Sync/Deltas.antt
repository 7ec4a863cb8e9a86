-- ===== src/Diloco/Sync/Deltas.antt =====
-- Delta downloads of a server whose islands are all sent one variant of the snapshot.
use panofabric_engine.Prelude.{
  ℕ, ◌≡◌, sym, ap, subst, ◌∙◌, inl, inr, true, none, some, List, [], if◌then◌else◌, nat_eq,
  Option-cases, arith,
}
use panofabric_engine.Prelude.Dict.{lookup}
use panofabric_engine.Prelude.Result.{ok, >>=-eq-ok}
use panofabric_engine.Diloco.Server.{Hooks, IsLocal, Server, Params, Island, frag_names, built_flat}
use panofabric_engine.Diloco.Server.Coherence.{built_flat-variant}
use panofabric_engine.Diloco.Sync.{
  Header, Layout, Reply, Payload, SyncServer, check_push, handle_sync, scope, is_whole,
  reply_payload, remember, do_post,
}
use panofabric_engine.Diloco.Sync.Requests.{
  IsSound, target, Covers, reply_island, handle_sync-target,
}
use panofabric_engine.Diloco.Sync.Payloads.{base_of, encoded, reply_payload-base}
use panofabric_engine.Diloco.Sync.Served.{
  current, IsTracked, Holds, target-cases, HandledAs, after, after-IsTracked, after-Holds,
  remember-is_whole, remember-model, replied-Holds,
}

module _ {F Opt : Type 0} (h : Hooks F Opt) (law : IsLocal h)
    (one : (i : Island) → h.variant i ≡ h.variant none) where
  is_whole-scope : (s : SyncServer F Opt) (hd : Header) → is_whole h s hd ≡ true → scope h hd ≡ none
  is_whole-scope s hd e = elim (Option-cases (scope h hd)) [
    | inl n ↦ n
    | inr (f, p) ↦ ground (arith, rw (p, is_whole) at e)
  ]

  handled :
      (s : SyncServer F Opt) (now : ℕ) (hd : Header) (grads : Params F)
      → IsSound h s.model
      → Covers h s.model hd grads
      → HandledAs h s (handle_sync h s now hd grads).2 hd (handle_sync h s now hd grads).1
  unfolding built_flat frag_names
  handled s now hd grads k c =
      let ((cache, model), sound, revision, applied, buffer, served) =
        handle_sync-target h law s now hd grads k c in
      let t : Server F Opt = target h s.model hd grads in
      record {
        served = served;
        moved = elim (target-cases h s.model hd grads) [
          | inl same ↦ inl (
            ap (λ m. m.revision) model ∙ ap (λ m. m.revision) same,
            ap (current h) model ∙ ap (current h) same,
          )
          | inr next ↦ inr (ap (λ m. m.revision) model ∙ next)
        ];
        buffer = λ w.
            buffer
            ∙ built_flat-variant h law t (reply_island h s.model hd) none _ (one _)
            ∙ ap (λ f. built_flat h t none (frag_names t f))
                (is_whole-scope (handle_sync h s now hd grads).2 hd w)
            ∙ sym (ap (current h) model);
      }

  -- What a request that succeeds returns.
  do_post-runs :
      (l : Layout) (s : SyncServer F Opt) (now : ℕ) (hd : Header) (grads : Params F)
      (out : Reply × Payload F × SyncServer F Opt)
      → do_post h l s now hd grads ≡ ok out
      → (let r = handle_sync h s now hd grads in
          (r.0, reply_payload h r.2 hd r.1, remember h r.2 hd r.0.revision r.1))
        ≡ out
  unfolding do_post
  do_post-runs l s now hd grads out e =
      let (_, _, same) = >>=-eq-ok (if hd.flag then check_push l hd else ok tt) _ e in cc

  -- The invariants after a request, of its reply, its payload and its state.
  abbrev Kept : SyncServer F Opt → Header → Reply × Payload F × SyncServer F Opt → Type 0
  Kept s hd (reply, payload, s') =
      IsSound h s'.model
      × IsTracked h s'
      × ((k : ℕ) (buffer : List F) → Holds h s k buffer → Holds h s' k buffer)
      × (is_whole h s' hd ≡ true → Holds h s' reply.revision (encoded payload))

  replied_revision :
      (s : SyncServer F Opt) (now : ℕ) (hd : Header) (grads : Params F)
      → IsSound h s.model
      → Covers h s.model hd grads
      → (handle_sync h s now hd grads).0.revision ≡ (handle_sync h s now hd grads).2.model.revision
  replied_revision s now hd grads k c =
      let p = handle_sync-target h law s now hd grads k c in p.2 ∙ sym (ap (λ m. m.revision) p.0.1)

  do_post-Kept :
      (s : SyncServer F Opt) (now : ℕ) (hd : Header) (grads : Params F)
      → IsSound h s.model
      → Covers h s.model hd grads
      → IsTracked h s
      → (let r = handle_sync h s now hd grads in
          Kept s hd (r.0, reply_payload h r.2 hd r.1, after h r.2 hd r.1))
  do_post-Kept s now hd grads k c tracked =
      let r = handle_sync h s now hd grads in
      let e = handled s now hd grads k c in
      let p = handle_sync-target h law s now hd grads k c in
      (
        subst (IsSound h) (sym (remember-model h r.2 hd r.2.model.revision r.1)) p.1,
        after-IsTracked h s r.2 hd r.1 e tracked,
        after-Holds h s r.2 hd r.1 e tracked,
        λ w.
            rw (replied_revision s now hd grads k c, (reply_payload-base h r.2 hd r.1).0)
              (replied-Holds h s r.2 hd r.1 e tracked (sym (remember-is_whole h r.2 hd r.1) ∙ w)),
      )

  -- Between requests of servers with one snapshot variant: a request that is answered on a sound
  -- model with a tracked ring leaves both so. Whatever a worker held before it still holds: its
  -- revision is not ahead of the server, its buffer is the model's if the revision is the current
  -- one, and no other buffer is in the ring under its revision. A worker that is sent the whole
  -- model holds the revision and the buffer of its reply.
  pub do_post-IsTracked :
      (l : Layout) (s : SyncServer F Opt) (now : ℕ) (hd : Header) (grads : Params F) (reply : Reply)
      (payload : Payload F) (s' : SyncServer F Opt)
      → IsSound h s.model
      → Covers h s.model hd grads
      → IsTracked h s
      → do_post h l s now hd grads ≡ ok (reply, payload, s')
      → IsSound h s'.model
        × IsTracked h s'
        × ((k : ℕ) (buffer : List F) → Holds h s k buffer → Holds h s' k buffer)
        × (is_whole h s' hd ≡ true → Holds h s' reply.revision (encoded payload))
  do_post-IsTracked l s now hd grads reply payload s' k c tracked e =
      let r = handle_sync h s now hd grads in
      subst (Kept s hd)
        (ap (λ n. (r.0, reply_payload h r.2 hd r.1, remember h r.2 hd n r.1))
            (sym (replied_revision s now hd grads k c))
          ∙ do_post-runs l s now hd grads _ e)
        (do_post-Kept s now hd grads k c tracked)

  -- A delta to a worker is against the buffer that it holds.
  Holds-delta :
      (l : Layout) (s : SyncServer F Opt) (now : ℕ) (hd : Header) (grads : Params F) (reply : Reply)
      (payload : Payload F) (s' : SyncServer F Opt) (buffer : List F) (k : ℕ) (base : List F)
      → IsSound h s.model
      → Covers h s.model hd grads
      → Holds h s hd.baseline_revision buffer
      → do_post h l s now hd grads ≡ ok (reply, payload, s')
      → base_of payload ≡ some (k, base)
      → (k ≡ hd.baseline_revision) × (base ≡ buffer)
  Holds-delta l s now hd grads reply payload s' buffer k base sound c holds e against =
      let r = handle_sync h s now hd grads in
      let sent : base_of (reply_payload h r.2 hd r.1) ≡ some (k, base) =
        ap (λ o. base_of o.1) (do_post-runs l s now hd grads _ e) ∙ against in
      elim (reply_payload-base h r.2 hd r.1).1 [
        | inl full ↦ cc
        | inr (b, found, is) ↦
            let same = holds.same b (
              ap (lookup hd.baseline_revision) (sym (handled s now hd grads sound c).served)
              ∙ found) in
            ground (arith, is, sent, same)
      ]

  IsTracked-start : (s : SyncServer F Opt) → s.served ≡ [] → IsTracked h s
  unfolding lookup
  IsTracked-start s empty = record {
    distinct = rw empty tt;
    known = λ k b found. cc (ap (lookup k) empty, found);
  }

  -- Requests that are answered one behind the other, by any workers.
  pub data Answered (l : Layout) (s : SyncServer F Opt) : SyncServer F Opt → Type 0 where
    here : Answered l s s
    next :
        {s1 : SyncServer F Opt} (now : ℕ) (hd : Header) (grads : Params F) (reply : Reply)
        (payload : Payload F) (s2 : SyncServer F Opt)
        → Answered l s s1
        → Covers h s1.model hd grads
        → do_post h l s1 now hd grads ≡ ok (reply, payload, s2)
        → Answered l s s2

  Answered-Holds :
      {l : Layout} {s s' : SyncServer F Opt}
      → IsSound h s.model
      → IsTracked h s
      → Answered l s s'
      → IsSound h s'.model
        × IsTracked h s'
        × ((k : ℕ) (buffer : List F) → Holds h s k buffer → Holds h s' k buffer)
  Answered-Holds k tracked here = (k, tracked, λ j buffer w. w)
  Answered-Holds {l} k tracked (next {s1} now hd grads reply payload s2 run c e) =
      let (k1, tracked1, kept1) = Answered-Holds k tracked run in
      let (k2, tracked2, kept2, _) =
        do_post-IsTracked l s1 now hd grads reply payload s2 k1 c tracked1 e in
      (k2, tracked2, λ j buffer w. kept2 j buffer (kept1 j buffer w))

  -- Take a server with one snapshot variant and hooks as `IsLocal` has them, that starts sound and with an empty
  -- ring. After any answered requests one is answered with the whole model; after any further answered
  -- requests comes a request that names the revision of that reply as its baseline. If the new reply is a
  -- delta, it is against that revision and against exactly the buffer that the old reply encoded. Every
  -- push has gradients for the names of its fragment, and one without a fragment is for a server
  -- without fragments.
  pub do_post-delta :
      (l : Layout) (s s1 s2 s3 s4 : SyncServer F Opt) (now later : ℕ) (hd hd' : Header)
      (grads grads' : Params F) (reply reply' : Reply) (payload payload' : Payload F) (k : ℕ)
      (base : List F)
      → IsSound h s.model
      → s.served ≡ []
      → Answered l s s1
      → Covers h s1.model hd grads
      → do_post h l s1 now hd grads ≡ ok (reply, payload, s2)
      → is_whole h s2 hd ≡ true
      → Answered l s2 s3
      → Covers h s3.model hd' grads'
      → hd'.baseline_revision ≡ reply.revision
      → do_post h l s3 later hd' grads' ≡ ok (reply', payload', s4)
      → base_of payload' ≡ some (k, base)
      → (k ≡ reply.revision) × (base ≡ encoded payload)
  do_post-delta l s s1 s2 s3 s4 now later hd hd' grads grads' reply reply' payload payload' k base
        sound empty earlier c e whole between c' names e' against =
      let (sound1, tracked1, _) = Answered-Holds sound (IsTracked-start s empty) earlier in
      let (sound2, tracked2, _, holds) =
        do_post-IsTracked l s1 now hd grads reply payload s2 sound1 c tracked1 e in
      let (sound3, _, kept) = Answered-Holds sound2 tracked2 between in
      let held =
        subst (λ n. Holds h s3 n (encoded payload)) (sym names)
          (kept reply.revision (encoded payload) (holds whole)) in
      let (at, is) =
        Holds-delta l s3 later hd' grads' reply' payload' s4 (encoded payload) k base sound3 c' held
          e' against in
      (at ∙ names, is)
