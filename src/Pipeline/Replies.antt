-- ===== src/Pipeline/Replies.antt =====
-- A call and the reply to it, in the dispatcher.
use rust_pipeline.Base.{ℕ, Text, true, Option, some, List, [], ◌∷◌, ◌≡◌, ◌≢◌, refl, ap, ◌∙◌, last?}
use rust_pipeline.Base.Result.{ok}
use rust_pipeline.Base.Split.{split, Free}
use rust_pipeline.Wire.Address.{Address, flat}
use rust_pipeline.Wire.Payload.{Payload}
use rust_pipeline.Registry.{ListenerRegistry}
use rust_pipeline.Thread.{ThreadRegistry, PruneResult, lookup, prune_for_response, extend_chain}
use rust_pipeline.Thread.Consistency.{IsConsistent, IsFresh}
use rust_pipeline.Thread.Pruning.{prune-extend_chain}
use rust_pipeline.Pipeline.Stages.{Codec, RoutedMsg}
use rust_pipeline.Pipeline.Dispatch.{
  Effects, CallKind, on_close, on_open, quiet, stamped, answer, call, respond_reply,
}
use rust_pipeline.Pipeline.Outcomes.{listener, extension, call_cases, reinject_sent}

module _ (codec : Codec) where
  -- What a reply does: the edge of its thread closes, and one envelope goes back.
  abbrev pub replied : ThreadRegistry → RoutedMsg → List ℕ → Effects
  replied threads msg raw = record {
    threads = threads;
    reinjected = raw ∷ [];
    events = on_close msg.envelope.meta.thread ∷ [];
  }

  pub answer_sent :
      (msg : RoutedMsg) (r : Option PruneResult × ThreadRegistry) (p : PruneResult)
      (threads : ThreadRegistry) (payload : Payload) (raw : List ℕ)
      → r ≡ (some p, threads)
      → codec.encode_envelope
          (stamped msg (flat msg.target_name) (flat p.target) p.thread_id payload)
        ≡ ok raw
      → answer codec msg r payload ≡ replied threads msg raw
  unfolding answer
  answer_sent msg r p threads payload raw e sent =
      ap (λ (q : Option PruneResult × ThreadRegistry). answer codec msg q payload) e
      ∙ reinject_sent codec
          (record (quiet threads) { events = on_close msg.envelope.meta.thread ∷ [] })
          (stamped msg (flat msg.target_name) (flat p.target) p.thread_id payload) raw sent

  -- A call and its reply. In a consistent thread registry, a listener on a known thread with a
  -- non-empty chain calls another one, whose name has no dot, with a uuid that is new; the callee,
  -- on the thread of that call, replies in a way that can be encoded. The call has opened one
  -- edge, on that thread. The reply goes to the last name of the caller's chain on the caller's
  -- own thread, closes the edge of the call's thread, draws no uuid, and leaves the threads as the
  -- call left them.
  pub reply-call :
      (registry : ListenerRegistry) (threads : ThreadRegistry) (fresh fresh' chain target : Text)
      (msg msg' : RoutedMsg) (kind : CallKind) (to : Address) (payload answer_payload : Payload)
      (raw : List ℕ)
      → IsConsistent threads
      → IsFresh threads fresh
      → lookup threads msg.envelope.meta.thread ≡ some chain
      → chain ≢ []
      → last? (split b'.' chain) ≡ some target
      → Free b'.' (listener to)
      → (call codec registry threads fresh msg kind to payload).1 ≡ true
      → msg'.envelope.meta.thread ≡ (extension codec registry threads fresh msg kind to payload).0
      → codec.encode_envelope (
          stamped msg'
            (flat msg'.target_name)
            (flat target)
            msg.envelope.meta.thread
            answer_payload)
        ≡ ok raw
      → let called = (call codec registry threads fresh msg kind to payload).0 in
        (called.events ≡ on_open msg.target_name (listener to) msg'.envelope.meta.thread kind ∷ [])
        × (respond_reply codec called.threads fresh' msg' answer_payload
            ≡ replied called.threads msg' raw)
  unfolding respond_reply
  reply-call registry threads fresh fresh' chain target msg msg' kind to payload payload' raw h f
        known ne last free made same sent =
      call_cases codec registry threads fresh msg kind to payload
        (λ r.
          r.1 ≡ true
          → (r.0.events ≡ on_open msg.target_name (listener to) msg'.envelope.meta.thread kind ∷ [])
            × (respond_reply codec r.0.threads fresh' msg' payload' ≡ replied r.0.threads msg' raw))
        (λ x e no. absurd cc) (λ x e e' no. absurd cc)
        (λ raw' e e' yes. (
          rw same refl,
          answer_sent msg' _ (record { target = target; thread_id = msg.envelope.meta.thread }) _
              payload' raw
              (ap
                  (λ (t : Text).
                    prune_for_response
                      (extend_chain threads msg.envelope.meta.thread (listener to) fresh).1 t
                      fresh')
                  same
                ∙ prune-extend_chain threads msg.envelope.meta.thread chain (listener to) fresh
                    fresh' target h f known ne free last)
              sent,
        ))
        made
