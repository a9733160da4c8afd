-- ===== src/Pipeline/Stamps.antt =====
-- What goes back to ingress carries the pipeline's own sender and the inbound provenance, whatever the
-- handler and the middleware answer.
use rust_pipeline.Base.{
  ℕ, Text, ascii, Option, none, some, List, [], ◌∷◌, ◌≡◌, refl, ◌⊎◌, inl, inr, All, All-append,
  Option-cases,
}
use rust_pipeline.Base.Result.{ok, err, Result-cases}
use rust_pipeline.Wire.Address.{Address, flat}
use rust_pipeline.Wire.Payload.{Envelope, Payload}
use rust_pipeline.Handler.{HandlerResponse, HandlerResult, send, spawn, reply, Middleware}
use rust_pipeline.Registry.{ListenerRegistry, get_handler}
use rust_pipeline.Thread.{ThreadRegistry, PruneResult}
use rust_pipeline.Pipeline.Stages.{Codec, RoutedMsg}
use rust_pipeline.Pipeline.Outcomes.{listener, call_envelope, call_cases}
use rust_pipeline.Pipeline.Dispatch.{
  Effects, CallKind, on_close, quiet, stamped, handle, reinject, answer, call, spawn_ack, ack,
  respond, process_message,
}

module _ (codec : Codec) (msg : RoutedMsg) where
  -- The handler's listener is the sender; or the envelope is the acknowledgement of a spawn, which
  -- goes to that listener itself, on its own thread.
  abbrev pub IsSentBy : Envelope → Type 0
  IsSentBy env =
      (env.meta.from ≡ flat msg.target_name)
      ⊎ ((env.payload.tag ≡ ascii "SpawnAck")
          × (env.meta.to ≡ some (flat msg.target_name))
          × (env.meta.thread ≡ msg.envelope.meta.thread))

  -- The bytes encode such an envelope, with the provenance of the message.
  abbrev pub IsStamped : List ℕ → Type 0
  IsStamped raw =
      (env : Envelope) × (codec.encode_envelope env ≡ ok raw)
      × (env.meta.provenance ≡ msg.envelope.meta.provenance)
      × IsSentBy env

  reinject-IsStamped :
      (eff : Effects) (env : Envelope)
      → All IsStamped eff.reinjected
      → env.meta.provenance ≡ msg.envelope.meta.provenance
      → IsSentBy env
      → All IsStamped (reinject codec eff env).reinjected
  unfolding reinject
  reinject-IsStamped eff env before p s = elim (Result-cases (codec.encode_envelope env)) [
    | inl (raw, e) ↦
        rw (e, reinject)
          (All-append IsStamped eff.reinjected (raw ∷ []) before ((env, e, p, s), tt))
    | inr (x, e) ↦ rw (e, reinject) before
  ]

  answer-IsStamped :
      (r : Option PruneResult × ThreadRegistry) (payload : Payload)
      → All IsStamped (answer codec msg r payload).reinjected
  unfolding answer
  answer-IsStamped (none, threads) payload = tt
  answer-IsStamped (some p, threads) payload =
      reinject-IsStamped
        (record (quiet threads) { events = on_close msg.envelope.meta.thread ∷ [] })
        (stamped msg (flat msg.target_name) (flat p.target) p.thread_id payload) tt refl (inl refl)

  module _ (registry : ListenerRegistry) (threads : ThreadRegistry) (fresh : Text) where
    call-IsStamped :
        (kind : CallKind) (to : Address) (payload : Payload)
        → All IsStamped (call codec registry threads fresh msg kind to payload).0.reinjected
    call-IsStamped kind to payload =
        call_cases codec registry threads fresh msg kind to payload
          (λ r. All IsStamped r.0.reinjected) (λ x e. tt) (λ x e e'. tt)
          λ raw e e'. (
            (call_envelope codec registry threads fresh msg kind to payload, e', refl, inl refl),
            tt,
          )

    respond-IsStamped :
        (r : HandlerResult) → All IsStamped (respond codec registry threads fresh msg r).reinjected
    unfolding respond
    respond-IsStamped (ok HandlerResponse.none) = answer-IsStamped _ ack
    respond-IsStamped (ok (reply payload)) = answer-IsStamped _ payload
    respond-IsStamped (ok (spawn to payload)) =
        reinject-IsStamped (call codec registry threads fresh msg CallKind.async to payload).0
          (stamped msg (flat (listener to)) (flat msg.target_name) msg.envelope.meta.thread
            (spawn_ack (call codec registry threads fresh msg CallKind.async to payload).1))
          (call-IsStamped CallKind.async to payload) refl (inr (refl, refl, refl))
    respond-IsStamped (ok (send to payload)) = call-IsStamped CallKind.sync to payload
    respond-IsStamped (err e) = tt

    -- Whatever the listener's handler and the middleware answer, all that one message makes the
    -- pipeline send back to ingress encodes envelopes that carry the message's provenance unchanged,
    -- with the listener as their sender; the one exception is the acknowledgement of a spawn, which
    -- returns to the listener itself on the message's thread.
    pub process_message-IsStamped :
        (middleware : List Middleware)
        → All IsStamped (process_message codec registry middleware threads fresh msg).reinjected
    unfolding process_message
    process_message-IsStamped middleware =
        elim (Option-cases (get_handler registry msg.target_name)) [
          | inl e ↦ rw (e, process_message) tt
          | inr (run, e) ↦ rw (e, process_message) (respond-IsStamped (handle middleware run msg))
        ]
