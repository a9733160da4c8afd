-- ===== src/Pipeline/Threads.antt =====
-- The thread registry stays consistent whatever messages pass the route stage and the dispatcher.
use rust_pipeline.Base.{
  Text, Option, none, some, List, ◌≡◌, refl, inl, inr, Option-cases, Bool-cases,
}
use rust_pipeline.Base.Result.{ok, err, Result-cases}
use rust_pipeline.Wire.Address.{Address}
use rust_pipeline.Wire.Payload.{Envelope, Payload}
use rust_pipeline.Handler.{HandlerResponse, HandlerResult, send, spawn, reply, Middleware}
use rust_pipeline.Registry.{ListenerRegistry, get_handler}
use rust_pipeline.Federation.Directory.{PeerDirectory}
use rust_pipeline.Thread.{ThreadRegistry, PruneResult, extended, extend_chain, lookup}
use rust_pipeline.Thread.Consistency.{
  IsConsistent, IsFresh, get_or_create-IsConsistent, register_thread-IsConsistent,
  prune_for_response-IsConsistent,
}
use rust_pipeline.Pipeline.Stages.{
  Codec, ValidatedMsg, RoutedMsg, is_remote_destination, from_name, route_checks, ensure_registered,
  route_stage,
}
use rust_pipeline.Pipeline.Outcomes.{listener, call_cases}
use rust_pipeline.Pipeline.Dispatch.{
  Effects, CallKind, handle, reinject, answer, call, respond, process_message,
}

ensure_registered-IsConsistent :
    (lower : Text → Text) (threads : ThreadRegistry) (thread from target : Text)
    → IsConsistent threads
    → IsConsistent (ensure_registered lower threads thread from target)
unfolding ensure_registered
ensure_registered-IsConsistent lower threads thread from target h =
    elim (Option-cases (lookup threads thread)) [
      | inl e ↦
          rw (e, ensure_registered) (register_thread-IsConsistent threads thread from target h)
      | inr (c, e) ↦ rw (e, ensure_registered) h
    ]

-- Whatever the route stage does with a message, a consistent thread registry stays consistent.
pub route_stage-IsConsistent :
    (lower : Text → Text) (registry : ListenerRegistry) (federation : Option PeerDirectory)
    (threads : ThreadRegistry) (msg : ValidatedMsg)
    → IsConsistent threads
    → IsConsistent (route_stage lower registry federation threads msg).1
unfolding route_stage
route_stage-IsConsistent lower registry federation threads msg h =
    elim (Bool-cases (is_remote_destination federation msg.envelope)) [
      | inl e ↦ rw (e, route_stage) h
      | inr e ↦ elim (Result-cases (route_checks lower registry msg.envelope)) [
        | inr (x, e') ↦ rw (e, route_stage, e') h
        | inl (target, e') ↦
            rw (e, route_stage, e')
              (ensure_registered-IsConsistent lower threads msg.envelope.meta.thread
                (from_name msg.envelope) target h)
      ]
    ]

module _ (codec : Codec) (msg : RoutedMsg) where
  reinject-threads :
      (eff : Effects) (env : Envelope) → (reinject codec eff env).threads ≡ eff.threads
  unfolding reinject
  reinject-threads eff env = elim (Result-cases (codec.encode_envelope env)) [
    | inl (raw, e) ↦ rw (e, reinject) refl
    | inr (x, e) ↦ rw (e, reinject) refl
  ]

  answer-threads :
      (r : Option PruneResult × ThreadRegistry) (payload : Payload)
      → (answer codec msg r payload).threads ≡ r.1
  unfolding answer
  answer-threads (none, threads) payload = refl
  answer-threads (some p, threads) payload = reinject-threads _ _

  module _ (registry : ListenerRegistry) (threads : ThreadRegistry) (fresh : Text)
      (h : IsConsistent threads) (f : IsFresh threads fresh) where
    call-IsConsistent :
        (kind : CallKind) (to : Address) (payload : Payload)
        → IsConsistent (call codec registry threads fresh msg kind to payload).0.threads
    unfolding extend_chain
    call-IsConsistent kind to payload =
        let grown =
          get_or_create-IsConsistent threads
            (extended threads msg.envelope.meta.thread (listener to)) fresh h f in
        call_cases codec registry threads fresh msg kind to payload (λ r. IsConsistent r.0.threads)
          (λ x e. h) (λ x e e'. grown) (λ raw e e'. grown)

    respond-IsConsistent :
        (r : HandlerResult) → IsConsistent (respond codec registry threads fresh msg r).threads
    unfolding respond
    respond-IsConsistent (ok HandlerResponse.none) =
        rw (answer-threads)
          (prune_for_response-IsConsistent threads msg.envelope.meta.thread fresh h f)
    respond-IsConsistent (ok (reply payload)) =
        rw (answer-threads)
          (prune_for_response-IsConsistent threads msg.envelope.meta.thread fresh h f)
    respond-IsConsistent (ok (spawn to payload)) =
        rw (reinject-threads) (call-IsConsistent CallKind.async to payload)
    respond-IsConsistent (ok (send to payload)) = call-IsConsistent CallKind.sync to payload
    respond-IsConsistent (err e) = h

    -- Whatever handler and middleware answer, a consistent thread registry stays consistent when a
    -- message is dispatched with a uuid that is new.
    pub process_message-IsConsistent :
        (middleware : List Middleware)
        → IsConsistent (process_message codec registry middleware threads fresh msg).threads
    unfolding process_message
    process_message-IsConsistent middleware =
        elim (Option-cases (get_handler registry msg.target_name)) [
          | inl e ↦ rw (e, process_message) h
          | inr (run, e) ↦
              rw (e, process_message) (respond-IsConsistent (handle middleware run msg))
        ]
