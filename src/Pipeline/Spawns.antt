-- ===== src/Pipeline/Spawns.antt =====
-- `respond_spawn` of the dispatcher: the work and its acknowledgement.
use rust_pipeline.Base.{ℕ, Text, Bool, true, false, List, [], ◌∷◌, ◌≡◌, refl, ◌⊎◌, inl, inr}
use rust_pipeline.Base.Result.{ok}
use rust_pipeline.Wire.Address.{Address, flat}
use rust_pipeline.Wire.Payload.{Payload}
use rust_pipeline.Registry.{ListenerRegistry}
use rust_pipeline.Thread.{ThreadRegistry}
use rust_pipeline.Pipeline.Stages.{Codec, RoutedMsg}
use rust_pipeline.Pipeline.Dispatch.{
  Effects, CallKind, on_open, stamped, reinject, call, respond_spawn, spawn_ack,
}
use rust_pipeline.Pipeline.Outcomes.{listener, extension, call_envelope, call_cases}

module _ (codec : Codec) where
  -- A spawn and its acknowledgement. Exactly one acknowledgement is built, from the callee to the
  -- caller on the caller's own thread. It says `accepted` exactly if the one envelope of the call
  -- went to ingress, and it does not say so exactly if nothing went there and no edge was opened.
  pub respond_spawn_lem :
      (registry : ListenerRegistry) (threads : ThreadRegistry) (fresh : Text) (msg : RoutedMsg)
      (to : Address) (payload : Payload)
      → (eff : Effects) × (accepted : Bool) × (respond_spawn codec registry threads fresh msg to
            payload
          ≡ reinject codec eff (
              stamped msg
                (flat (listener to))
                (flat msg.target_name)
                msg.envelope.meta.thread
                (spawn_ack accepted)))
        × (((accepted ≡ true)
              × (raw : List ℕ) × (codec.encode_envelope
                    (call_envelope codec registry threads fresh msg CallKind.async to payload)
                  ≡ ok raw)
              × (eff.reinjected ≡ raw ∷ [])
              × (eff.events
                  ≡ on_open msg.target_name
                      (listener to)
                      (extension codec registry threads fresh msg CallKind.async to payload).0
                      CallKind.async
                    ∷ []))
            ⊎ ((accepted ≡ false) × (eff.reinjected ≡ []) × (eff.events ≡ [])))
  unfolding respond_spawn
  respond_spawn_lem registry threads fresh msg to payload =
      let made = call codec registry threads fresh msg CallKind.async to payload in
      (
        made.0,
        made.1,
        refl,
        call_cases codec registry threads fresh msg CallKind.async to payload
            (λ r.
              ((r.1 ≡ true)
                × (raw : List ℕ) × (codec.encode_envelope
                      (call_envelope codec registry threads fresh msg CallKind.async to payload)
                    ≡ ok raw)
                × (r.0.reinjected ≡ raw ∷ [])
                × (r.0.events
                    ≡ on_open msg.target_name (listener to)
                        (extension codec registry threads fresh msg CallKind.async to payload).0
                        CallKind.async
                      ∷ []))
              ⊎ ((r.1 ≡ false) × (r.0.reinjected ≡ []) × (r.0.events ≡ [])))
            (λ x e. inr (refl, refl, refl)) (λ x e e'. inr (refl, refl, refl))
            (λ raw e e'. inl (refl, raw, e', refl, refl)),
      )
