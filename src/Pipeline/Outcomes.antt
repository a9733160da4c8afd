-- ===== src/Pipeline/Outcomes.antt =====
-- `call`, `answer` and `reinject` of the dispatcher, one equation for each way they can end.
use rust_pipeline.Base.{ℕ, Text, Bool, true, false, List, [], ◌∷◌, ◌++◌, ◌≡◌, refl, inl, inr}
use rust_pipeline.Base.Result.{ok, err, Result-cases}
use rust_pipeline.Error.{PipelineError}
use rust_pipeline.Wire.Address.{Address, flat}
use rust_pipeline.Wire.Address.Parts.{organism, unwrap_or}
use rust_pipeline.Wire.Payload.{Envelope, Payload}
use rust_pipeline.Routing.{enforce_peers}
use rust_pipeline.Registry.{ListenerRegistry}
use rust_pipeline.Thread.{ThreadRegistry, extend_chain}
use rust_pipeline.Pipeline.Stages.{Codec, RoutedMsg}
use rust_pipeline.Pipeline.Dispatch.{Effects, CallKind, on_open, quiet, stamped, reinject, call}

-- The listener that an address names.
abbrev pub listener : Address → Text
listener to = unwrap_or (organism to) []

module _ (codec : Codec) where
  pub reinject_sent :
      (eff : Effects) (env : Envelope) (raw : List ℕ)
      → codec.encode_envelope env ≡ ok raw
      → reinject codec eff env ≡ record eff { reinjected = eff.reinjected ++ (raw ∷ []) }
  unfolding reinject
  reinject_sent eff env raw e = rw (e, reinject) refl

  pub reinject_lost :
      (eff : Effects) (env : Envelope) (x : PipelineError)
      → codec.encode_envelope env ≡ err x
      → reinject codec eff env ≡ eff
  unfolding reinject
  reinject_lost eff env x e = rw (e, reinject) refl

  module _ (registry : ListenerRegistry) (threads : ThreadRegistry) (fresh : Text) (msg : RoutedMsg)
      (kind : CallKind) (to : Address) (payload : Payload) where
    -- The thread of the call, and the registry that has it.
    abbrev pub extension : Text × ThreadRegistry
    extension = extend_chain threads msg.envelope.meta.thread (listener to) fresh

    abbrev pub call_envelope : Envelope
    call_envelope = stamped msg (flat msg.target_name) to extension.0 payload

    pub call_refused :
        (x : PipelineError)
        → enforce_peers registry.routing msg.target_name (listener to) ≡ err x
        → call codec registry threads fresh msg kind to payload ≡ (quiet threads, false)
    unfolding call
    call_refused x e = rw (e, call) refl

    pub call_lost :
        (x : PipelineError)
        → enforce_peers registry.routing msg.target_name (listener to) ≡ ok tt
        → codec.encode_envelope call_envelope ≡ err x
        → call codec registry threads fresh msg kind to payload ≡ (quiet extension.1, false)
    unfolding call
    call_lost x e e' = rw (e, call, e') refl

    pub call_made :
        (raw : List ℕ)
        → enforce_peers registry.routing msg.target_name (listener to) ≡ ok tt
        → codec.encode_envelope call_envelope ≡ ok raw
        → call codec registry threads fresh msg kind to payload ≡ (
          record {
            threads = extension.1;
            reinjected = raw ∷ [];
            events = on_open msg.target_name (listener to) extension.0 kind ∷ [];
          },
          true,
        )
    unfolding call
    call_made raw e e' = rw (e, call, e') refl

    -- Every way a call can end, at a predicate on its result.
    pub call_cases {ℓ} :
        (P : Effects × Bool → Type ℓ)
        → ((x : PipelineError)
            → enforce_peers registry.routing msg.target_name (listener to) ≡ err x
            → P (quiet threads, false))
        → ((x : PipelineError)
            → enforce_peers registry.routing msg.target_name (listener to) ≡ ok tt
            → codec.encode_envelope call_envelope ≡ err x
            → P (quiet extension.1, false))
        → ((raw : List ℕ)
            → enforce_peers registry.routing msg.target_name (listener to) ≡ ok tt
            → codec.encode_envelope call_envelope ≡ ok raw
            → P (
              record {
                threads = extension.1;
                reinjected = raw ∷ [];
                events = on_open msg.target_name (listener to) extension.0 kind ∷ [];
              },
              true,
            ))
        → P (call codec registry threads fresh msg kind to payload)
    call_cases P refused lost made =
        elim (Result-cases (enforce_peers registry.routing msg.target_name (listener to))) [
          | inr (x, e) ↦ rw (call_refused x e) (refused x e)
          | inl (u, e) ↦ elim (Result-cases (codec.encode_envelope call_envelope)) [
            | inr (x, e') ↦ rw (call_lost x e e') (lost x e e')
            | inl (raw, e') ↦ rw (call_made raw e e') (made raw e e')
          ]
        ]
