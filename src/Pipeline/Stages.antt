-- ===== src/Pipeline/Stages.antt =====
-- The work that `parse_stage`, `validate_stage` and `route_stage` do for one message. A stage is a
-- loop that takes a message from its channel, does this, and passes the result on.
use rust_pipeline.Base.{
  ℕ, Text, Bool, false, Option, none, some, List, [], get_elem?, if◌then◌else◌,
}
use rust_pipeline.Base.Result.{ok, err, ok_or, ◌>>=◌, ◌>>◌}
use rust_pipeline.Error.{PipelineError, PipelineResult, no_route}
use rust_pipeline.Wire.Address.Parts.{organism, and_then, unwrap_or}
use rust_pipeline.Wire.Payload.{Envelope}
use rust_pipeline.Handler.{ValidatedPayload}
use rust_pipeline.Routing.{resolve, enforce_peers}
use rust_pipeline.Validation.{validate_value}
use rust_pipeline.Registry.{ListenerRegistry}
use rust_pipeline.Thread.{ThreadRegistry, lookup, register_thread}
use rust_pipeline.Federation.Directory.{PeerDirectory, is_remote}

-- The codec, as the pipeline uses it: `encode_envelope` and `decode_envelope` of codec.rs. On bytes
-- where `decode_panics`, the call of `decode_envelope` unwinds and has no result.
pub record Codec : Type 0 where
  pub encode_envelope : Envelope → PipelineResult (List ℕ)
  pub decode_envelope : List ℕ → PipelineResult Envelope
  pub decode_panics : List ℕ → Bool

pub record ValidatedMsg : Type 0 where
  pub envelope : Envelope
  pub payload : ValidatedPayload

pub record RoutedMsg : Type 0 where
  pub envelope : Envelope
  pub payload : ValidatedPayload
  pub target_name : Text

-- `none`: the message dies at this gate; by a panic, the task dies with it.
unfoldable pub parse_stage : Codec → List ℕ → Option Envelope
parse_stage codec raw =
    if codec.decode_panics raw
    then none
    else elim (codec.decode_envelope raw) [ ok envelope ↦ some envelope | err _ ↦ none ]

unfoldable pub validate_stage : ListenerRegistry → Envelope → Option ValidatedMsg
validate_stage registry env =
    elim (validate_value registry.schemas env.payload.tag env.payload.value) [
      | ok _ ↦ some (record {
        envelope = env;
        payload = record { tag = env.payload.tag; value = env.payload.value };
      })
      | err _ ↦ none
    ]

pub data RouteOutcome : Type 0 where
  escalated : Envelope → RouteOutcome
  dropped : PipelineError → RouteOutcome
  routed : RoutedMsg → RouteOutcome

-- Whether the destination's leading segment is a registered remote node.
unfoldable pub is_remote_destination : Option PeerDirectory → Envelope → Bool
is_remote_destination federation env = elim federation [
  | none ↦ false
  | some directory ↦ elim (and_then env.meta.to (λ a. get_elem? a.segments 0)) [
    | none ↦ false
    | some s ↦ is_remote directory s.name
  ]
]

-- The sender for routing, peers and threads.
abbrev pub from_name : Envelope → Text
from_name env = unwrap_or (organism env.meta.from) []

module _ (lower : Text → Text) where
  -- Route and peer rule: the name of the listener, or the error by which the message dies.
  -- `&entries[0]` would panic on no entries, which `resolve` does not return.
  unfoldable pub route_checks : ListenerRegistry → Envelope → PipelineResult Text
  route_checks registry env = do
    entries ← resolve lower registry.routing (and_then env.meta.to organism) env.payload.tag
    target ← ok_or (get_elem? entries 0) (no_route [])
    enforce_peers registry.routing (from_name env) target.name
    ok target.name

  unfoldable pub ensure_registered : ThreadRegistry → Text → Text → Text → ThreadRegistry
  ensure_registered threads thread_id from target = elim (lookup threads thread_id) [
    | some _ ↦ threads
    | none ↦ (register_thread threads thread_id from target).1
  ]

  unfoldable pub route_stage :
      ListenerRegistry
      → Option PeerDirectory
      → ThreadRegistry
      → ValidatedMsg
      → RouteOutcome × ThreadRegistry
  unfolding is_remote_destination route_checks ensure_registered
  route_stage registry federation threads msg =
      let env = msg.envelope in
      if is_remote_destination federation env
      then (escalated env, threads)
      else elim (route_checks registry env) [
        | err e ↦ (dropped e, threads)
        | ok target ↦ (
          routed (record { envelope = env; payload = msg.payload; target_name = target }),
          ensure_registered threads env.meta.thread (from_name env) target,
        )
      ]
