-- ===== src/Pipeline/System/Fates.antt =====
-- The messages that are on their way through the stages of pipeline.rs, and what the gates decide on
-- each of them.
use rust_pipeline.Base.{
  ℕ, Text, false, Option, none, some, List, [], ◌∷◌, ◌++◌, ◌≡◌, refl, ◌⊎◌, All,
}
use rust_pipeline.Wire.Payload.{Envelope}
use rust_pipeline.Registry.{ListenerRegistry}
use rust_pipeline.Thread
use rust_pipeline.Thread.{ThreadRegistry}
use rust_pipeline.Federation.Directory.{PeerDirectory}
use rust_pipeline.Pipeline.Stages.{
  Codec, ValidatedMsg, RoutedMsg, RouteOutcome, escalated, dropped, routed, parse_stage,
  validate_stage, route_stage,
}
use rust_pipeline.Pipeline.Workers.{Pool, dispatch}
use rust_pipeline.Pipeline.System.{
  Stage, waiting, holding, ended, holds, System, is_ended, SystemEvent, parser_takes, parser_gives,
  validator_takes, validator_gives, validator_ends, router_takes, router_gives, router_ends,
  dispatcher_takes, dispatcher_ends,
}

abbrev pub in_hand : {A : Type 0} → Stage A → List A
in_hand (holding a) = a ∷ []
in_hand waiting = []
in_hand ended = []

-- The bytes that the parser will still take: none once it has returned.
abbrev pub readable : Stage Envelope → List (List ℕ) → List (List ℕ)
readable ended raws = []
readable waiting raws = raws
readable (holding _) raws = raws

pub readable-holds : (o : Option Envelope) (raws : List (List ℕ)) → readable (holds o) raws ≡ raws
readable-holds none raws = refl
readable-holds (some env) raws = refl

-- The messages handed to the workers, one after the other.
abbrev pub dispatch_all : Pool → List RoutedMsg → Pool
dispatch_all pool [] = pool
dispatch_all pool (m ∷ ms) = dispatch_all (dispatch pool m) ms

-- What of some outcomes of the route stage goes to the dispatcher, and what to the federation server.
abbrev pub for_dispatch : List RouteOutcome → List RoutedMsg
for_dispatch [] = []
for_dispatch (routed m ∷ outs) = m ∷ for_dispatch outs
for_dispatch (escalated env ∷ outs) = for_dispatch outs
for_dispatch (dropped e ∷ outs) = for_dispatch outs

abbrev pub for_federation : List RouteOutcome → List Envelope
for_federation [] = []
for_federation (routed m ∷ outs) = for_federation outs
for_federation (escalated env ∷ outs) = env ∷ for_federation outs
for_federation (dropped e ∷ outs) = for_federation outs

-- A turn of one of the four stage tasks that is not the shutdown signal.
abbrev pub IsTurn : SystemEvent → Type 0
IsTurn parser_takes = Unit
IsTurn parser_gives = Unit
IsTurn validator_takes = Unit
IsTurn validator_gives = Unit
IsTurn validator_ends = Unit
IsTurn router_takes = Unit
IsTurn router_gives = Unit
IsTurn router_ends = Unit
IsTurn dispatcher_takes = Unit
IsTurn dispatcher_ends = Unit
IsTurn _ = ⊥

module _ (lower : Text → Text) (codec : Codec) (registry : ListenerRegistry)
    (federation : Option PeerDirectory) where
  -- The outcomes for messages, in their order: at the route stage, before validation, and as bytes.
  -- What the route stage decides does not depend on the threads.
  abbrev pub outcomes : List ValidatedMsg → List RouteOutcome
  outcomes [] = []
  outcomes (msg ∷ msgs) = (route_stage lower registry federation Thread.new msg).0 ∷ outcomes msgs

  abbrev pub validated_of : List Envelope → List ValidatedMsg
  validated_of [] = []
  validated_of (env ∷ envs) = in_hand (holds (validate_stage registry env)) ++ validated_of envs

  abbrev pub parsed_of : List (List ℕ) → List Envelope
  parsed_of [] = []
  parsed_of (raw ∷ raws) = in_hand (holds (parse_stage codec raw)) ++ parsed_of raws

  -- The envelopes before the validator, the messages before the router, and their outcomes.
  abbrev pub unvalidated : System → List Envelope
  unvalidated s = (s.parsed ++ in_hand s.parser) ++ parsed_of (readable s.parser s.ingress)

  abbrev pub unrouted : System → List ValidatedMsg
  unrouted s = (s.validated ++ in_hand s.validator) ++ validated_of (unvalidated s)

  abbrev pub to_dispatch : System → List RoutedMsg
  to_dispatch s = (s.routed_msgs ++ in_hand s.router) ++ for_dispatch (outcomes (unrouted s))

  abbrev pub to_escalate : System → List Envelope
  to_escalate s = for_federation (outcomes (unrouted s))

  -- From one state to a later one: the workers have got the messages that were on their way to them
  -- and are so no more, in order, and the federation server likewise.
  abbrev pub Delivers : System → System → Type 0
  Delivers s s' =
      (dispatch_all s'.pool (to_dispatch s') ≡ dispatch_all s.pool (to_dispatch s))
      × (s'.escalated_msgs ++ to_escalate s' ≡ s.escalated_msgs ++ to_escalate s)

  abbrev pub NoPanic : List ℕ → Type 0
  NoPanic raw = codec.decode_panics raw ≡ false

  -- The parser has returned, or it takes bytes, and none of those in the ingress makes it panic.
  abbrev pub IsCalm : System → Type 0
  IsCalm s = (s.parser ≡ ended) ⊎ ((is_ended s.parser ≡ false) × All NoPanic s.ingress)
