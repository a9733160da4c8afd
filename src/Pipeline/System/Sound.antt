-- ===== src/Pipeline/System/Sound.antt =====
-- What a message that a task of pipeline.rs has, or a channel, comes from: the bytes that were sent,
-- and the stages before it.
use mathlib.Core.Path.{subst}
use rust_pipeline.Base.{
  ℕ, Text, Bool, true, false, Option, some, if◌then◌else◌, List, [], ◌∷◌, length, ltb, ◌≡◌, refl,
  ap, All, All-append, Bool-cases, inl, inr,
}
use rust_pipeline.Wire.Payload.{Envelope}
use rust_pipeline.Registry.{ListenerRegistry}
use rust_pipeline.Thread.{ThreadRegistry}
use rust_pipeline.Federation.Directory.{PeerDirectory}
use rust_pipeline.Pipeline.Stages.{
  Codec, ValidatedMsg, RoutedMsg, RouteOutcome, escalated, dropped, routed, parse_stage,
  validate_stage, route_stage,
}
use rust_pipeline.Pipeline.Gates.{HasPassed, through_stages, through_stages-HasPassed}
use rust_pipeline.Pipeline.Workers.{
  WorkerEvent, worker_step, receives, times_out, rechecks, finishes,
}
use rust_pipeline.Pipeline.Workers.Holding.{
  PoolHolds, Takes, dispatch-PoolHolds, worker_step-PoolHolds,
}
use rust_pipeline.Pipeline.System.{
  Stage, waiting, holding, ended, holds, System, sent, is_ended, parser_took, validator_took,
  after_routing, router_took, dispatcher_took, SystemEvent, sends, parser_takes, parser_gives,
  shuts_down, validator_takes, validator_gives, validator_ends, router_takes, router_gives,
  router_ends, dispatcher_takes, dispatcher_ends, worker_receives, worker_times_out,
  worker_rechecks, worker_finishes, changes_threads, system_step, channel_buffer,
}
use rust_pipeline.Pipeline.System.Holding.{Held, give-Held, close-Held, holds-Held}

module _ (lower : Text → Text) (codec : Codec) (registry : ListenerRegistry)
    (federation : Option PeerDirectory) (Sent : List ℕ → Type 0) where
  abbrev ParsedFrom : Envelope → Type 0
  ParsedFrom env = (raw : List ℕ) × Sent raw × (parse_stage codec raw ≡ some env)

  abbrev ValidatedFrom : ValidatedMsg → Type 0
  ValidatedFrom msg =
      (raw : List ℕ) × Sent raw
      × ((env : Envelope) × (parse_stage codec raw ≡ some env)
          × (validate_stage registry env ≡ some msg))

  -- The message was decoded from bytes that were sent, and these bytes pass the gates.
  abbrev pub PassedFrom : RoutedMsg → Type 0
  PassedFrom m = (raw : List ℕ) × Sent raw × HasPassed lower codec registry federation raw m

  abbrev pub IsSound : System → Type 0
  IsSound s =
      All Sent s.ingress
      × Held ParsedFrom s.parser
      × All ParsedFrom s.parsed
      × Held ValidatedFrom s.validator
      × All ValidatedFrom s.validated
      × Held PassedFrom s.router
      × All PassedFrom s.routed_msgs
      × PoolHolds PassedFrom s.pool

  sent-IsSound :
      (s : System) (raw : List ℕ) (gone : Bool) → IsSound s → Sent raw → IsSound (sent s raw gone)
  sent-IsSound s raw true h given = h
  sent-IsSound s raw false h given = elim (Bool-cases (ltb (length s.ingress) channel_buffer)) [
    | inl room ↦
        rw room
          (All-append Sent s.ingress (raw ∷ []) h.0 (given, tt), h.1, h.2, h.3, h.4, h.5, h.6, h.7)
    | inr full ↦ rw full h
  ]

  decoded-Held :
      (panics : Bool) (o : Option Envelope)
      → ((env : Envelope) → o ≡ some env → ParsedFrom env)
      → Held ParsedFrom (if panics then ended else holds o)
  decoded-Held true o h = tt
  decoded-Held false o h = holds-Held ParsedFrom o h

  parser_took-IsSound :
      (s : System) (stage : Stage Envelope) (queue : List (List ℕ))
      → s.ingress ≡ queue
      → IsSound s
      → IsSound (parser_took lower codec registry federation s stage queue)
  parser_took-IsSound s waiting [] e h = h
  parser_took-IsSound s waiting (raw ∷ rest) e h =
      let all = subst (All Sent) e h.0 in
      (
        all.1,
        decoded-Held (codec.decode_panics raw) (parse_stage codec raw) (λ env q. (raw, all.0, q)),
        h.2,
        h.3,
        h.4,
        h.5,
        h.6,
        h.7,
      )
  parser_took-IsSound s (holding _) queue e h = h
  parser_took-IsSound s ended queue e h = h

  validator_took-IsSound :
      (s : System) (stage : Stage ValidatedMsg) (queue : List Envelope)
      → s.parsed ≡ queue
      → IsSound s
      → IsSound (validator_took lower codec registry federation s stage queue)
  validator_took-IsSound s waiting [] e h = h
  validator_took-IsSound s waiting (env ∷ rest) e h =
      let all = subst (All ParsedFrom) e h.2 in
      let (raw, given, q) = all.0 in
      (
        h.0,
        h.1,
        all.1,
        holds-Held ValidatedFrom (validate_stage registry env)
            (λ msg q'. (raw, given, (env, q, q'))),
        h.4,
        h.5,
        h.6,
        h.7,
      )
  validator_took-IsSound s (holding _) queue e h = h
  validator_took-IsSound s ended queue e h = h

  after_routing-IsSound :
      (s : System) (out : RouteOutcome)
      → IsSound s
      → ((m : RoutedMsg) → out ≡ routed m → PassedFrom m)
      → IsSound (after_routing s out)
  after_routing-IsSound s (escalated env) h good = h
  after_routing-IsSound s (dropped e) h good = h
  after_routing-IsSound s (routed m) h good = (h.0, h.1, h.2, h.3, h.4, good m refl, h.6, h.7)

  route-PassedFrom :
      (threads : ThreadRegistry) (msg : ValidatedMsg) (m : RoutedMsg)
      → ValidatedFrom msg
      → (route_stage lower registry federation threads msg).0 ≡ routed m
      → PassedFrom m
  unfolding through_stages
  route-PassedFrom threads msg m (raw, given, (env, q, q')) e =
      let out = route_stage lower registry federation threads msg in
      let through : through_stages lower codec registry federation threads raw
          ≡ some (routed m, out.1) =
        rw (q, through_stages, q') (ap (λ (o : RouteOutcome). some (o, out.1)) e) in
      (
        raw,
        given,
        through_stages-HasPassed lower codec registry federation threads raw m out.1 through,
      )

  router_took-IsSound :
      (s : System) (stage : Stage RoutedMsg) (queue : List ValidatedMsg)
      → s.validated ≡ queue
      → IsSound s
      → IsSound (router_took lower codec registry federation s stage queue)
  router_took-IsSound s waiting [] e h = h
  router_took-IsSound s waiting (msg ∷ rest) e h =
      let all = subst (All ValidatedFrom) e h.4 in
      let out = route_stage lower registry federation s.threads msg in
      after_routing-IsSound (record s { validated = rest; threads = out.1 }) out.0
        (h.0, h.1, h.2, h.3, all.1, h.5, h.6, h.7) (λ m q. route-PassedFrom s.threads msg m all.0 q)
  router_took-IsSound s (holding _) queue e h = h
  router_took-IsSound s ended queue e h = h

  dispatcher_took-IsSound :
      (s : System) (stage : Stage RoutedMsg) (queue : List RoutedMsg)
      → s.routed_msgs ≡ queue
      → IsSound s
      → IsSound (dispatcher_took s stage queue)
  dispatcher_took-IsSound s waiting [] e h = h
  dispatcher_took-IsSound s waiting (m ∷ rest) e h =
      let all = subst (All PassedFrom) e h.6 in
      (h.0, h.1, h.2, h.3, h.4, h.5, all.1, dispatch-PoolHolds PassedFrom s.pool m h.7 all.0)
  dispatcher_took-IsSound s (holding _) queue e h = h
  dispatcher_took-IsSound s ended queue e h = h

  worker-IsSound :
      (s : System) (e : WorkerEvent)
      → IsSound s
      → Takes PassedFrom e
      → IsSound (record s { pool = worker_step s.pool e })
  worker-IsSound s e h taken =
      (h.0, h.1, h.2, h.3, h.4, h.5, h.6, worker_step-PoolHolds PassedFrom s.pool e h.7 taken)

  -- The bytes of an event are among those that were sent.
  abbrev pub Sends : SystemEvent → Type 0
  Sends (sends raw) = Sent raw
  Sends _ = Unit

  pub system_step-IsSound :
      (s : System) (e : SystemEvent)
      → IsSound s
      → Sends e
      → IsSound (system_step lower codec registry federation s e)
  unfolding system_step
  system_step-IsSound s (sends raw) h given = sent-IsSound s raw (is_ended s.parser) h given
  system_step-IsSound s parser_takes h given = parser_took-IsSound s s.parser s.ingress refl h
  system_step-IsSound s parser_gives h given =
      let (held, all) = give-Held ParsedFrom s.parser (is_ended s.validator) s.parsed h.1 h.2 in
      (h.0, held, all, h.3, h.4, h.5, h.6, h.7)
  system_step-IsSound s shuts_down h given =
      (h.0, close-Held ParsedFrom {B = Envelope} s.parser true [] h.1, h.2, h.3, h.4, h.5, h.6, h.7)
  system_step-IsSound s validator_takes h given =
      validator_took-IsSound s s.validator s.parsed refl h
  system_step-IsSound s validator_gives h given =
      let (held, all) =
        give-Held ValidatedFrom s.validator (is_ended s.router) s.validated h.3 h.4 in
      (h.0, h.1, h.2, held, all, h.5, h.6, h.7)
  system_step-IsSound s validator_ends h given = (
    h.0,
    h.1,
    h.2,
    close-Held ValidatedFrom s.validator (is_ended s.parser) s.parsed h.3,
    h.4,
    h.5,
    h.6,
    h.7,
  )
  system_step-IsSound s router_takes h given = router_took-IsSound s s.router s.validated refl h
  system_step-IsSound s router_gives h given =
      let (held, all) =
        give-Held PassedFrom s.router (is_ended s.dispatcher) s.routed_msgs h.5 h.6 in
      (h.0, h.1, h.2, h.3, h.4, held, all, h.7)
  system_step-IsSound s router_ends h given = (
    h.0,
    h.1,
    h.2,
    h.3,
    h.4,
    close-Held PassedFrom s.router (is_ended s.validator) s.validated h.5,
    h.6,
    h.7,
  )
  system_step-IsSound s dispatcher_takes h given =
      dispatcher_took-IsSound s s.dispatcher s.routed_msgs refl h
  system_step-IsSound s dispatcher_ends h given = h
  system_step-IsSound s (worker_receives c) h given = worker-IsSound s (receives c) h tt
  system_step-IsSound s (worker_times_out c) h given = worker-IsSound s (times_out c) h tt
  system_step-IsSound s (worker_rechecks c) h given = worker-IsSound s (rechecks c) h tt
  system_step-IsSound s (worker_finishes c) h given = worker-IsSound s (finishes c) h tt
  system_step-IsSound s (changes_threads threads) h given = h
