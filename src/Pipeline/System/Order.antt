-- ===== src/Pipeline/System/Order.antt =====
-- The order in which the tasks of pipeline.rs return: a task that has returned had been closed by the
-- one before it, and had emptied its channel.
use rust_pipeline.Base.{
  ℕ, Text, Bool, true, false, Option, none, some, List, [], ◌∷◌, length, ltb, ◌≡◌, refl, Bool-cases,
  inl, inr,
}
use rust_pipeline.Wire.Payload.{Envelope}
use rust_pipeline.Registry.{ListenerRegistry}
use rust_pipeline.Thread.{ThreadRegistry}
use rust_pipeline.Federation.Directory.{PeerDirectory}
use rust_pipeline.Pipeline.Stages.{
  Codec, ValidatedMsg, RoutedMsg, RouteOutcome, escalated, dropped, routed, validate_stage,
  route_stage,
}
use rust_pipeline.Pipeline.System.{
  Stage, waiting, holding, ended, holds, System, started, sent, is_ended, parser_took,
  validator_took, after_routing, router_took, dispatcher_took, SystemEvent, sends, parser_takes,
  parser_gives, shuts_down, validator_takes, validator_gives, validator_ends, router_takes,
  router_gives, router_ends, dispatcher_takes, dispatcher_ends, worker_receives, worker_times_out,
  worker_rechecks, worker_finishes, changes_threads, system_step, system_run, channel_buffer,
}
use rust_pipeline.Pipeline.System.Follows.{
  Follows, HoldsNothing, give-Follows, taken-Follows, given-Follows, close-Follows, closed-Follows,
  closed_by, close-HoldsNothing,
}

abbrev pub IsOrdered : System → Type 0
IsOrdered s =
    Follows s.validator s.parser s.parsed
    × Follows s.router s.validator s.validated
    × Follows s.dispatcher s.router s.routed_msgs
    × HoldsNothing s.dispatcher

waiting-alive : {A : Type 0} (stage : Stage A) → stage ≡ waiting → is_ended stage ≡ false
waiting-alive stage e = rw e refl

dispatcher_took-IsOrdered :
    (s : System) (stage : Stage RoutedMsg) (queue : List RoutedMsg)
    → s.dispatcher ≡ stage
    → IsOrdered s
    → IsOrdered (dispatcher_took s stage queue)
dispatcher_took-IsOrdered s waiting [] e h = h
dispatcher_took-IsOrdered s waiting (m ∷ rest) e h = (h.0, h.1, rw e tt, h.3)
dispatcher_took-IsOrdered s (holding _) queue e h = h
dispatcher_took-IsOrdered s ended queue e h = h

after_routing-IsOrdered :
    (s : System) (out : RouteOutcome)
    → s.router ≡ waiting
    → IsOrdered s
    → IsOrdered (after_routing s out)
after_routing-IsOrdered s (escalated env) e h = h
after_routing-IsOrdered s (dropped x) e h = h
after_routing-IsOrdered s (routed m) e h = (
  h.0,
  tt,
  taken-Follows s.dispatcher s.router (holding m) s.routed_msgs (waiting-alive s.router e) h.2,
  h.3,
)

module _ (lower : Text → Text) (codec : Codec) (registry : ListenerRegistry)
    (federation : Option PeerDirectory) where
  parser_took-IsOrdered :
      (s : System) (stage : Stage Envelope) (queue : List (List ℕ))
      → s.parser ≡ stage
      → IsOrdered s
      → IsOrdered (parser_took lower codec registry federation s stage queue)
  parser_took-IsOrdered s waiting [] e h = h
  parser_took-IsOrdered s waiting (raw ∷ rest) e h = (
    taken-Follows s.validator s.parser
        (parser_took lower codec registry federation s waiting (raw ∷ rest)).parser s.parsed
        (waiting-alive s.parser e) h.0,
    h.1,
    h.2,
    h.3,
  )
  parser_took-IsOrdered s (holding _) queue e h = h
  parser_took-IsOrdered s ended queue e h = h

  held-Follows :
      {A B : Type 0} (o : Option A) (before : Stage B) (queue : List B)
      → Follows (holds o) before queue
  held-Follows none before queue = tt
  held-Follows (some a) before queue = tt

  validator_took-IsOrdered :
      (s : System) (stage : Stage ValidatedMsg) (queue : List Envelope)
      → s.validator ≡ stage
      → IsOrdered s
      → IsOrdered (validator_took lower codec registry federation s stage queue)
  validator_took-IsOrdered s waiting [] e h = h
  validator_took-IsOrdered s waiting (env ∷ rest) e h = (
    held-Follows (validate_stage registry env) s.parser rest,
    taken-Follows s.router s.validator (holds (validate_stage registry env)) s.validated
        (waiting-alive s.validator e) h.1,
    h.2,
    h.3,
  )
  validator_took-IsOrdered s (holding _) queue e h = h
  validator_took-IsOrdered s ended queue e h = h

  router_took-IsOrdered :
      (s : System) (stage : Stage RoutedMsg) (queue : List ValidatedMsg)
      → s.router ≡ stage
      → IsOrdered s
      → IsOrdered (router_took lower codec registry federation s stage queue)
  router_took-IsOrdered s waiting [] e h = h
  router_took-IsOrdered s waiting (msg ∷ rest) e h =
      let out = route_stage lower registry federation s.threads msg in
      after_routing-IsOrdered (record s { validated = rest; threads = out.1 }) out.0 e
        (h.0, rw e tt, h.2, h.3)
  router_took-IsOrdered s (holding _) queue e h = h
  router_took-IsOrdered s ended queue e h = h

  sent-IsOrdered :
      (s : System) (raw : List ℕ) (gone : Bool) → IsOrdered s → IsOrdered (sent s raw gone)
  sent-IsOrdered s raw true h = h
  sent-IsOrdered s raw false h = elim (Bool-cases (ltb (length s.ingress) channel_buffer)) [
    | inl room ↦ rw room h
    | inr full ↦ rw full h
  ]

  pub system_step-IsOrdered :
      (s : System) (e : SystemEvent)
      → IsOrdered s
      → IsOrdered (system_step lower codec registry federation s e)
  unfolding system_step
  system_step-IsOrdered s (sends raw) h = sent-IsOrdered s raw (is_ended s.parser) h
  system_step-IsOrdered s parser_takes h = parser_took-IsOrdered s s.parser s.ingress refl h
  system_step-IsOrdered s parser_gives h =
      (give-Follows s.validator s.parser s.parsed h.0, h.1, h.2, h.3)
  system_step-IsOrdered s shuts_down h =
      (closed-Follows {C = Envelope} s.validator s.parser s.parsed true [] h.0, h.1, h.2, h.3)
  system_step-IsOrdered s validator_takes h = validator_took-IsOrdered s s.validator s.parsed refl h
  system_step-IsOrdered s validator_gives h = (
    given-Follows s.validator (is_ended s.router) s.validated s.parser s.parsed
        (closed_by s.router s.validator s.validated h.1) h.0,
    give-Follows s.router s.validator s.validated h.1,
    h.2,
    h.3,
  )
  system_step-IsOrdered s validator_ends h = (
    close-Follows s.validator s.parser s.parsed h.0,
    closed-Follows s.router s.validator s.validated (is_ended s.parser) s.parsed h.1,
    h.2,
    h.3,
  )
  system_step-IsOrdered s router_takes h = router_took-IsOrdered s s.router s.validated refl h
  system_step-IsOrdered s router_gives h = (
    h.0,
    given-Follows s.router (is_ended s.dispatcher) s.routed_msgs s.validator s.validated
        (closed_by s.dispatcher s.router s.routed_msgs h.2) h.1,
    give-Follows s.dispatcher s.router s.routed_msgs h.2,
    h.3,
  )
  system_step-IsOrdered s router_ends h = (
    h.0,
    close-Follows s.router s.validator s.validated h.1,
    closed-Follows s.dispatcher s.router s.routed_msgs (is_ended s.validator) s.validated h.2,
    h.3,
  )
  system_step-IsOrdered s dispatcher_takes h =
      dispatcher_took-IsOrdered s s.dispatcher s.routed_msgs refl h
  system_step-IsOrdered s dispatcher_ends h = (
    h.0,
    h.1,
    close-Follows s.dispatcher s.router s.routed_msgs h.2,
    close-HoldsNothing s.dispatcher (is_ended s.router) s.routed_msgs h.3,
  )
  system_step-IsOrdered s (worker_receives c) h = h
  system_step-IsOrdered s (worker_times_out c) h = h
  system_step-IsOrdered s (worker_rechecks c) h = h
  system_step-IsOrdered s (worker_finishes c) h = h
  system_step-IsOrdered s (changes_threads threads) h = h

  run-IsOrdered :
      (es : List SystemEvent) (s : System)
      → IsOrdered s
      → IsOrdered (system_run lower codec registry federation s es)
  unfolding system_run
  run-IsOrdered [] s h = h
  run-IsOrdered (e ∷ es) s h =
      run-IsOrdered es (system_step lower codec registry federation s e)
        (system_step-IsOrdered s e h)

  pub system_run-IsOrdered :
      (threads : ThreadRegistry) (es : List SystemEvent)
      → IsOrdered (system_run lower codec registry federation (started threads) es)
  system_run-IsOrdered threads es = run-IsOrdered es (started threads) (tt, tt, tt, tt)
