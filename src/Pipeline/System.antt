-- ===== src/Pipeline/System.antt =====
-- `Pipeline` of pipeline.rs: the stage tasks that `run` starts, the channels between them, `inject`
-- and `shutdown`. A step is one turn of one task: it takes a message from its channel and does the
-- stage's work, or it gives the message that it holds to the next channel, or it ends. A task whose
-- step is not possible waits, and the step leaves everything as it is.
pub mod Follows
pub mod Order
pub mod Fates
pub mod Delivery
pub mod Settling
pub mod Progress
pub mod Rounds
pub mod Holding
pub mod Sound
pub mod Safety
pub mod Front
pub mod Draining
pub mod Panics
use rust_pipeline.Base.{
  ℕ, ◌+◌, Text, Bool, true, false, Option, none, some, List, [], ◌∷◌, ◌++◌, length, ltb,
  if◌then◌else◌,
}
use rust_pipeline.Wire.Payload.{Envelope}
use rust_pipeline.Registry.{ListenerRegistry}
use rust_pipeline.Thread.{ThreadRegistry}
use rust_pipeline.Federation.Directory.{PeerDirectory}
use rust_pipeline.Pipeline.Stages.{
  Codec, ValidatedMsg, RoutedMsg, RouteOutcome, escalated, dropped, routed, parse_stage,
  validate_stage, route_stage,
}
use rust_pipeline.Pipeline.Workers.{
  Pool, empty_pool, dispatch, worker_step, receives, times_out, rechecks, finishes,
}

abbrev pub channel_buffer : ℕ
channel_buffer = 256

-- A stage task: it waits for a message, or holds one for the next channel, or has returned.
pub data Stage (A : Type 0) : Type 0 where
  waiting : Stage A
  holding : A → Stage A
  ended : Stage A

abbrev pub is_ended : {A : Type 0} → Stage A → Bool
is_ended ended = true
is_ended waiting = false
is_ended (holding _) = false

abbrev pub holds : {A : Type 0} → Option A → Stage A
holds none = waiting
holds (some a) = holding a

-- `escalated` is what the route stage gave to the federation server.
pub record System : Type 0 where
  pub ingress : List (List ℕ)
  pub parser : Stage Envelope
  pub parsed : List Envelope
  pub validator : Stage ValidatedMsg
  pub validated : List ValidatedMsg
  pub router : Stage RoutedMsg
  pub routed_msgs : List RoutedMsg
  pub dispatcher : Stage RoutedMsg
  pub pool : Pool
  pub threads : ThreadRegistry
  pub escalated_msgs : List Envelope

-- What `run` sets up.
abbrev pub started : ThreadRegistry → System
started threads = record {
  ingress = [];
  parser = waiting;
  parsed = [];
  validator = waiting;
  validated = [];
  router = waiting;
  routed_msgs = [];
  dispatcher = waiting;
  pool = empty_pool;
  threads = threads;
  escalated_msgs = [];
}

-- `tx.send(m).await` to a channel, of which it is known whether its receiver has returned.
abbrev pub give : {A : Type 0} → Stage A → Bool → List A → Stage A × List A
give (holding a) true queue = (ended, queue)
give (holding a) false queue =
    if ltb (length queue) channel_buffer then (waiting, queue ++ (a ∷ [])) else (holding a, queue)
give waiting gone queue = (waiting, queue)
give ended gone queue = (ended, queue)

-- `rx.recv()` returns `None`: the senders are gone and the channel is empty.
abbrev pub close : {A B : Type 0} → Stage A → Bool → List B → Stage A
close waiting true [] = ended
close stage gone queue = stage

-- A waiting parser sees the signal that `shutdown` sends, whatever is in the ingress.
abbrev pub shutdown_seen : System → System
shutdown_seen s = record s { parser = close {B = Envelope} s.parser true [] }

-- `inject`, and the `reinject_tx.send` of a worker: `sends`. A worker and the host change the
-- thread registry under its lock: `changes_threads`.
pub data SystemEvent : Type 0 where
  sends : List ℕ → SystemEvent
  parser_takes parser_gives shuts_down : SystemEvent
  validator_takes validator_gives validator_ends : SystemEvent
  router_takes router_gives router_ends : SystemEvent
  dispatcher_takes dispatcher_ends : SystemEvent
  worker_receives worker_times_out worker_rechecks worker_finishes : ℕ → SystemEvent
  changes_threads : ThreadRegistry → SystemEvent

-- The bytes are in the channel; or the sender waits for room; or it gets the error of a closed channel.
abbrev pub sent : System → List ℕ → Bool → System
sent s raw true = s
sent s raw false =
    if ltb (length s.ingress) channel_buffer
    then record s { ingress = s.ingress ++ (raw ∷ []) }
    else s

abbrev pub after_routing : System → RouteOutcome → System
after_routing s (escalated env) = record s { escalated_msgs = s.escalated_msgs ++ (env ∷ []) }
after_routing s (dropped e) = s
after_routing s (routed m) = record s { router = holding m }

abbrev pub dispatcher_took : System → Stage RoutedMsg → List RoutedMsg → System
dispatcher_took s waiting (m ∷ rest) = record s { routed_msgs = rest; pool = dispatch s.pool m }
dispatcher_took s _ _ = s

module _ (lower : Text → Text) (codec : Codec) (registry : ListenerRegistry)
    (federation : Option PeerDirectory) where
  abbrev pub parser_took : System → Stage Envelope → List (List ℕ) → System
  parser_took s waiting (raw ∷ rest) = record s {
    ingress = rest;
    parser = if codec.decode_panics raw then ended else holds (parse_stage codec raw);
  }
  parser_took s _ _ = s

  abbrev pub validator_took : System → Stage ValidatedMsg → List Envelope → System
  validator_took s waiting (env ∷ rest) = record s {
    parsed = rest;
    validator = holds (validate_stage registry env);
  }
  validator_took s _ _ = s

  abbrev pub router_took : System → Stage RoutedMsg → List ValidatedMsg → System
  router_took s waiting (msg ∷ rest) =
      let out = route_stage lower registry federation s.threads msg in
      after_routing (record s { validated = rest; threads = out.1 }) out.0
  router_took s _ _ = s

  unfoldable pub system_step : System → SystemEvent → System
  unfolding parse_stage validate_stage route_stage dispatch worker_step
  system_step s (sends raw) = sent s raw (is_ended s.parser)
  system_step s parser_takes = parser_took s s.parser s.ingress
  system_step s parser_gives =
      let out = give s.parser (is_ended s.validator) s.parsed in
      record s { parser = out.0; parsed = out.1 }
  system_step s shuts_down = shutdown_seen s
  system_step s validator_takes = validator_took s s.validator s.parsed
  system_step s validator_gives =
      let out = give s.validator (is_ended s.router) s.validated in
      record s { validator = out.0; validated = out.1 }
  system_step s validator_ends = record s {
    validator = close s.validator (is_ended s.parser) s.parsed;
  }
  system_step s router_takes = router_took s s.router s.validated
  system_step s router_gives =
      let out = give s.router (is_ended s.dispatcher) s.routed_msgs in
      record s { router = out.0; routed_msgs = out.1 }
  system_step s router_ends = record s {
    router = close s.router (is_ended s.validator) s.validated;
  }
  system_step s dispatcher_takes = dispatcher_took s s.dispatcher s.routed_msgs
  system_step s dispatcher_ends = record s {
    dispatcher = close s.dispatcher (is_ended s.router) s.routed_msgs;
  }
  system_step s (worker_receives c) = record s { pool = worker_step s.pool (receives c) }
  system_step s (worker_times_out c) = record s { pool = worker_step s.pool (times_out c) }
  system_step s (worker_rechecks c) = record s { pool = worker_step s.pool (rechecks c) }
  system_step s (worker_finishes c) = record s { pool = worker_step s.pool (finishes c) }
  system_step s (changes_threads threads) = record s { threads = threads }

  unfoldable pub system_run : System → List SystemEvent → System
  unfolding system_step
  system_run s [] = s
  system_run s (e ∷ es) = system_run (system_step s e) es
