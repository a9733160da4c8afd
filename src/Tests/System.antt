-- ===== src/Tests/System.antt =====
-- The results on the tasks of the pipeline for a state with messages in several places.
use rust_pipeline.Base.{
  ℕ, zero, suc, ◌≤◌, ◌++◌, false, All, inl, inr, arith, none, List, [], ◌∷◌, ◌≡◌, refl, length,
}
use rust_pipeline.Base.{contains}
use rust_pipeline.Base.HashMap
use rust_pipeline.Wire.Address.{flat}
use rust_pipeline.Wire.Address.Parts.{organism}
use rust_pipeline.Routing
use rust_pipeline.Registry
use rust_pipeline.Validation
use rust_pipeline.Pipeline.Handled
use rust_pipeline.Pipeline.Workers.Holding.{PoolHolds}
use rust_pipeline.Pipeline.System.{
  System, started, waiting, is_ended, SystemEvent, sends, shuts_down, parser_takes, parser_gives,
  validator_takes, validator_gives, validator_ends, router_takes, router_gives, router_ends,
  dispatcher_takes, dispatcher_ends, worker_receives, worker_finishes, worker_times_out,
  worker_rechecks, changes_threads, system_step, system_run,
}
use rust_pipeline.Pipeline.System.Sound.{PassedFrom}
use rust_pipeline.Pipeline.System.Safety.{system_run-PoolHolds}
use rust_pipeline.Pipeline.System.Fates.{IsTurn, NoPanic, dispatch_all, to_dispatch, to_escalate}
use rust_pipeline.Pipeline.System.Settling.{turns_left, AllWaiting, AllEnded}
use rust_pipeline.Pipeline.System.Rounds.{Occurs, IsRound, run_rounds}
use rust_pipeline.Pipeline.System.Draining.{drains, shutdown_ends}
use rust_pipeline.Base.Result.{ok}
use rust_pipeline.Handler.{HandlerResponse, Middleware, short_circuit, no_op}
use rust_pipeline.Pipeline.Dispatch.{handle}
use rust_pipeline.Pipeline.Onion.{handle-no_op}
use rust_pipeline.Tests.Listeners.{silent}
use rust_pipeline.Tests.Threads.{threads, t2}
use rust_pipeline.Tests.Dispatch.{wire, listeners, at_bob}

-- One message all the way to its worker, and another one sent.
abbrev one_message : List SystemEvent
one_message =
    sends (1 ∷ [])
    ∷ parser_takes
    ∷ parser_gives
    ∷ validator_takes
    ∷ sends (2 ∷ [])
    ∷ validator_gives
    ∷ router_takes
    ∷ router_gives
    ∷ dispatcher_takes
    ∷ worker_receives 0
    ∷ worker_finishes 0
    ∷ []

-- The bytes of `one_message`.
abbrev OneByte : List ℕ → Type 0
OneByte raw = length raw ≡ 1

system_run-PoolHolds_example :
    PoolHolds
      (PassedFrom (λ t. t) wire listeners none OneByte)
      (system_run (λ t. t) wire listeners none (started threads) one_message).pool
system_run-PoolHolds_example =
    system_run-PoolHolds (λ t. t) wire listeners none OneByte threads one_message
      (refl, (tt, (tt, (tt, (refl, (tt, (tt, (tt, (tt, (tt, (tt, tt)))))))))))

-- Two messages sent, one of them taken by the parser.
abbrev busy : List SystemEvent
busy = sends (1 ∷ []) ∷ sends (2 ∷ []) ∷ parser_takes ∷ []

abbrev busy_system : System
busy_system = system_run (λ t. t) wire listeners none (started threads) busy

abbrev full_round : List SystemEvent
full_round =
    dispatcher_ends ∷ dispatcher_takes ∷ router_ends ∷ router_gives ∷ router_takes ∷ validator_ends
    ∷ validator_gives ∷ validator_takes ∷ parser_gives ∷ parser_takes ∷ []

full_round-IsRound : IsRound full_round
full_round-IsRound = ((tt, (tt, (tt, (tt, (tt, (tt, (tt, (tt, (tt, (tt, tt)))))))))), each)
  where
    each : (e : SystemEvent) → IsTurn e → Occurs e full_round
    each dispatcher_ends turn = inl refl
    each dispatcher_takes turn = inr (inl refl)
    each router_ends turn = inr (inr (inl refl))
    each router_gives turn = inr (inr (inr (inl refl)))
    each router_takes turn = inr (inr (inr (inr (inl refl))))
    each validator_ends turn = inr (inr (inr (inr (inr (inl refl)))))
    each validator_gives turn = inr (inr (inr (inr (inr (inr (inl refl))))))
    each validator_takes turn = inr (inr (inr (inr (inr (inr (inr (inl refl)))))))
    each parser_gives turn = inr (inr (inr (inr (inr (inr (inr (inr (inl refl))))))))
    each parser_takes turn = inr (inr (inr (inr (inr (inr (inr (inr (inr (inl refl)))))))))
    each (sends _) turn = elim turn [ ]
    each shuts_down turn = elim turn [ ]
    each (worker_receives _) turn = elim turn [ ]
    each (worker_times_out _) turn = elim turn [ ]
    each (worker_rechecks _) turn = elim turn [ ]
    each (worker_finishes _) turn = elim turn [ ]
    each (changes_threads _) turn = elim turn [ ]

-- As many rounds as that.
abbrev full_rounds : ℕ → List (List SystemEvent)
full_rounds zero = []
full_rounds (suc n) = full_round ∷ full_rounds n

full_rounds-IsRound : (n : ℕ) → All IsRound (full_rounds n)
full_rounds-IsRound zero = tt
full_rounds-IsRound (suc n) = (full_round-IsRound, full_rounds-IsRound n)

busy_open : is_ended busy_system.parser ≡ false
unfolding system_run
busy_open = refl

busy_calm : All (NoPanic (λ t. t) wire listeners none) busy_system.ingress
unfolding system_run
busy_calm = (refl, tt)

busy_turns : turns_left busy_system ≤ length (full_rounds 17)
unfolding system_run
busy_turns = omega arith

drains_example :
    let s' = run_rounds (λ t. t) wire listeners none busy_system (full_rounds 17) in
    (s'.parsed ≡ [])
    × (s'.validated ≡ [])
    × (s'.routed_msgs ≡ [])
    × AllWaiting s'
    × (s'.pool
        ≡ dispatch_all busy_system.pool (to_dispatch (λ t. t) wire listeners none busy_system))
    × (s'.escalated_msgs
        ≡ busy_system.escalated_msgs ++ to_escalate (λ t. t) wire listeners none busy_system)
drains_example =
    drains (λ t. t) wire listeners none threads busy (full_rounds 17) busy_open busy_calm
      (full_rounds-IsRound 17) busy_turns

-- The first message is behind the parser, the second one is in the ingress.
abbrev before_shutdown : List SystemEvent
before_shutdown = sends (1 ∷ []) ∷ sends (2 ∷ []) ∷ parser_takes ∷ parser_gives ∷ []

abbrev shut_system : System
shut_system = system_run (λ t. t) wire listeners none (started threads) before_shutdown

abbrev closing : System
closing = system_step (λ t. t) wire listeners none shut_system shuts_down

shut_free : shut_system.parser ≡ waiting
unfolding system_run
shut_free = refl

shut_turns : turns_left closing ≤ length (full_rounds 15)
unfolding system_run
shut_turns = omega arith

shutdown_ends_example :
    let s' = run_rounds (λ t. t) wire listeners none closing (full_rounds 15) in
    AllEnded s'
    × (s'.ingress ≡ shut_system.ingress)
    × (s'.parsed ≡ [])
    × (s'.validated ≡ [])
    × (s'.routed_msgs ≡ [])
    × (s'.pool ≡ dispatch_all shut_system.pool (to_dispatch (λ t. t) wire listeners none closing))
    × (s'.escalated_msgs
        ≡ shut_system.escalated_msgs ++ to_escalate (λ t. t) wire listeners none closing)
shutdown_ends_example =
    shutdown_ends (λ t. t) wire listeners none threads before_shutdown (full_rounds 15) shut_free
      (full_rounds-IsRound 15) shut_turns

-- A run with a shutdown, up to the end of the validator.
abbrev shut_run : List SystemEvent
shut_run = sends (1 ∷ []) ∷ shuts_down ∷ validator_ends ∷ router_takes ∷ []

-- The first message is done.
one_done :
    (system_run (λ t. t) wire listeners none (started threads) one_message).pool.done
    ≡ at_bob t2 ∷ []
unfolding system_run Validation.validate_value HashMap.get HashMap.insert Handled.build
    Registry.register Registry.new Routing.resolve Routing.enforce_peers organism flat contains
    Routing.collect_set
one_done = refl

-- A middleware that answers for the handler, behind one that does nothing.
abbrev answers : Middleware
answers = record no_op { pre_dispatch = λ meta payload. ok (short_circuit HandlerResponse.none) }

handle-no_op_example :
    handle (no_op ∷ answers ∷ []) silent (at_bob t2) ≡ handle (answers ∷ []) silent (at_bob t2)
handle-no_op_example = handle-no_op [] (answers ∷ []) silent (at_bob t2)
