-- ===== src/Pipeline/System/Safety.antt =====
-- Where the messages come from that the workers of a running `Pipeline` of pipeline.rs have.
use rust_pipeline.Base.{ℕ, Text, Option, List, [], ◌∷◌, All}
use rust_pipeline.Registry.{ListenerRegistry}
use rust_pipeline.Thread.{ThreadRegistry}
use rust_pipeline.Federation.Directory.{PeerDirectory}
use rust_pipeline.Pipeline.Stages.{Codec}
use rust_pipeline.Pipeline.Workers.Holding.{PoolHolds}
use rust_pipeline.Pipeline.System.{System, started, SystemEvent, system_step, system_run}
use rust_pipeline.Pipeline.System.Sound.{PassedFrom, IsSound, Sends, system_step-IsSound}

module _ (lower : Text → Text) (codec : Codec) (registry : ListenerRegistry)
    (federation : Option PeerDirectory) (Sent : List ℕ → Type 0) where
  run-IsSound :
      (es : List SystemEvent) (s : System)
      → IsSound lower codec registry federation Sent s
      → All (Sends lower codec registry federation Sent) es
      → IsSound lower codec registry federation Sent
          (system_run lower codec registry federation s es)
  unfolding system_run
  run-IsSound [] s h given = h
  run-IsSound (e ∷ es) s h given =
      run-IsSound es (system_step lower codec registry federation s e)
        (system_step-IsSound lower codec registry federation Sent s e h given.0) given.1

  -- In every run from the start, whatever is sent and however the tasks take turns: what the workers
  -- have in their queues, work at, or have done are messages that were decoded from bytes that
  -- someone sent, and that have passed validation, routing and the peer rule. `Sent` is any
  -- predicate that holds of all bytes that are sent in the run.
  pub system_run-PoolHolds :
      (threads : ThreadRegistry) (es : List SystemEvent)
      → All (Sends lower codec registry federation Sent) es
      → PoolHolds
          (PassedFrom lower codec registry federation Sent)
          (system_run lower codec registry federation (started threads) es).pool
  system_run-PoolHolds threads es given =
      (run-IsSound es (started threads) (tt, tt, tt, tt, tt, tt, tt, ((λ c w e. absurd (cc e)), tt))
        given).7
