-- ===== src/Pipeline/Setup.antt =====
-- `Pipeline` of pipeline.rs, as the host sees it: the setters before `run`, `run` and `inject`. The
-- dispatch observer is known only by whether there is one; its calls are in the results of Dispatch.
use rust_pipeline.Base.{
  ℕ, ascii, Bool, true, false, Option, none, some, List, [], ◌∷◌, ◌++◌, length, ltb, ◌≡◌, refl,
  if◌then◌else◌,
}
use rust_pipeline.Base.Result.{ok, err}
use rust_pipeline.Error.{PipelineResult, handler}
use rust_pipeline.Handler.{Middleware}
use rust_pipeline.Registry.{ListenerRegistry}
use rust_pipeline.Thread.{ThreadRegistry}
use rust_pipeline.Federation.Directory.{PeerDirectory}
use rust_pipeline.Pipeline.System.{System, started, sent, is_ended, channel_buffer}

-- `running` is the tasks that `run` starts; before it, the receiver of the ingress is gone.
pub record Pipeline : Type 0 where
  pub registry : ListenerRegistry
  pub threads : ThreadRegistry
  pub middleware : List Middleware
  pub federation_egress : Option PeerDirectory
  pub observed : Bool
  pub running : Option System

abbrev pub new : ListenerRegistry → ThreadRegistry → Pipeline
new registry threads = record {
  registry = registry;
  threads = threads;
  middleware = [];
  federation_egress = none;
  observed = false;
  running = none;
}

abbrev pub with_federation : Pipeline → PeerDirectory → Pipeline
with_federation p directory = record p { federation_egress = some directory }

abbrev pub with_dispatch_observer : Pipeline → Pipeline
with_dispatch_observer p = record p { observed = true }

abbrev pub add_middleware : Pipeline → Middleware → Pipeline
add_middleware p mw = record p { middleware = p.middleware ++ (mw ∷ []) }

-- The middleware that the tasks get, and the pipeline, which has given it away.
unfoldable pub run : Pipeline → List Middleware × Pipeline
run p = (p.middleware, record p { middleware = []; running = some (started p.threads) })

-- `none`: the call waits for room in the ingress.
unfoldable pub inject : Pipeline → List ℕ → Option (PipelineResult (Unit {0})) × Pipeline
inject p raw = elim p.running [
  | none ↦ (some (err (handler (ascii "pipeline shut down"))), p)
  | some s ↦ if is_ended s.parser then (some (err (handler (ascii "pipeline shut down"))), p) else (
    (if ltb (length s.ingress) channel_buffer then some (ok tt) else none),
    record p { running = some (sent s raw false) },
  )
]

-- The first message after `run` is taken, and stands in the ingress.
pub inject-run :
    (p : Pipeline) (raw : List ℕ)
    → inject (run p).1 raw ≡ (
      some (ok tt),
      record (run p).1 { running = some (record (started p.threads) { ingress = raw ∷ [] }) },
    )
unfolding inject run
inject-run p raw = refl
