-- ===== src/Pipeline/Workers.antt =====
-- `dispatch_stage` and `serial_worker` of pipeline.rs. A step is what one task does while it holds the
-- lock of the worker map, or one turn of a worker's loop; any order of steps is a run. A channel is
-- a number, drawn in order; its receiver lives in the worker's task, so a channel is closed when
-- its task is gone. The end of the dispatcher, at which idle workers are left to time out, is not
-- a step.
pub mod Serial
pub mod Changes
pub mod Runs
pub mod Holding
use rust_pipeline.Base.{ℕ, ◌+◌, Text, Option, none, some, List, [], ◌∷◌, ◌++◌, ◌==◌, if◌then◌else◌}
use rust_pipeline.Base.HashMap
use rust_pipeline.Base.HashMap.{HashMap}
use rust_pipeline.Pipeline.Stages.{RoutedMsg}

-- Where a worker is in its loop: it waits for a message; it has timed out, and has not yet got the
-- lock; it runs `process_message`.
pub data WorkerMode : Type 0 where
  waiting timed_out : WorkerMode
  busy : RoutedMsg → WorkerMode

-- A task of `serial_worker`, with the queue of its channel.
pub record Worker : Type 0 where
  pub key : Text
  pub queue : List RoutedMsg
  pub mode : WorkerMode

-- `done` is the messages whose `process_message` has returned, in that order.
pub record Pool : Type 0 where
  pub map : HashMap ℕ
  pub tasks : ℕ → Option Worker
  pub next : ℕ
  pub done : List RoutedMsg

abbrev pub empty_pool : Pool
empty_pool = record { map = HashMap.empty; tasks = λ c. none; next = 0; done = [] }

abbrev pub update : (ℕ → Option Worker) → ℕ → Option Worker → ℕ → Option Worker
update f c w d = if d == c then w else f d

abbrev pub put : Pool → ℕ → Worker → Pool
put pool c w = record pool { tasks = update pool.tasks c (some w) }

abbrev pub key_of : RoutedMsg → Text
key_of msg = msg.envelope.meta.thread

-- A new channel and its worker, with the message in the queue.
unfoldable pub spawn_worker : Pool → RoutedMsg → Pool
spawn_worker pool msg = record pool {
  map = HashMap.insert pool.map (key_of msg) pool.next;
  tasks =
      update pool.tasks pool.next
        (some (record { key = key_of msg; queue = msg ∷ []; mode = waiting }));
  next = pool.next + 1;
}

-- One message of `dispatch_stage`. A closed channel is taken from the map and the message handed to
-- a new worker, which the retry loop of the code does in its second round.
unfoldable pub dispatch : Pool → RoutedMsg → Pool
unfolding spawn_worker
dispatch pool msg = elim (HashMap.get pool.map (key_of msg)) [
  | none ↦ spawn_worker pool msg
  | some c ↦ elim (pool.tasks c) [
    | none ↦ spawn_worker (record pool { map = HashMap.remove pool.map (key_of msg) }) msg
    | some w ↦ put pool c (record w { queue = w.queue ++ (msg ∷ []) })
  ]
]

-- `wrx.recv()` returns a message.
abbrev pub received : Pool → ℕ → Worker → WorkerMode → List RoutedMsg → Pool
received pool c w waiting (m ∷ q) = put pool c (record w { mode = busy m; queue = q })
received pool c w _ _ = pool

-- The timeout fires.
abbrev pub lapsed : Pool → ℕ → Worker → WorkerMode → Pool
lapsed pool c w waiting = put pool c (record w { mode = timed_out })
lapsed pool c w _ = pool

-- The idle branch, under the lock: `try_recv`, and the end of the worker if there is nothing.
abbrev pub rechecked : Pool → ℕ → Worker → WorkerMode → List RoutedMsg → Pool
rechecked pool c w timed_out (m ∷ q) = put pool c (record w { mode = busy m; queue = q })
rechecked pool c w timed_out [] = record pool {
  map = HashMap.remove pool.map w.key;
  tasks = update pool.tasks c none;
}
rechecked pool c w _ _ = pool

-- `process_message` returns.
abbrev pub finished : Pool → ℕ → Worker → WorkerMode → Pool
finished pool c w (busy m) = record (put pool c (record w { mode = waiting })) {
  done = pool.done ++ (m ∷ []);
}
finished pool c w _ = pool

pub data WorkerEvent : Type 0 where
  dispatches : RoutedMsg → WorkerEvent
  receives times_out rechecks finishes : ℕ → WorkerEvent

-- A step of the worker of a channel, if there is one and it is where the step begins.
unfoldable pub worker_step : Pool → WorkerEvent → Pool
unfolding dispatch
worker_step pool (dispatches msg) = dispatch pool msg
worker_step pool (receives c) = elim (pool.tasks c) [
  | none ↦ pool
  | some w ↦ received pool c w w.mode w.queue
]
worker_step pool (times_out c) = elim (pool.tasks c) [
  | none ↦ pool
  | some w ↦ lapsed pool c w w.mode
]
worker_step pool (rechecks c) = elim (pool.tasks c) [
  | none ↦ pool
  | some w ↦ rechecked pool c w w.mode w.queue
]
worker_step pool (finishes c) = elim (pool.tasks c) [
  | none ↦ pool
  | some w ↦ finished pool c w w.mode
]

unfoldable pub worker_run : Pool → List WorkerEvent → Pool
unfolding worker_step
worker_run pool [] = pool
worker_run pool (e ∷ es) = worker_run (worker_step pool e) es
