-- ===== src/Pipeline/Workers/Holding.antt =====
-- What holds of every message that is dispatched holds of every message that the workers have.
use mathlib.Core.Path.{subst}
use rust_pipeline.Base.{
  ℕ, Option, none, some, List, [], ◌∷◌, ◌==◌, ◌≡◌, All, All-append, Bool-cases, Option-cases, inl,
  inr,
}
use rust_pipeline.Base.HashMap
use rust_pipeline.Pipeline.Stages.{RoutedMsg}
use rust_pipeline.Pipeline.Workers.{
  Pool, Worker, WorkerMode, waiting, timed_out, busy, update, key_of, spawn_worker, dispatch,
  received, lapsed, rechecked, finished, WorkerEvent, dispatches, receives, times_out, rechecks,
  finishes, worker_step,
}

-- `P` holds of every message of the workers.
module _ (P : RoutedMsg → Type 0) where
  abbrev pub InMode : WorkerMode → Type 0
  InMode (busy m) = P m
  InMode waiting = Unit
  InMode timed_out = Unit

  abbrev pub WorkerHolds : Worker → Type 0
  WorkerHolds w = All P w.queue × InMode w.mode

  abbrev pub TasksHold : (ℕ → Option Worker) → Type 0
  TasksHold tasks = (c : ℕ) (w : Worker) → tasks c ≡ some w → WorkerHolds w

  abbrev pub PoolHolds : Pool → Type 0
  PoolHolds pool = TasksHold pool.tasks × All P pool.done

  update-some :
      (tasks : ℕ → Option Worker) (c : ℕ) (w : Worker)
      → TasksHold tasks
      → WorkerHolds w
      → TasksHold (update tasks c (some w))
  update-some tasks c w h good d v e = elim (Bool-cases (d == c)) [
    | inl same ↦
        let at : some w ≡ some v = rw same at e in
        let eq : w ≡ v = cc at in subst WorkerHolds eq good
    | inr other ↦ h d v (rw other at e)
  ]

  update-none :
      (tasks : ℕ → Option Worker) (c : ℕ) → TasksHold tasks → TasksHold (update tasks c none)
  update-none tasks c h d v e = elim (Bool-cases (d == c)) [
    | inl same ↦ let at : none ≡ some v = rw same at e in absurd (cc at)
    | inr other ↦ h d v (rw other at e)
  ]

  spawn_worker-PoolHolds :
      (pool : Pool) (m : RoutedMsg) → PoolHolds pool → P m → PoolHolds (spawn_worker pool m)
  unfolding spawn_worker
  spawn_worker-PoolHolds pool m h good =
      (update-some pool.tasks pool.next _ h.0 ((good, tt), tt), h.1)

  pub dispatch-PoolHolds :
      (pool : Pool) (m : RoutedMsg) → PoolHolds pool → P m → PoolHolds (dispatch pool m)
  unfolding dispatch
  dispatch-PoolHolds pool m h good = elim (Option-cases (HashMap.get pool.map (key_of m))) [
    | inl fresh ↦ rw (fresh, dispatch) (spawn_worker-PoolHolds pool m h good)
    | inr (c, known) ↦ elim (Option-cases (pool.tasks c)) [
      | inl gone ↦
          rw (known, dispatch, gone)
            (spawn_worker-PoolHolds (record pool { map = HashMap.remove pool.map (key_of m) }) m h
              good)
      | inr (w, alive) ↦
          let old = h.0 c w alive in
          rw (known, dispatch, alive)
            (
              update-some pool.tasks c _ h.0
                  (All-append P w.queue (m ∷ []) old.0 (good, tt), old.1),
              h.1,
            )
    ]
  ]

  received-PoolHolds :
      (pool : Pool) (c : ℕ) (w : Worker) (mode : WorkerMode) (queue : List RoutedMsg)
      → PoolHolds pool
      → All P queue
      → PoolHolds (received pool c w mode queue)
  received-PoolHolds pool c w waiting [] h good = h
  received-PoolHolds pool c w waiting (m ∷ q) h good =
      (update-some pool.tasks c _ h.0 (good.1, good.0), h.1)
  received-PoolHolds pool c w timed_out queue h good = h
  received-PoolHolds pool c w (busy m) queue h good = h

  lapsed-PoolHolds :
      (pool : Pool) (c : ℕ) (w : Worker) (mode : WorkerMode)
      → PoolHolds pool
      → All P w.queue
      → PoolHolds (lapsed pool c w mode)
  lapsed-PoolHolds pool c w waiting h good = (update-some pool.tasks c _ h.0 (good, tt), h.1)
  lapsed-PoolHolds pool c w timed_out h good = h
  lapsed-PoolHolds pool c w (busy m) h good = h

  rechecked-PoolHolds :
      (pool : Pool) (c : ℕ) (w : Worker) (mode : WorkerMode) (queue : List RoutedMsg)
      → PoolHolds pool
      → All P queue
      → PoolHolds (rechecked pool c w mode queue)
  rechecked-PoolHolds pool c w timed_out [] h good = (update-none pool.tasks c h.0, h.1)
  rechecked-PoolHolds pool c w timed_out (m ∷ q) h good =
      (update-some pool.tasks c _ h.0 (good.1, good.0), h.1)
  rechecked-PoolHolds pool c w waiting queue h good = h
  rechecked-PoolHolds pool c w (busy m) queue h good = h

  finished-PoolHolds :
      (pool : Pool) (c : ℕ) (w : Worker) (mode : WorkerMode)
      → PoolHolds pool
      → All P w.queue × InMode mode
      → PoolHolds (finished pool c w mode)
  finished-PoolHolds pool c w (busy m) h good = (
    update-some pool.tasks c _ h.0 (good.0, tt),
    All-append P pool.done (m ∷ []) h.1 (good.1, tt),
  )
  finished-PoolHolds pool c w waiting h good = h
  finished-PoolHolds pool c w timed_out h good = h

  abbrev pub Takes : WorkerEvent → Type 0
  Takes (dispatches m) = P m
  Takes (receives c) = Unit
  Takes (times_out c) = Unit
  Takes (rechecks c) = Unit
  Takes (finishes c) = Unit

  pub worker_step-PoolHolds :
      (pool : Pool) (e : WorkerEvent) → PoolHolds pool → Takes e → PoolHolds (worker_step pool e)
  unfolding worker_step
  worker_step-PoolHolds pool (dispatches m) h good = dispatch-PoolHolds pool m h good
  worker_step-PoolHolds pool (receives c) h good = elim (Option-cases (pool.tasks c)) [
    | inl e ↦ rw (e, worker_step) h
    | inr (w, e) ↦ rw (e, worker_step) (received-PoolHolds pool c w w.mode w.queue h (h.0 c w e).0)
  ]
  worker_step-PoolHolds pool (times_out c) h good = elim (Option-cases (pool.tasks c)) [
    | inl e ↦ rw (e, worker_step) h
    | inr (w, e) ↦ rw (e, worker_step) (lapsed-PoolHolds pool c w w.mode h (h.0 c w e).0)
  ]
  worker_step-PoolHolds pool (rechecks c) h good = elim (Option-cases (pool.tasks c)) [
    | inl e ↦ rw (e, worker_step) h
    | inr (w, e) ↦ rw (e, worker_step) (rechecked-PoolHolds pool c w w.mode w.queue h (h.0 c w e).0)
  ]
  worker_step-PoolHolds pool (finishes c) h good = elim (Option-cases (pool.tasks c)) [
    | inl e ↦ rw (e, worker_step) h
    | inr (w, e) ↦ rw (e, worker_step) (finished-PoolHolds pool c w w.mode h (h.0 c w e))
  ]
