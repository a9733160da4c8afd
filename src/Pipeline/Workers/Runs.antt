-- ===== src/Pipeline/Workers/Runs.antt =====
-- Every run of the dispatcher and its workers, in any interleaving.
use rust_pipeline.Base.{
  ℕ, Text, text_eq_iff, some, List, [], ◌∷◌, ◌++◌, ◌≡◌, refl, sym, ap, ◌∙◌, inl, inr, arith, All,
  All-append, Option-cases,
}
use mathlib.Core.List.{append_assoc, append-nil}
use rust_pipeline.Base.HashMap
use rust_pipeline.Base.HashMap.{HashMap, get-insert, get-insert_self, get-remove, get-empty}
use rust_pipeline.Pipeline.Stages.{RoutedMsg}
use rust_pipeline.Pipeline.Workers.{
  WorkerMode, waiting, timed_out, busy, Worker, Pool, empty_pool, put, key_of, dispatch, received,
  lapsed, rechecked, finished, WorkerEvent, dispatches, receives, times_out, rechecks, finishes,
  worker_step, worker_run,
}
use rust_pipeline.Pipeline.Workers.Serial.{
  for_key, for_key-append, in_hand, load, held, taken, dispatched, IsSerial, put-IsSerial,
  empty-IsSerial,
}
use rust_pipeline.Pipeline.Workers.Changes.{spawn_worker-IsSerial, end-IsSerial}

own_kept :
    (log : List RoutedMsg) (pool : Pool) (c : ℕ) (w : Worker)
    → IsSerial log pool
    → pool.tasks c ≡ some w
    → for_key w.key pool.done ++ load w ≡ for_key w.key log
own_kept log pool c w h at = ground (arith, h.live c w at, h.kept w.key)

-- A worker's own move: what it has and has not done stays what it was.
same_load-IsSerial :
    (log : List RoutedMsg) (pool : Pool) (c : ℕ) (w : Worker) (q : List RoutedMsg)
    (mode : WorkerMode)
    → IsSerial log pool
    → pool.tasks c ≡ some w
    → in_hand mode ++ q ≡ load w
    → IsSerial log (put pool c (record w { queue = q; mode = mode }))
same_load-IsSerial log pool c w q mode h at same =
    put-IsSerial log log pool c w q mode pool.done h at (rw same (h.keyed c w at))
      (rw same (own_kept log pool c w h at)) λ k other. (refl, refl)

push-IsSerial :
    (log : List RoutedMsg) (pool : Pool) (c : ℕ) (w : Worker) (m : RoutedMsg)
    → IsSerial log pool
    → pool.tasks c ≡ some w
    → w.key ≡ key_of m
    → IsSerial (log ++ (m ∷ [])) (put pool c (record w { queue = w.queue ++ (m ∷ []) }))
push-IsSerial log pool c w m h at named =
    let more : in_hand w.mode ++ (w.queue ++ (m ∷ [])) ≡ load w ++ (m ∷ []) =
      sym (append_assoc (in_hand w.mode) w.queue (m ∷ [])) in
    let own : for_key w.key pool.done ++ (load w ++ (m ∷ [])) ≡ for_key w.key (log ++ (m ∷ [])) =
      sym (append_assoc (for_key w.key pool.done) (load w) (m ∷ []))
      ∙ ap (λ (l : List RoutedMsg). l ++ (m ∷ [])) (own_kept log pool c w h at)
      ∙ ground (arith, for_key-append w.key log (m ∷ []), text_eq_iff (key_of m) w.key) in
    put-IsSerial log (log ++ (m ∷ [])) pool c w (w.queue ++ (m ∷ [])) w.mode pool.done h at
      (rw more
        (All-append (λ n. key_of n ≡ w.key) (load w) (m ∷ []) (h.keyed c w at) (sym named, tt)))
      (rw more own)
      λ k other. (
        refl,
        rw (for_key-append k log (m ∷ [])) (
            ground
              (arith, text_eq_iff (key_of m) k, text_eq_iff w.key k, append-nil (for_key k log))),
      )

dispatch-IsSerial :
    (log : List RoutedMsg) (pool : Pool) (m : RoutedMsg)
    → IsSerial log pool
    → IsSerial (log ++ (m ∷ [])) (dispatch pool m)
unfolding dispatch
dispatch-IsSerial log pool m h = elim (Option-cases (HashMap.get pool.map (key_of m))) [
  | inl free ↦ rw (free, dispatch) (spawn_worker-IsSerial log pool m h free)
  | inr (c, e) ↦
      let (w, there, named) = h.mapped (key_of m) c e in
      rw (e, dispatch, there) (push-IsSerial log pool c w m h there named)
]

received-IsSerial :
    (log : List RoutedMsg) (pool : Pool) (c : ℕ) (w : Worker) (mode : WorkerMode)
    (q : List RoutedMsg)
    → IsSerial log pool
    → pool.tasks c ≡ some w
    → w.mode ≡ mode
    → w.queue ≡ q
    → IsSerial log (received pool c w mode q)
received-IsSerial log pool c w waiting (m ∷ q) h at e e' =
    same_load-IsSerial log pool c w q (busy m) h at (rw (e, e') refl)
received-IsSerial log pool c w waiting [] h at e e' = h
received-IsSerial log pool c w timed_out q h at e e' = h
received-IsSerial log pool c w (busy n) q h at e e' = h

lapsed-IsSerial :
    (log : List RoutedMsg) (pool : Pool) (c : ℕ) (w : Worker) (mode : WorkerMode)
    → IsSerial log pool
    → pool.tasks c ≡ some w
    → w.mode ≡ mode
    → IsSerial log (lapsed pool c w mode)
lapsed-IsSerial log pool c w waiting h at e =
    same_load-IsSerial log pool c w w.queue timed_out h at (rw e refl)
lapsed-IsSerial log pool c w timed_out h at e = h
lapsed-IsSerial log pool c w (busy n) h at e = h

rechecked-IsSerial :
    (log : List RoutedMsg) (pool : Pool) (c : ℕ) (w : Worker) (mode : WorkerMode)
    (q : List RoutedMsg)
    → IsSerial log pool
    → pool.tasks c ≡ some w
    → w.mode ≡ mode
    → w.queue ≡ q
    → IsSerial log (rechecked pool c w mode q)
rechecked-IsSerial log pool c w timed_out (m ∷ q) h at e e' =
    same_load-IsSerial log pool c w q (busy m) h at (rw (e, e') refl)
rechecked-IsSerial log pool c w timed_out [] h at e e' =
    end-IsSerial log pool c w h at (rw (e, e') refl)
rechecked-IsSerial log pool c w waiting q h at e e' = h
rechecked-IsSerial log pool c w (busy n) q h at e e' = h

finished-IsSerial :
    (log : List RoutedMsg) (pool : Pool) (c : ℕ) (w : Worker) (mode : WorkerMode)
    → IsSerial log pool
    → pool.tasks c ≡ some w
    → w.mode ≡ mode
    → IsSerial log (finished pool c w mode)
finished-IsSerial log pool c w waiting h at e = h
finished-IsSerial log pool c w timed_out h at e = h
finished-IsSerial log pool c w (busy m) h at e =
    let has : load w ≡ m ∷ w.queue = rw e refl in
    let mine : All (λ n. key_of n ≡ w.key) (m ∷ w.queue) = rw has at (h.keyed c w at) in
    let own : for_key w.key pool.done ++ (m ∷ w.queue) ≡ for_key w.key log =
      rw has at (own_kept log pool c w h at) in
    put-IsSerial log log pool c w w.queue waiting (pool.done ++ (m ∷ [])) h at mine.1
      (rw (for_key-append w.key pool.done (m ∷ [])) (
        ground (
          arith,
          text_eq_iff (key_of m) w.key,
          append_assoc (for_key w.key pool.done) (m ∷ []) w.queue,
          own,
          mine.0,
        )))
      λ k other. (
        rw (for_key-append k pool.done (m ∷ [])) (
            ground (
              arith,
              mine.0,
              text_eq_iff (key_of m) k,
              text_eq_iff w.key k,
              append-nil (for_key k pool.done),
            )),
        refl,
      )

worker_step-IsSerial :
    (log : List RoutedMsg) (pool : Pool) (e : WorkerEvent)
    → IsSerial log pool
    → IsSerial (log ++ taken e) (worker_step pool e)
unfolding worker_step
worker_step-IsSerial log pool (dispatches m) h = dispatch-IsSerial log pool m h
worker_step-IsSerial log pool (receives c) h = rw append-nil (elim (Option-cases (pool.tasks c)) [
  | inl e ↦ rw (e, worker_step) h
  | inr (w, e) ↦ rw (e, worker_step) (received-IsSerial log pool c w w.mode w.queue h e refl refl)
])
worker_step-IsSerial log pool (times_out c) h = rw append-nil (elim (Option-cases (pool.tasks c)) [
  | inl e ↦ rw (e, worker_step) h
  | inr (w, e) ↦ rw (e, worker_step) (lapsed-IsSerial log pool c w w.mode h e refl)
])
worker_step-IsSerial log pool (rechecks c) h = rw append-nil (elim (Option-cases (pool.tasks c)) [
  | inl e ↦ rw (e, worker_step) h
  | inr (w, e) ↦ rw (e, worker_step) (rechecked-IsSerial log pool c w w.mode w.queue h e refl refl)
])
worker_step-IsSerial log pool (finishes c) h = rw append-nil (elim (Option-cases (pool.tasks c)) [
  | inl e ↦ rw (e, worker_step) h
  | inr (w, e) ↦ rw (e, worker_step) (finished-IsSerial log pool c w w.mode h e refl)
])

worker_run-IsSerial :
    (log : List RoutedMsg) (pool : Pool) (es : List WorkerEvent)
    → IsSerial log pool
    → IsSerial (log ++ dispatched es) (worker_run pool es)
unfolding worker_run
worker_run-IsSerial log pool [] h = rw append-nil h
worker_run-IsSerial log pool (e ∷ es) h = rw (← append_assoc log (taken e) (dispatched es)) (
    worker_run-IsSerial (log ++ taken e) (worker_step pool e) es
      (worker_step-IsSerial log pool e h))

-- Whatever the interleaving of the dispatcher and the workers, their timeouts and their ends: of each
-- thread, the messages whose processing has returned, then the one being processed and those in the
-- queue of the thread's worker, are the messages that were dispatched for it, in order. None is
-- lost, doubled or overtaken.
pub done-held :
    (es : List WorkerEvent) (k : Text)
    → for_key k (worker_run empty_pool es).done ++ held (worker_run empty_pool es) k
      ≡ for_key k (dispatched es)
done-held es k = (worker_run-IsSerial [] empty_pool es empty-IsSerial).kept k

-- At any time no two live workers have the same thread, and the worker map leads to the one that
-- there is.
pub one_worker :
    (es : List WorkerEvent) (c d : ℕ) (w v : Worker)
    → (worker_run empty_pool es).tasks c ≡ some w
    → (worker_run empty_pool es).tasks d ≡ some v
    → w.key ≡ v.key
    → (c ≡ d) × (HashMap.get (worker_run empty_pool es).map w.key ≡ some c)
one_worker es c d w v at at' same =
    let h = worker_run-IsSerial [] empty_pool es empty-IsSerial in
    (cc (h.live c w at, h.live d v at', same), h.live c w at)
