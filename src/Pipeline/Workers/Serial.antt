-- ===== src/Pipeline/Workers/Serial.antt =====
-- One worker for a key, no message lost, and the order of a key's messages kept.
use rust_pipeline.Base.{
  ℕ, ◌≤◌, Text, text_eq, text_eq_iff, false, Option, none, some, List, [], ◌∷◌, ◌++◌, ◌==◌,
  if◌then◌else◌, ◌≡◌, refl, inl, inr, arith, All, Bool-cases, Option-cases,
}
use rust_pipeline.Base.HashMap
use rust_pipeline.Base.HashMap.{HashMap, get-insert, get-insert_self, get-remove, get-empty}
use rust_pipeline.Pipeline.Stages.{RoutedMsg}
use rust_pipeline.Pipeline.Workers.{
  WorkerMode, busy, Worker, Pool, empty_pool, update, put, key_of, WorkerEvent, dispatches,
}

-- The messages of a key, in order.
abbrev pub for_key : Text → List RoutedMsg → List RoutedMsg
for_key k [] = []
for_key k (m ∷ ms) = let rest = for_key k ms in if text_eq (key_of m) k then m ∷ rest else rest

pub for_key-append :
    (k : Text) (ms ns : List RoutedMsg) → for_key k (ms ++ ns) ≡ for_key k ms ++ for_key k ns
for_key-append k [] ns = refl
for_key-append k (m ∷ ms) ns = ground (arith, for_key-append k ms ns)

abbrev pub in_hand : WorkerMode → List RoutedMsg
in_hand (busy m) = m ∷ []
in_hand _ = []

-- What a worker has and has not done.
abbrev pub load : Worker → List RoutedMsg
load w = in_hand w.mode ++ w.queue

abbrev pub task_load : Option Worker → List RoutedMsg
task_load none = []
task_load (some w) = load w

-- What the worker of a key has and has not done.
abbrev pub held : Pool → Text → List RoutedMsg
held pool k = elim (HashMap.get pool.map k) [ none ↦ [] | some c ↦ task_load (pool.tasks c) ]

-- What a step dispatches, and a run.
abbrev pub taken : WorkerEvent → List RoutedMsg
taken (dispatches m) = m ∷ []
taken _ = []

abbrev pub dispatched : List WorkerEvent → List RoutedMsg
dispatched [] = []
dispatched (e ∷ es) = taken e ++ dispatched es

-- The map has the channels of the live workers, each under its worker's key; and of each key, what
-- is done and what its worker has, in this order, is what was dispatched, `log`.
pub record IsSerial (log : List RoutedMsg) (pool : Pool) : Type 0 where
  pub live : (c : ℕ) (w : Worker) → pool.tasks c ≡ some w → HashMap.get pool.map w.key ≡ some c
  pub mapped :
      (k : Text) (c : ℕ)
      → HashMap.get pool.map k ≡ some c
      → (w : Worker) × (pool.tasks c ≡ some w) × (w.key ≡ k)
  pub unused : (c : ℕ) → pool.next ≤ c → pool.tasks c ≡ none
  pub keyed : (c : ℕ) (w : Worker) → pool.tasks c ≡ some w → All (λ m. key_of m ≡ w.key) (load w)
  pub kept : (k : Text) → for_key k pool.done ++ held pool k ≡ for_key k log

pub empty-IsSerial : IsSerial [] empty_pool
empty-IsSerial = record {
  live = λ c w h. cc;
  mapped = λ k c h. absurd (cc (h, get-empty {V = ℕ} k));
  unused = λ c h. refl;
  keyed = λ c w h. cc;
  kept = λ k. ground (arith, get-empty {V = ℕ} k);
}

-- The worker of a channel gets another queue and mode, and some messages may be done.
pub put-IsSerial :
    (log log' : List RoutedMsg) (pool : Pool) (c : ℕ) (w : Worker) (q : List RoutedMsg)
    (mode : WorkerMode) (done : List RoutedMsg)
    → IsSerial log pool
    → pool.tasks c ≡ some w
    → All (λ m. key_of m ≡ w.key) (in_hand mode ++ q)
    → for_key w.key done ++ (in_hand mode ++ q) ≡ for_key w.key log'
    → ((k : Text)
        → text_eq w.key k ≡ false
        → (for_key k done ≡ for_key k pool.done) × (for_key k log' ≡ for_key k log))
    → IsSerial log' (record (put pool c (record w { queue = q; mode = mode })) { done = done })
put-IsSerial log log' pool c w q mode done h at keyed own others = record {
  live = λ d v e. ground (arith, h.live d v, h.live c w at);
  mapped = stays_mapped;
  unused = λ d le. ground (arith, h.unused d le, h.unused c);
  keyed = stays_keyed;
  kept = stays_kept;
}
  where
    w' : Worker
    w' = record w { queue = q; mode = mode }

    stays_mapped :
        (k : Text) (d : ℕ)
        → HashMap.get pool.map k ≡ some d
        → (v : Worker) × (update pool.tasks c (some w') d ≡ some v) × (v.key ≡ k)
    stays_mapped k d e =
        let (v, there, named) = h.mapped k d e in
        elim (Bool-cases (d == c)) [
          | inl same ↦ (w', rw same refl, ground arith)
          | inr differ ↦ (v, rw differ there, named)
        ]

    stays_keyed :
        (d : ℕ) (v : Worker)
        → update pool.tasks c (some w') d ≡ some v
        → All (λ m. key_of m ≡ v.key) (load v)
    stays_keyed d v e = elim (Bool-cases (d == c)) [
      | inl same ↦ let it : w' ≡ v = cc (rw same at e) in rw (← it) keyed
      | inr differ ↦ h.keyed d v (rw differ at e)
    ]

    stays_kept : (k : Text) → for_key k done ++ held (put pool c w') k ≡ for_key k log'
    stays_kept k = elim (Option-cases (HashMap.get pool.map k)) [
      | inl e ↦
          let other : text_eq w.key k ≡ false =
            ground (arith, text_eq_iff w.key k, h.live c w at) in
          ground (arith, others k other, h.kept k)
      | inr (d, e) ↦
          let (v, there, named) = h.mapped k d e in
          elim (Bool-cases (text_eq w.key k)) [
            | inl mine ↦ ground (arith, text_eq_iff w.key k, h.live c w at, own)
            | inr other ↦ ground (arith, text_eq_iff w.key k, others k other, h.kept k)
          ]
    ]
