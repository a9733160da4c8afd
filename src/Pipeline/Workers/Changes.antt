-- ===== src/Pipeline/Workers/Changes.antt =====
-- Workers that begin and end.
use rust_pipeline.Base.{
  ℕ, Text, text_eq, text_eq_iff, false, none, some, List, [], ◌∷◌, ◌++◌, ◌==◌, ◌≡◌, refl, inl, inr,
  arith, All, Bool-cases, Option-cases,
}
use mathlib.Core.List.{append-nil}
use rust_pipeline.Base.HashMap
use rust_pipeline.Base.HashMap.{HashMap, get-insert, get-insert_self, get-remove, get-empty}
use rust_pipeline.Pipeline.Stages.{RoutedMsg}
use rust_pipeline.Pipeline.Workers.{waiting, Worker, Pool, update, key_of, spawn_worker}
use rust_pipeline.Pipeline.Workers.Serial.{for_key, for_key-append, load, held, IsSerial}

pub spawn_worker-IsSerial :
    (log : List RoutedMsg) (pool : Pool) (m : RoutedMsg)
    → IsSerial log pool
    → HashMap.get pool.map (key_of m) ≡ none
    → IsSerial (log ++ (m ∷ [])) (spawn_worker pool m)
unfolding spawn_worker
spawn_worker-IsSerial log pool m h free = record {
  live = λ d v e.
      rw (get-insert pool.map (key_of m) v.key pool.next)
        (ground (arith, h.live d v, text_eq_iff (key_of m) v.key));
  mapped = starts_mapped;
  unused = λ d le. ground (arith, h.unused d);
  keyed = starts_keyed;
  kept = starts_kept;
}
  where
    w : Worker
    w = record { key = key_of m; queue = m ∷ []; mode = waiting }

    starts_mapped :
        (k : Text) (d : ℕ)
        → HashMap.get (HashMap.insert pool.map (key_of m) pool.next) k ≡ some d
        → (v : Worker) × (update pool.tasks pool.next (some w) d ≡ some v) × (v.key ≡ k)
    starts_mapped k d e = elim (Bool-cases (text_eq (key_of m) k)) [
      | inl same ↦
          let it : some pool.next ≡ some d =
            rw (get-insert pool.map (key_of m) k pool.next, same) at e in
          (w, ground arith, (text_eq_iff (key_of m) k).0 same)
      | inr differ ↦
          let (v, there, named) =
            h.mapped k d (rw (get-insert pool.map (key_of m) k pool.next, differ) at e) in
          (v, ground (arith, h.unused d), named)
    ]

    starts_keyed :
        (d : ℕ) (v : Worker)
        → update pool.tasks pool.next (some w) d ≡ some v
        → All (λ n. key_of n ≡ v.key) (load v)
    starts_keyed d v e = elim (Bool-cases (d == pool.next)) [
      | inl same ↦ let it : w ≡ v = cc (rw same at e) in rw (← it) (refl, tt)
      | inr differ ↦ h.keyed d v (rw differ at e)
    ]

    stays_held :
        (k : Text) → text_eq (key_of m) k ≡ false → held (spawn_worker pool m) k ≡ held pool k
    stays_held k differ = elim (Option-cases (HashMap.get pool.map k)) [
      | inl e ↦ ground (arith, get-insert pool.map (key_of m) k pool.next)
      | inr (d, e) ↦
          let (v, there, named) = h.mapped k d e in
          ground (arith, get-insert pool.map (key_of m) k pool.next, h.unused d)
    ]

    starts_kept :
        (k : Text)
        → for_key k pool.done ++ held (spawn_worker pool m) k ≡ for_key k (log ++ (m ∷ []))
    starts_kept k = elim (Bool-cases (text_eq (key_of m) k)) [
      | inl same ↦
          let named = (text_eq_iff (key_of m) k).0 same in
          let before : for_key k pool.done ≡ for_key k log =
            ground (arith, h.kept k, append-nil (for_key k pool.done)) in
          ground (
            arith,
            get-insert pool.map (key_of m) k pool.next,
            for_key-append k log (m ∷ []),
            before,
          )
      | inr differ ↦
          let stays : held (spawn_worker pool m) k ≡ held pool k = stays_held k differ in
          rw (stays, for_key-append k log (m ∷ []), differ, append-nil) (h.kept k)
    ]

-- A worker with nothing to do ends.
pub end-IsSerial :
    (log : List RoutedMsg) (pool : Pool) (c : ℕ) (w : Worker)
    → IsSerial log pool
    → pool.tasks c ≡ some w
    → load w ≡ []
    → IsSerial log
        (record pool { map = HashMap.remove pool.map w.key; tasks = update pool.tasks c none })
end-IsSerial log pool c w h at empty = record {
  live = λ d v e.
      ground (
        arith,
        get-remove pool.map w.key v.key,
        h.live c w at,
        h.live d v,
        text_eq_iff w.key v.key,
      );
  mapped = still_mapped;
  unused = λ d le. ground (arith, h.unused d);
  keyed = λ d v e. h.keyed d v (ground arith);
  kept = still_kept;
}
  where
    still_mapped :
        (k : Text) (d : ℕ)
        → HashMap.get (HashMap.remove pool.map w.key) k ≡ some d
        → (v : Worker) × (update pool.tasks c none d ≡ some v) × (v.key ≡ k)
    still_mapped k d e =
        let was : HashMap.get pool.map k ≡ some d = ground (arith, get-remove pool.map w.key k) in
        let other : text_eq w.key k ≡ false = ground (arith, get-remove pool.map w.key k) in
        let (v, there, named) = h.mapped k d was in (v, ground (arith, text_eq_iff w.key k), named)

    still_kept :
        (k : Text)
        → for_key k pool.done
            ++ held
                (record pool {
                  map = HashMap.remove pool.map w.key;
                  tasks = update pool.tasks c none;
                })
                k
          ≡ for_key k log
    still_kept k = elim (Bool-cases (text_eq w.key k)) [
      | inl mine ↦
          ground (arith, get-remove pool.map w.key k, text_eq_iff w.key k, h.live c w at, h.kept k)
      | inr other ↦ elim (Option-cases (HashMap.get pool.map k)) [
        | inl e ↦ ground (arith, get-remove pool.map w.key k, h.kept k)
        | inr (d, e) ↦
            let (v, there, named) = h.mapped k d e in
            ground (arith, get-remove pool.map w.key k, text_eq_iff w.key k, h.kept k)
      ]
    ]
