-- ===== src/Pipeline/System/Holding.antt =====
-- What holds of the message that a stage task has, after it gives the message on, or ends.
use rust_pipeline.Base.{
  Bool, true, false, Option, none, some, List, [], ◌∷◌, length, ltb, ◌≡◌, refl, All, All-append,
  Bool-cases, inl, inr,
}
use rust_pipeline.Pipeline.System.{
  Stage, waiting, holding, ended, holds, give, close, channel_buffer,
}

abbrev pub Held : {A : Type 0} → (A → Type 0) → Stage A → Type 0
Held P waiting = Unit
Held P (holding a) = P a
Held P ended = Unit

module _ {A : Type 0} (P : A → Type 0) where
  pub give-Held :
      (stage : Stage A) (gone : Bool) (queue : List A)
      → Held P stage
      → All P queue
      → Held P (give stage gone queue).0 × All P (give stage gone queue).1
  give-Held (holding a) true queue h all = (tt, all)
  give-Held (holding a) false queue h all = elim (Bool-cases (ltb (length queue) channel_buffer)) [
    | inl room ↦ rw room (tt, All-append P queue (a ∷ []) all (h, tt))
    | inr full ↦ rw full (h, all)
  ]
  give-Held waiting gone queue h all = (h, all)
  give-Held ended gone queue h all = (h, all)

  pub close-Held :
      {B : Type 0} (stage : Stage A) (gone : Bool) (queue : List B)
      → Held P stage
      → Held P (close stage gone queue)
  close-Held waiting true [] h = tt
  close-Held waiting true (_ ∷ _) h = tt
  close-Held waiting false queue h = tt
  close-Held (holding a) gone queue h = h
  close-Held ended gone queue h = tt

  pub holds-Held : (o : Option A) → ((a : A) → o ≡ some a → P a) → Held P (holds o)
  holds-Held none h = tt
  holds-Held (some a) h = h a refl
