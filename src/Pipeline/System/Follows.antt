-- ===== src/Pipeline/System/Follows.antt =====
-- A task of pipeline.rs and the one before it: which of them has returned, and with what in the
-- channel between them.
use rust_pipeline.Base.{
  Bool, true, false, List, [], ◌∷◌, length, ltb, ◌≡◌, refl, Bool-cases, inl, inr,
}
use rust_pipeline.Pipeline.System.{
  Stage, waiting, holding, ended, give, close, is_ended, channel_buffer,
}

-- A task over the channel `queue` and behind the task `before`: it has returned only after that one,
-- with nothing left in the channel.
abbrev pub Follows : {A B : Type 0} → Stage B → Stage A → List A → Type 0
Follows ended before queue = (is_ended before ≡ true) × (queue ≡ [])
Follows waiting before queue = Unit
Follows (holding _) before queue = Unit

abbrev pub HoldsNothing : {A : Type 0} → Stage A → Type 0
HoldsNothing (holding _) = ⊥
HoldsNothing waiting = Unit
HoldsNothing ended = Unit

module _ {A B : Type 0} where
  -- The task that gives to a channel.
  pub give-Follows :
      (after : Stage B) (stage : Stage A) (queue : List A)
      → Follows after stage queue
      → Follows after (give stage (is_ended after) queue).0 (give stage (is_ended after) queue).1
  give-Follows ended (holding a) queue h = cc
  give-Follows ended waiting queue h = cc
  give-Follows ended ended queue h = h
  give-Follows waiting stage queue h = tt
  give-Follows (holding _) stage queue h = tt

  -- A task that does not return stands before what it stood before.
  pub taken-Follows :
      (after : Stage B) (before stage : Stage A) (queue : List A)
      → is_ended before ≡ false
      → Follows after before queue
      → Follows after stage queue
  taken-Follows ended before stage queue alive h = cc
  taken-Follows waiting before stage queue alive h = tt
  taken-Follows (holding _) before stage queue alive h = tt

module _ {A B : Type 0} where
  -- A task that has given on has not returned, if the one after it has not.
  pub given-Follows :
      (stage : Stage B) (gone : Bool) (to : List B) (before : Stage A) (queue : List A)
      → (gone ≡ true → is_ended stage ≡ true)
      → Follows stage before queue
      → Follows (give stage gone to).0 before queue
  given-Follows (holding b) true to before queue closed h = cc (closed refl)
  given-Follows (holding b) false to before queue closed h =
      elim (Bool-cases (ltb (length to) channel_buffer)) [
        | inl room ↦ rw room tt
        | inr full ↦ rw full tt
      ]
  given-Follows waiting gone to before queue closed h = tt
  given-Follows ended gone to before queue closed h = h

  pub close-Follows :
      (stage : Stage B) (before : Stage A) (queue : List A)
      → Follows stage before queue
      → Follows (close stage (is_ended before) queue) before queue
  close-Follows ended before queue h = h
  close-Follows (holding _) before queue h = tt
  close-Follows waiting ended [] h = (refl, refl)
  close-Follows waiting ended (_ ∷ _) h = tt
  close-Follows waiting waiting queue h = tt
  close-Follows waiting (holding _) queue h = tt

  pub closed-Follows :
      {C : Type 0} (after : Stage A) (stage : Stage B) (queue : List B) (gone : Bool)
      (before : List C)
      → Follows after stage queue
      → Follows after (close stage gone before) queue
  closed-Follows ended waiting queue gone before h = cc
  closed-Follows ended ended queue gone before h = h
  closed-Follows ended (holding _) queue gone before h = cc
  closed-Follows waiting stage queue gone before h = tt
  closed-Follows (holding _) stage queue gone before h = tt

  pub closed_by :
      (after : Stage A) (stage : Stage B) (queue : List B)
      → Follows after stage queue
      → is_ended after ≡ true
      → is_ended stage ≡ true
  closed_by ended stage queue h e = h.0
  closed_by waiting stage queue h e = cc
  closed_by (holding _) stage queue h e = cc

pub close-HoldsNothing :
    {A B : Type 0} (stage : Stage A) (gone : Bool) (queue : List B)
    → HoldsNothing stage
    → HoldsNothing (close stage gone queue)
close-HoldsNothing waiting true [] h = tt
close-HoldsNothing waiting true (_ ∷ _) h = tt
close-HoldsNothing waiting false queue h = tt
close-HoldsNothing ended gone queue h = tt
close-HoldsNothing (holding _) gone queue h = elim h [ ]
