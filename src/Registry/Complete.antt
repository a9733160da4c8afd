-- ===== src/Registry/Complete.antt =====
-- The registry has a handler for every listener that its routing table can return.
use rust_pipeline.Base.{
  Text, text_eq, Option, none, List, [], ◌∷◌, ◌++◌, ◌≢◌, arith, All, All-append, Bool-cases, inl,
  inr,
}
use rust_pipeline.Base.HashMap
use rust_pipeline.Base.HashMap.{HashMap, get-insert, get-insert_self, get-empty}
use rust_pipeline.Handler.{Handler}
use rust_pipeline.Routing.{Registration, ListenerEntry, or_default, entry_of, route_key_of}
use rust_pipeline.Validation.{PayloadSchema}
use rust_pipeline.Registry.{ListenerRegistry, new, register, get_handler}

-- Every listener that routing can return has a handler.
pub record IsComplete (reg : ListenerRegistry) : Type 0 where
  pub handled :
      (key : Text)
      → All
          (λ (e : ListenerEntry). get_handler reg e.name ≢ none)
          (or_default (HashMap.get reg.routing.routes key))

pub new-IsComplete : IsComplete new
unfolding new
new-IsComplete = record { handled = λ key. rw (get-empty {V = List ListenerEntry} key) tt }

handled-register :
    (lower : Text → Text) (reg : ListenerRegistry) (r : Registration) (handler : Handler)
    (schema : Option PayloadSchema) (l : List ListenerEntry)
    → All (λ (e : ListenerEntry). get_handler reg e.name ≢ none) l
    → All (λ (e : ListenerEntry). get_handler (register lower reg r handler schema) e.name ≢ none) l
unfolding get_handler register
handled-register lower reg r handler schema [] h = tt
handled-register lower reg r handler schema (e ∷ l) h = (
  (λ miss. h.0 (ground (arith, get-insert reg.handlers r.name e.name handler))),
  handled-register lower reg r handler schema l h.1,
)

-- If every listener that routing can return has a handler, that is so after a registration.
pub register-IsComplete :
    (lower : Text → Text) (reg : ListenerRegistry) (r : Registration) (handler : Handler)
    (schema : Option PayloadSchema)
    → IsComplete reg
    → IsComplete (register lower reg r handler schema)
unfolding register get_handler
register-IsComplete lower reg r handler schema h = record { handled = at_key }
  where
    own : Text
    own = route_key_of lower r.name r.payload_tag

    before : List ListenerEntry
    before = or_default (HashMap.get reg.routing.routes own)

    Handled : ListenerEntry → Type 0
    Handled e = get_handler (register lower reg r handler schema) e.name ≢ none

    fresh_entry : Handled (entry_of lower r)
    fresh_entry miss = cc (miss, get-insert_self reg.handlers r.name handler)

    at_key :
        (key : Text)
        → All Handled (
            or_default (
              HashMap.get
                (HashMap.insert reg.routing.routes own (before ++ (entry_of lower r ∷ [])))
                key))
    at_key key = elim (Bool-cases (text_eq own key)) [
      | inl e ↦
          rw (get-insert reg.routing.routes own key (before ++ (entry_of lower r ∷ [])), e)
            (All-append Handled before (entry_of lower r ∷ [])
              (handled-register lower reg r handler schema before (h.handled own))
              (fresh_entry, tt))
      | inr e ↦
          rw (get-insert reg.routing.routes own key (before ++ (entry_of lower r ∷ [])), e)
            (handled-register lower reg r handler schema
              (or_default (HashMap.get reg.routing.routes key)) (h.handled key))
    ]
