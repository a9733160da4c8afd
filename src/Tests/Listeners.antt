-- ===== src/Tests/Listeners.antt =====
-- The results on routing.rs, validation.rs and registry.rs at concrete listeners and schemas.
use rust_pipeline.Base.{Text, ascii, true, false, some, List, [], ◌∷◌, ◌≡◌, ◌↔◌, ◌⊎◌}
use rust_pipeline.Base.Result.{ok, err}
use rust_pipeline.Error.{peer_violation}
use rust_pipeline.Wire.Payload.{PayloadValue, record_of, text}
use rust_pipeline.Handler.{Handler, HandlerResponse}
use rust_pipeline.Routing.{Registration, wanted_key, resolve, enforce_peers}
use rust_pipeline.Routing
use rust_pipeline.Routing.History
use rust_pipeline.Routing.History.{
  matching, found, last_named, may_send, declared_peers, IsSetOf, resolve-build,
  enforce_peers-build, resolve_broadcast,
}
use rust_pipeline.Validation
use rust_pipeline.Validation.{
  PayloadSchema, schema, field_schema, no_schemas, FieldType, validate_payload_value,
  validate_value,
}
use rust_pipeline.Validation.Conforms
use rust_pipeline.Validation.Conforms.{
  Admits, last_schema, validate_payload_value-Conforms, validate_value-build,
}

-- An agent that may write to bob, and bob, who is no agent.
abbrev pub agent : Registration
agent = record {
  name = ascii "agent";
  payload_tag = ascii "Ask";
  is_agent = true;
  peers = ascii "bob" ∷ [];
  description = [];
}

abbrev pub bob : Registration
bob = record {
  name = ascii "bob";
  payload_tag = ascii "Say";
  is_agent = false;
  peers = [];
  description = [];
}

abbrev both : List Registration
both = agent ∷ bob ∷ []

resolve-build_example :
    resolve (λ t. t) (History.build (λ t. t) Routing.new both) (some (ascii "bob")) (ascii "Say")
    ≡ found (ascii "bob.Say") (matching (λ t. t) (ascii "bob.Say") both)
resolve-build_example = resolve-build (λ t. t) both (some (ascii "bob")) (ascii "Say")

enforce_peers-build_example :
    ((may_send (last_named (ascii "agent") both) (ascii "carol") ≡ true)
      × (enforce_peers (History.build (λ t. t) Routing.new both) (ascii "agent") (ascii "carol")
          ≡ ok tt))
    ⊎ ((may_send (last_named (ascii "agent") both) (ascii "carol") ≡ false)
        × ((allowed : List Text) × (enforce_peers
                (History.build (λ t. t) Routing.new both)
                (ascii "agent")
                (ascii "carol")
              ≡ err (peer_violation (ascii "agent") (ascii "carol") allowed))
            × IsSetOf allowed (declared_peers (last_named (ascii "agent") both))))
enforce_peers-build_example = enforce_peers-build (λ t. t) both (ascii "agent") (ascii "carol")

-- A strict schema with one required field, and a value of it.
abbrev say : PayloadSchema
say = schema (ascii "Say") (field_schema (ascii "words") true FieldType.string no_schemas) true

abbrev words : PayloadValue
words = record_of ((ascii "words", text (ascii "hello")) ∷ [])

validate_payload_value-Conforms_example :
    (validate_payload_value words say ≡ ok tt) ↔ Conforms.Conforms words say
validate_payload_value-Conforms_example = validate_payload_value-Conforms words say

validate_value-build_example :
    (validate_value (Conforms.build Validation.new (say ∷ [])) (ascii "Say") words ≡ ok tt)
    ↔ Admits (last_schema (ascii "Say") (say ∷ [])) words
validate_value-build_example = validate_value-build (say ∷ []) (ascii "Say") words

-- A handler that has nothing to say.
abbrev pub silent : Handler
silent payload ctx = ok HandlerResponse.none
