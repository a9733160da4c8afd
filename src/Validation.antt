-- ===== src/Validation.antt =====
-- validation.rs: schemas of payloads, and the check of a decoded value against its schema.
-- `PayloadSchema::fields` is a map; it is the list `FieldSchemas` here, since a schema may stand
-- inside a field's type. `HashMap` and `HashSet` give no order of iteration: which of several
-- faults is reported is the list's choice. The messages are those of the source.
pub mod Conforms
pub mod Xml
use rust_pipeline.Base.{
  Text, ascii, text_eq, contains, Bool, true, false, not, ◌&&◌, Option, none, some, List, [], ◌∷◌,
  ◌++◌, if◌then◌else◌,
}
use rust_pipeline.Base.HashMap
use rust_pipeline.Base.HashMap.{HashMap}
use rust_pipeline.Base.Result.{Result, ok, err, ◌>>=◌, ◌>>◌}
use rust_pipeline.Error.{PipelineError, PipelineResult, validation}
use rust_pipeline.Wire.Payload.{PayloadValue, rec, field_names}

mutual
  pub data PayloadSchema : Type 0 where
    -- `root_tag`, `fields`, `strict`
    schema : Text → FieldSchemas → Bool → PayloadSchema

  pub data FieldSchemas : Type 0 where
    no_schemas : FieldSchemas
    -- name, `required`, `field_type`
    field_schema : Text → Bool → FieldType → FieldSchemas → FieldSchemas

  pub data FieldType : Type 0 where
    string integer boolean any : FieldType
    complex : PayloadSchema → FieldType

abbrev pub root_tag : PayloadSchema → Text
root_tag (schema tag fields strict) = tag

-- `schema.fields.contains_key(name)`.
abbrev pub declares : FieldSchemas → Text → Bool
declares no_schemas name = false
declares (field_schema n required type fields) name =
    let rest = declares fields name in if text_eq n name then true else rest

abbrev pub unexpected : Text → Text → PipelineError
unexpected name tag =
    validation (ascii "unexpected element <" ++ (name ++ (ascii "> in <" ++ (tag ++ ascii ">"))))

abbrev pub missing : Text → Text → PipelineError
missing name tag =
    validation
      (ascii "missing required element <" ++ (name ++ (ascii "> in <" ++ (tag ++ ascii ">"))))

-- `HashSet` of the field names of a record; no other value has any.
unfoldable pub present : PayloadValue → List Text
present (rec fields) = field_names fields
present _ = []

-- The loop over the names that are present, in strict mode.
unfoldable pub check_unexpected : FieldSchemas → Text → List Text → PipelineResult (Unit {0})
check_unexpected fields tag [] = ok tt
check_unexpected fields tag (name ∷ names) =
    let rest = check_unexpected fields tag names in
    if not (declares fields name) then err (unexpected name tag) else rest

-- The loop over the declared fields.
unfoldable pub check_required : List Text → Text → FieldSchemas → PipelineResult (Unit {0})
check_required names tag no_schemas = ok tt
check_required names tag (field_schema n required type fields) =
    let rest = check_required names tag fields in
    if required && not (contains names n) then err (missing n tag) else rest

unfoldable pub validate_payload_value : PayloadValue → PayloadSchema → PipelineResult (Unit {0})
unfolding present check_unexpected check_required
validate_payload_value value (schema tag fields strict) = do
  if strict then check_unexpected fields tag (present value) else ok tt
  check_required (present value) tag fields

abbrev pub permissive_schema : Text → PayloadSchema
permissive_schema tag = schema tag no_schemas false

pub record SchemaRegistry : Type 0 where
  pub schemas : HashMap PayloadSchema

abbrev pub new : SchemaRegistry
new = record { schemas = HashMap.empty }

unfoldable pub register : SchemaRegistry → PayloadSchema → SchemaRegistry
register reg s = record { schemas = HashMap.insert reg.schemas (root_tag s) s }

unfoldable pub get : SchemaRegistry → Text → Option PayloadSchema
get reg tag = HashMap.get reg.schemas tag

unfoldable pub validate_value : SchemaRegistry → Text → PayloadValue → PipelineResult (Unit {0})
unfolding validate_payload_value
validate_value reg tag value = elim (HashMap.get reg.schemas tag) [
  | some s ↦ validate_payload_value value s
  | none ↦ validate_payload_value value (permissive_schema tag)
]
