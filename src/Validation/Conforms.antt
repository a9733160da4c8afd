-- ===== src/Validation/Conforms.antt =====
-- What validation accepts, independently of the code's loops.
use rust_pipeline.Base.{
  Text, text_eq, contains, true, false, Option, none, some, List, [], ◌∷◌, if◌then◌else◌, ◌≡◌, refl,
  ◌∙◌, ap, ◌↔◌, arith, All,
}
use rust_pipeline.Base.HashMap
use rust_pipeline.Base.HashMap.{HashMap, get-insert, get-empty}
use rust_pipeline.Base.Result.{ok, err, ◌>>◌}
use rust_pipeline.Error.{PipelineResult}
use rust_pipeline.Wire.Payload.{PayloadValue}
use rust_pipeline.Validation.{
  PayloadSchema, schema, FieldSchemas, no_schemas, field_schema, root_tag, declares, present,
  check_unexpected, check_required, validate_payload_value, SchemaRegistry, new, register,
  validate_value, permissive_schema,
}

-- Every declared field that is required is among the names.
abbrev pub HasRequired : List Text → FieldSchemas → Type 0
HasRequired names no_schemas = Unit
HasRequired names (field_schema n required type fields) =
    (required ≡ true → contains names n ≡ true) × HasRequired names fields

-- The value has every required field and, if the schema is strict, no field that is not declared.
abbrev pub Conforms : PayloadValue → PayloadSchema → Type 0
Conforms value (schema tag fields strict) =
    (strict ≡ true → All (λ name. declares fields name ≡ true) (present value))
    × HasRequired (present value) fields

check_unexpected_iff :
    (fields : FieldSchemas) (tag : Text) (names : List Text)
    → (check_unexpected fields tag names ≡ ok tt) ↔ All (λ name. declares fields name ≡ true) names
unfolding check_unexpected
check_unexpected_iff fields tag [] = ((λ _. tt), λ _. refl)
check_unexpected_iff fields tag (n ∷ names) =
    let (to, back) = check_unexpected_iff fields tag names in
    ((λ h. (ground arith, to (ground arith))), λ h. ground (arith, h.0, back h.1))

pub check_required_iff :
    (names : List Text) (tag : Text) (fields : FieldSchemas)
    → (check_required names tag fields ≡ ok tt) ↔ HasRequired names fields
unfolding check_required
check_required_iff names tag no_schemas = ((λ _. tt), λ _. refl)
check_required_iff names tag (field_schema n required type fields) =
    let (to, back) = check_required_iff names tag fields in
    ((λ h. ((λ r. ground arith), to (ground arith))), λ h. ground (arith, h.0, back h.1))

seq-ok : (m k : PipelineResult (Unit {0})) → ((m >> k) ≡ ok tt) ↔ (m ≡ ok tt) × (k ≡ ok tt)
seq-ok (ok u) k = ((λ h. (refl, h)), λ h. h.1)
seq-ok (err e) k = ((λ h. cc), λ h. cc)

-- Validation accepts exactly the values that conform to the schema.
pub validate_payload_value-Conforms :
    (value : PayloadValue) (s : PayloadSchema)
    → (validate_payload_value value s ≡ ok tt) ↔ Conforms value s
unfolding validate_payload_value
validate_payload_value-Conforms value (schema tag fields true) =
    let (split_ok, join_ok) =
      seq-ok (check_unexpected fields tag (present value))
        (check_required (present value) tag fields) in
    let (to, back) = check_unexpected_iff fields tag (present value) in
    let (to', back') = check_required_iff (present value) tag fields in
    (
      (λ h. ((λ _. to (split_ok h).0), to' (split_ok h).1)),
      λ h. join_ok (back (h.0 refl), back' h.1),
    )
validate_payload_value-Conforms value (schema tag fields false) =
    let (to', back') = check_required_iff (present value) tag fields in
    ((λ h. ((λ e. cc), to' h)), λ h. back' h.1)

pub build : SchemaRegistry → List PayloadSchema → SchemaRegistry
build reg [] = reg
build reg (s ∷ ss) = build (register reg s) ss

-- The last schema for a tag.
abbrev pub last_schema : Text → List PayloadSchema → Option PayloadSchema
last_schema tag [] = none
last_schema tag (s ∷ ss) =
    let later = last_schema tag ss in
    elim later [ some t ↦ some t | none ↦ (if text_eq (root_tag s) tag then some s else none) ]

-- A tag with no schema lets every value pass.
abbrev pub Admits : Option PayloadSchema → PayloadValue → Type 0
Admits none value = Unit
Admits (some s) value = Conforms value s

abbrev override : Option PayloadSchema → Option PayloadSchema → Option PayloadSchema
override before none = before
override before (some s) = some s

schemas-build :
    (reg : SchemaRegistry) (ss : List PayloadSchema) (tag : Text)
    → HashMap.get (build reg ss).schemas tag
      ≡ override (HashMap.get reg.schemas tag) (last_schema tag ss)
unfolding build register
schemas-build reg [] tag = refl
schemas-build reg (s ∷ ss) tag =
    schemas-build (register reg s) ss tag
    ∙ ap (λ (o : Option PayloadSchema). override o (last_schema tag ss))
        (get-insert reg.schemas (root_tag s) tag s)
    ∙ ground arith

schemas-build-new :
    (ss : List PayloadSchema) (tag : Text)
    → HashMap.get (build new ss).schemas tag ≡ last_schema tag ss
schemas-build-new ss tag =
    schemas-build new ss tag ∙ ground (arith, get-empty {V = PayloadSchema} tag)

-- After any registrations, a value passes under a tag exactly if the last schema registered for that
-- tag admits it, and every value passes under a tag with no schema.
pub validate_value-build :
    (ss : List PayloadSchema) (tag : Text) (value : PayloadValue)
    → (validate_value (build new ss) tag value ≡ ok tt) ↔ Admits (last_schema tag ss) value
unfolding validate_value
validate_value-build ss tag value = by_schema (last_schema tag ss) refl
  where
    by_schema :
        (o : Option PayloadSchema)
        → last_schema tag ss ≡ o
        → (validate_value (build new ss) tag value ≡ ok tt) ↔ Admits o value
    by_schema none e =
        let got = schemas-build-new ss tag ∙ e in
        rw (got, validate_value)
          (
            (λ _. tt),
            λ _. (validate_payload_value-Conforms value (permissive_schema tag)).1 ((λ e. cc), tt),
          )
    by_schema (some s) e =
        let got = schemas-build-new ss tag ∙ e in
        rw (got, validate_value) (validate_payload_value-Conforms value s)
