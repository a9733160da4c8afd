-- ===== src/Tests/Xml.antt =====
-- The result on the XML check of validation.rs for a greeting.
use rust_pipeline.Base.{Text, ascii, contains, Bool, true, false, [], ◌≡◌, refl}
use rust_pipeline.Base.Result.{ok, err}
use rust_pipeline.Wire.Payload.{Fields, no_fields, field, nil}
use rust_pipeline.Validation.{schema, FieldSchemas, no_schemas, field_schema, string, missing}
use rust_pipeline.Validation.Xml.{validate_events}
use rust_pipeline.Validation.Xml.Trees.{Nodes, no_nodes, element, empty_element, characters}
use rust_pipeline.Validation.Xml.Agreement.{document}

-- The schema of the source's tests.
abbrev greeting : FieldSchemas
greeting =
    field_schema (ascii "text") true string (field_schema (ascii "name") false string no_schemas)

-- `<n:text>hi<b/></n:text><name/>`
abbrev content : Nodes
content =
    element (ascii "n:text") [] (characters (ascii "hi") (empty_element (ascii "b") [] no_nodes))
      (empty_element (ascii "name") [] no_nodes)

abbrev as_fields : Fields
as_fields = field (ascii "text") nil (field (ascii "name") nil no_fields)

abbrev any_bytes : Text → Bool
any_bytes s = true

-- The greeting passes, and a document without a text does not.
greeting_passes :
    (validate_events any_bytes
        (schema (ascii "Greeting") greeting true)
        (document (ascii "Greeting") [] content)
      ≡ ok tt)
    × (validate_events any_bytes
          (schema (ascii "Greeting") greeting true)
          (document (ascii "Greeting") [] no_nodes)
        ≡ err (missing (ascii "text") (ascii "Greeting")))
unfolding validate_events contains
greeting_passes = (refl, refl)
