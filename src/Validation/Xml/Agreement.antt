-- ===== src/Validation/Xml/Agreement.antt =====
-- The check of a payload's XML and the check of a decoded value agree.
use rust_pipeline.Base.{Text, Bool, [], ◌∷◌}
use rust_pipeline.Base.Result.{ok}
use rust_pipeline.Error.{PipelineResult}
use rust_pipeline.Codec.{start_tag, end_tag, Stream, Attributes}
use rust_pipeline.Validation.{schema, FieldSchemas}
use rust_pipeline.Validation.Xml.{validate_events}
use rust_pipeline.Validation.Xml.Trees.{Nodes, events_of}

-- A root element with its content.
abbrev pub document : Text → Attributes → Nodes → Stream
document tag attrs nodes = ok (start_tag tag attrs) ∷ events_of nodes (ok (end_tag tag) ∷ [])

module _ (is_utf8 : Text → Bool) (fields : FieldSchemas) (root : Text) (strict : Bool) (tag : Text)
    (attrs : Attributes) (nodes : Nodes) where
  abbrev outcome : PipelineResult (Unit {0})
  outcome = validate_events is_utf8 (schema root fields strict) (document tag attrs nodes)
