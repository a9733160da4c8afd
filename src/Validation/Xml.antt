-- ===== src/Validation/Xml.antt =====
-- `validate_payload` of validation.rs, the check of a payload's XML, on the events that the reader
-- gives. The depth is a `u32`, which wraps as in a release build.
pub mod Trees
pub mod Agreement
use rust_pipeline.Base.{
  ℕ, suc, ◌+◌, ◌-◌, ◌%◌, ◌^◌, Text, ascii, text_eq, Bool, true, false, not, ◌&&◌, Option, none,
  some, List, [], ◌∷◌, ◌++◌, ◌==◌, if◌then◌else◌,
}
use rust_pipeline.Base.HashMap
use rust_pipeline.Base.Split.{after_last}
use rust_pipeline.Base.Result.{Result, ok, err, ◌>>=◌}
use rust_pipeline.Error.{PipelineResult, validation}
use rust_pipeline.Codec.{Xml, Event, start_tag, empty_tag, end_tag, text_run, other_event, Stream}
use rust_pipeline.Validation.{
  PayloadSchema, schema, root_tag, FieldSchemas, declares, check_required, permissive_schema,
  SchemaRegistry,
}

-- `is_utf8` is the test of `std::str::from_utf8`.
unfoldable pub local_name : (Text → Bool) → Text → Text
unfolding after_last
local_name is_utf8 name =
    if is_utf8 name then elim (after_last b':' name) [ some t ↦ t | none ↦ name ] else []

-- The variables of the loop; `found_fields` holds the keys of the map, whose values are all `true`.
pub record Walk : Type 0 where
  pub found_root : Bool
  pub found_fields : List Text
  pub depth : ℕ

abbrev pub at_start : Walk
at_start = record { found_root = false; found_fields = []; depth = 0 }

abbrev pub down : ℕ → ℕ
down d = (d + 1) % 2 ^ 32

abbrev pub up : ℕ → ℕ
up d = (d + 2 ^ 32 - 1) % 2 ^ 32

-- The part that a start tag and an empty tag have in common. They differ in the end of the message.
unfoldable pub opened : FieldSchemas → Text → Bool → Text → Text → Walk → PipelineResult Walk
unfolding text_eq
opened fields root strict close tag walk =
    let d = down walk.depth in
    if d == 1
    then if not (text_eq tag root)
      then err
          (validation (ascii "expected root <" ++ (root ++ (ascii ">, found <" ++ (tag ++ close)))))
      else ok (record walk { found_root = true; depth = d })
    else if d == 2 && walk.found_root
    then if strict && not (declares fields tag)
      then err (
          validation (
            ascii "unexpected element <"
            ++ (tag ++ (close ++ (ascii " in <" ++ (root ++ ascii ">"))))))
      else ok (record walk { found_fields = tag ∷ walk.found_fields; depth = d })
    else ok (record walk { depth = d })

module _ (is_utf8 : Text → Bool) where
  unfoldable pub walk_events : FieldSchemas → Text → Bool → Walk → Stream → PipelineResult Walk
  unfolding local_name opened
  walk_events fields root strict walk [] = ok walk
  walk_events fields root strict walk (err m ∷ events) =
      err (validation (ascii "XML parse error during validation: " ++ m))
  walk_events fields root strict walk (ok (start_tag name _) ∷ events) =
      opened fields root strict (ascii ">") (local_name is_utf8 name) walk >>= λ walk'.
      walk_events fields root strict walk' events
  walk_events fields root strict walk (ok (empty_tag name _) ∷ events) =
      opened fields root strict (ascii "/>") (local_name is_utf8 name) walk >>= λ walk'.
      walk_events fields root strict (record walk' { depth = up walk'.depth }) events
  walk_events fields root strict walk (ok (end_tag _) ∷ events) =
      walk_events fields root strict (record walk { depth = up walk.depth }) events
  walk_events fields root strict walk (ok (text_run _) ∷ events) =
      walk_events fields root strict walk events
  walk_events fields root strict walk (ok other_event ∷ events) =
      walk_events fields root strict walk events

  -- After the loop.
  unfoldable pub checked : FieldSchemas → Text → Walk → PipelineResult (Unit {0})
  unfolding check_required
  checked fields root walk =
      if not walk.found_root
      then err (validation (ascii "no root element found in payload"))
      else check_required walk.found_fields root fields

  unfoldable pub validate_events : PayloadSchema → Stream → PipelineResult (Unit {0})
  unfolding walk_events checked
  validate_events (schema root fields strict) events =
      walk_events fields root strict at_start events >>= λ walk. checked fields root walk

  unfoldable pub validate_payload : Xml → List ℕ → PayloadSchema → PipelineResult (Unit {0})
  unfolding validate_events
  validate_payload xml payload_xml s = validate_events s (xml.read payload_xml)

  -- `SchemaRegistry::validate`.
  unfoldable pub validate : Xml → SchemaRegistry → Text → List ℕ → PipelineResult (Unit {0})
  unfolding validate_payload
  validate xml reg tag payload_xml = elim (HashMap.get reg.schemas tag) [
    | some s ↦ validate_payload xml payload_xml s
    | none ↦ validate_payload xml payload_xml (permissive_schema tag)
  ]
