-- ===== src/Codec/Write.antt =====
-- `encode_envelope` and the functions that it calls. Each says what it writes before `rest`, the
-- events that are written after it.
use rust_pipeline.Base.{ℕ, Text, ascii, Option, none, some, List, [], ◌∷◌, if◌then◌else◌}
use rust_pipeline.Base.Result.{map_err}
use rust_pipeline.Error.{PipelineResult, serialization}
use rust_pipeline.Wire.Address.{Address, display}
use rust_pipeline.Wire.Provenance.{is_empty}
use rust_pipeline.Wire.Payload.{
  PayloadValue, rec, seq, text, uint, sint, real, boolean, blob, nil, Fields, no_fields, field,
  Items, no_items, item, Envelope,
}
use rust_pipeline.Codec.{Xml, Event, start_tag, empty_tag, end_tag, text_run, Attributes}
use rust_pipeline.Codec.Decimal.{show_u64, show_i64}
use rust_pipeline.Codec.Hex.{to_hex, prov_to_hex}

abbrev pub envelope_ns : Text
envelope_ns = ascii "https://xml-pipeline.org/ns/envelope/v1"

-- `push_attribute` escapes the value.
abbrev pub attribute : Xml → Text → Text → Attributes
attribute xml key value = (key, xml.escape value) ∷ []

abbrev pub v_start : Xml → Text → Attributes
v_start xml kind = attribute xml (ascii "k") kind

abbrev pub text_el : Xml → Text → Text → List Event → List Event
text_el xml tag t rest = start_tag tag [] ∷ text_run (xml.escape t) ∷ end_tag tag ∷ rest

abbrev pub scalar : Xml → Text → Text → List Event → List Event
scalar xml kind t rest =
    start_tag (ascii "v") (v_start xml kind) ∷ text_run (xml.escape t) ∷ end_tag (ascii "v") ∷ rest

unfoldable mutual
  unfolding show_u64 show_i64 to_hex

  pub write_value : Xml → PayloadValue → List Event → List Event
  write_value xml (rec fields) rest =
      start_tag (ascii "v") (v_start xml (ascii "rec"))
      ∷ write_fields xml fields (end_tag (ascii "v") ∷ rest)
  write_value xml (seq items) rest =
      start_tag (ascii "v") (v_start xml (ascii "seq"))
      ∷ write_items xml items (end_tag (ascii "v") ∷ rest)
  write_value xml (text s) rest = scalar xml (ascii "text") s rest
  write_value xml (uint n) rest = scalar xml (ascii "uint") (show_u64 n) rest
  write_value xml (sint n) rest = scalar xml (ascii "sint") (show_i64 n) rest
  write_value xml (real x) rest = scalar xml (ascii "real") (xml.show_real x) rest
  write_value xml (boolean b) rest =
      scalar xml (ascii "bool") (if b then ascii "true" else ascii "false") rest
  write_value xml (blob bytes) rest = scalar xml (ascii "blob") (to_hex bytes) rest
  write_value xml nil rest = empty_tag (ascii "v") (v_start xml (ascii "nil")) ∷ rest

  pub write_fields : Xml → Fields → List Event → List Event
  write_fields xml no_fields rest = rest
  write_fields xml (field name value fields) rest =
      start_tag (ascii "f") (attribute xml (ascii "n") name)
      ∷ write_value xml value (end_tag (ascii "f") ∷ write_fields xml fields rest)

  pub write_items : Xml → Items → List Event → List Event
  write_items xml no_items rest = rest
  write_items xml (item value items) rest = write_value xml value (write_items xml items rest)

abbrev pub write_to : Xml → Option Address → List Event → List Event
write_to xml none rest = rest
write_to xml (some to) rest = text_el xml (ascii "to") (display to) rest

unfoldable pub write_envelope : Xml → Envelope → List Event
unfolding display is_empty prov_to_hex write_value
write_envelope xml env =
    start_tag (ascii "message") (attribute xml (ascii "xmlns") envelope_ns)
    ∷ start_tag (ascii "meta") []
    ∷ text_el xml (ascii "from") (display env.meta.from) (
        write_to xml env.meta.to (
          text_el xml (ascii "thread") env.meta.thread (
            let rest =
              end_tag (ascii "meta")
              ∷ start_tag (ascii "payload") (attribute xml (ascii "tag") env.payload.tag)
              ∷ write_value xml env.payload.value
                  (end_tag (ascii "payload") ∷ end_tag (ascii "message") ∷ []) in
            if is_empty env.meta.provenance
            then rest
            else text_el xml (ascii "provenance") (prov_to_hex env.meta.provenance) rest)))

unfoldable pub encode_envelope : Xml → Envelope → PipelineResult (List ℕ)
unfolding write_envelope
encode_envelope xml env = map_err serialization (xml.write (write_envelope xml env))
