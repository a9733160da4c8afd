-- ===== src/Codec.antt =====
-- codec.rs: what the encoder and the decoder say to quick_xml, and the outcomes of the decoder. The
-- library quick_xml is a parameter, the record `Xml`: a `Writer` turns events into bytes, and a
-- `Reader` with `trim_text(true)` turns bytes into events, up to the end of the file.
pub mod Spaces
pub mod Decimal
pub mod Hex
pub mod Seen
pub mod Write
pub mod Read
pub mod Decode
use rust_pipeline.Base.{
  ℕ, Text, text_eq, ascii, Bool, Option, none, some, List, [], ◌∷◌, if◌then◌else◌,
}
use rust_pipeline.Base.Result.{Result, ok, err}
use rust_pipeline.Error.{PipelineError, PipelineResult, envelope_parse}

-- The attributes of a tag that can be read, with their values as they stand in the file.
abbrev pub Attributes : Type 0
Attributes = List (Text × Text)

pub data Event : Type 0 where
  start_tag empty_tag : Text → Attributes → Event
  end_tag : Text → Event
  -- the text as it stands in the file
  text_run : Text → Event
  -- a comment, a CDATA section, a declaration, an instruction or a document type
  other_event : Event

pub record Xml : Type 0 where
  pub escape : Text → Text
  pub unescape : Text → Result Text Text
  pub write : List Event → Result Text (List ℕ)
  -- an error is the last item
  pub read : List ℕ → List (Result Text Event)
  -- what `trim_text` leaves of a text
  pub trimmed : Text → Text
  -- `String::from_utf8_lossy`
  pub lossy : Text → Text
  -- `{:?}` of an event
  pub show_event : Event → Text
  -- `{:?}` of a text
  pub show_text : Text → Text
  -- `to_string` and `parse` of an `f64`, which is given by its bits
  pub show_real : ℕ → Text
  pub parse_real : Text → Option ℕ

abbrev pub Stream : Type 0
Stream = List (Result Text Event)

-- How a function of the decoder ends. `panicked` is a slice inside a character. `exhausted` is no
-- outcome of the code: it means that the recursion was given too little fuel.
pub data Outcome {ℓ} (A : Type ℓ) : Type ℓ where
  done : A → Outcome A
  failed : PipelineError → Outcome A
  panicked exhausted : Outcome A

infixl 5 ◌>>=◌ ◌>>◌
abbrev pub ◌>>=◌ {ℓ κ} : {A : Type ℓ} {B : Type κ} → Outcome A → (A → Outcome B) → Outcome B
done a >>= next = next a
failed e >>= next = failed e
panicked >>= next = panicked
exhausted >>= next = exhausted

abbrev pub ◌>>◌ {ℓ κ} : {A : Type ℓ} {B : Type κ} → Outcome A → Outcome B → Outcome B
m >> next = m >>= λ _. next

-- `parse_msg`.
abbrev pub parse_msg {ℓ} : {A : Type ℓ} → Text → Outcome A
parse_msg m = failed (envelope_parse m)

-- `map_err(parse)?`.
abbrev pub or_parse_error {ℓ} : {A : Type ℓ} → Result Text A → Outcome A
or_parse_error (ok a) = done a
or_parse_error (err m) = parse_msg m

-- `?` on a result of the crate's own.
abbrev pub lift {ℓ} : {A : Type ℓ} → PipelineResult A → Outcome A
lift (ok a) = done a
lift (err e) = failed e

abbrev pub or_msg {ℓ} : {A : Type ℓ} → Option A → Text → Outcome A
or_msg none m = parse_msg m
or_msg (some a) m = done a

abbrev pub find_attr : Attributes → Text → Option Text
find_attr [] key = none
find_attr ((k, v) ∷ attrs) key = if text_eq k key then some v else find_attr attrs key

-- `get_attr(..).unwrap_or_default()`. The value is not unescaped.
abbrev pub get_attr : Xml → Attributes → Text → Text
get_attr xml attrs key = elim (find_attr attrs key) [ none ↦ [] | some v ↦ xml.lossy v ]
