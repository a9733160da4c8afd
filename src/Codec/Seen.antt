-- ===== src/Codec/Seen.antt =====
-- What the reader, with `trim_text(true)`, gives of the events that the writer was given, and what
-- is documented of quick_xml and asked of it here.
use rust_pipeline.Base.{Text, List, [], ◌∷◌, ◌≡◌, ◌≢◌, All}
use rust_pipeline.Base.Result.{ok}
use rust_pipeline.Wire.Payload.{}
use rust_pipeline.Codec.{Xml, Event, start_tag, empty_tag, end_tag, text_run, other_event, Stream}
use rust_pipeline.Codec.Spaces.{Graphic}

-- An empty text is no event.
abbrev pub seen_text : Text → Stream → Stream
seen_text [] rest = rest
seen_text (c ∷ s) rest = ok (text_run (c ∷ s)) ∷ rest

abbrev pub seen : Xml → List Event → Stream
seen xml [] = []
seen xml (text_run t ∷ events) = seen_text (xml.trimmed t) (seen xml events)
seen xml (start_tag name attrs ∷ events) = ok (start_tag name attrs) ∷ seen xml events
seen xml (empty_tag name attrs ∷ events) = ok (empty_tag name attrs) ∷ seen xml events
seen xml (end_tag name ∷ events) = ok (end_tag name) ∷ seen xml events
seen xml (other_event ∷ events) = ok other_event ∷ seen xml events

-- Escaping is undone by unescaping, and visible ASCII with no markup stays as it is.
pub record IsLawful (xml : Xml) : Type 0 where
  pub unescape-escape : (t : Text) → xml.unescape (xml.escape t) ≡ ok t
  pub escape-Graphic : (t : Text) → All Graphic t → xml.escape t ≡ t
  pub lossy-Graphic : (t : Text) → All Graphic t → xml.lossy t ≡ t
  pub trimmed-Graphic : (t : Text) → All Graphic t → xml.trimmed t ≡ t

-- A text that `trim_text` leaves alone, and a text that is the same in an attribute.
abbrev pub KeepsText : Xml → Text → Type 0
KeepsText xml t = xml.trimmed (xml.escape t) ≡ xml.escape t

abbrev pub KeepsName : Xml → Text → Type 0
KeepsName xml t = xml.lossy (xml.escape t) ≡ t

module _ (xml : Xml) (laws : IsLawful xml) where
  pub KeepsText-Graphic : (t : Text) → All Graphic t → KeepsText xml t
  KeepsText-Graphic t g = rw (laws.escape-Graphic t g) (laws.trimmed-Graphic t g)

  pub KeepsName-Graphic : (t : Text) → All Graphic t → KeepsName xml t
  KeepsName-Graphic t g = rw (laws.escape-Graphic t g) (laws.lossy-Graphic t g)

  -- A text is empty when it is empty after escaping.
  pub escape-ne-nil : (t : Text) → t ≢ [] → xml.escape t ≢ []
  escape-ne-nil t ne e =
      let one = laws.unescape-escape t in
      let two = laws.unescape-escape [] in let empty = laws.escape-Graphic [] tt in ne cc
