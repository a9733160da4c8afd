-- ===== src/Codec/Decode.antt =====
-- `decode_envelope` and `read_meta`.
pub mod Termination
pub mod RoundTrip
pub mod Bounds
use rust_pipeline.Base.{
  ℕ, zero, suc, ◌+◌, ◌*◌, Text, text_eq, ascii, Bool, true, false, Option, none, some, List, [],
  ◌∷◌, ◌++◌, length, if◌then◌else◌,
}
use rust_pipeline.Base.Result.{ok, err, map_err, ok_or}
use rust_pipeline.Error.{PipelineResult, envelope_parse, missing_meta}
use rust_pipeline.Wire.Address.{Address, AddressError, empty_segment, unbalanced, empty_name, parse}
use rust_pipeline.Wire.Provenance.{Provenance, empty}
use rust_pipeline.Wire.Payload.{Payload, Meta, Envelope}
use rust_pipeline.Codec.{
  Xml, Event, start_tag, empty_tag, end_tag, text_run, other_event, Stream, Outcome, done, failed,
  panicked, exhausted, ◌>>=◌, parse_msg, or_parse_error, lift, get_attr,
}
use rust_pipeline.Codec.Spaces.{trim}
use rust_pipeline.Codec.Hex.{prov_from_hex}
use rust_pipeline.Codec.Read.{expect_value, expect_end}

-- The variables that the loops of `decode_envelope` and `read_meta` assign.
pub record Found : Type 0 where
  pub found_message : Bool
  pub from : Option Address
  pub to : Option Address
  pub thread : Option Text
  pub provenance : Provenance
  pub payload : Option Payload

abbrev pub nothing_found : Found
nothing_found = record {
  found_message = false;
  from = none;
  to = none;
  thread = none;
  provenance = empty;
  payload = none;
}

-- `From<AddressError>` of wire.rs.
unfoldable pub address_error : Xml → AddressError → Text
address_error xml AddressError.empty = ascii "empty address"
address_error xml (empty_segment s) = ascii "empty segment in address " ++ xml.show_text s
address_error xml (unbalanced s) = ascii "unbalanced '[' / ']' in address " ++ xml.show_text s
address_error xml (empty_name s) = ascii "empty segment name in address " ++ xml.show_text s

abbrev pub parse_address : Xml → Text → Outcome Address
parse_address xml s = or_parse_error (map_err (address_error xml) (parse s))

-- The `match` on the name of the element that a text of `<meta>` stands in.
unfoldable pub set_meta : Xml → Text → Text → Found → Outcome Found
unfolding text_eq address_error parse prov_from_hex
set_meta xml name s found =
    if text_eq name (ascii "from")
    then (parse_address xml s >>= λ a. done (record found { from = some a }))
    else if text_eq name (ascii "to")
    then (parse_address xml s >>= λ a. done (record found { to = some a }))
    else if text_eq name (ascii "thread")
    then done (record found { thread = some s })
    else if text_eq name (ascii "provenance")
    then (prov_from_hex s >>= λ p. done (record found { provenance = p }))
    else done found

unfoldable pub read_meta : Xml → Option Text → Found → Stream → Outcome (Found × Stream)
unfolding text_eq trim set_meta
read_meta xml now found [] = parse_msg (ascii "unexpected EOF in <meta>")
read_meta xml now found (err m ∷ events) = parse_msg m
read_meta xml now found (ok (start_tag name _) ∷ events) = read_meta xml (some name) found events
read_meta xml none found (ok (text_run t) ∷ events) = read_meta xml none found events
read_meta xml (some name) found (ok (text_run t) ∷ events) =
    or_parse_error (xml.unescape t) >>= λ u.
    set_meta xml name (trim u) found >>= λ found'. read_meta xml (some name) found' events
read_meta xml now found (ok (end_tag name) ∷ events) = elim (text_eq name (ascii "meta")) [
  | true ↦ done (found, events)
  | false ↦ read_meta xml none found events
]
read_meta xml now found (ok (empty_tag _ _) ∷ events) = read_meta xml now found events
read_meta xml now found (ok other_event ∷ events) = read_meta xml now found events

-- The start tags that the loop of `decode_envelope` tells apart.
pub data Element : Type 0 where
  message_element meta_element payload_element unknown_element : Element

unfoldable pub element_of : Text → Element
unfolding text_eq
element_of name =
    if text_eq name (ascii "message")
    then message_element
    else if text_eq name (ascii "meta")
    then meta_element
    else if text_eq name (ascii "payload")
    then payload_element
    else unknown_element

unfoldable pub decode_loop : Xml → ℕ → Found → Stream → Outcome Found
unfolding element_of read_meta expect_value expect_end text_eq
decode_loop xml zero found events = exhausted
decode_loop xml (suc n) found [] = done found
decode_loop xml (suc n) found (err m ∷ events) = parse_msg m
decode_loop xml (suc n) found (ok (start_tag name attrs) ∷ events) = elim (element_of name) [
  | message_element ↦ decode_loop xml n (record found { found_message = true }) events
  | meta_element ↦ read_meta xml none found events >>= λ r. decode_loop xml n r.0 r.1
  | payload_element ↦ expect_value xml n events >>= λ r.
      expect_end xml (ascii "payload") r.1 >>= λ events'.
      decode_loop xml n
        (record found {
          payload = some (record { tag = get_attr xml attrs (ascii "tag"); value = r.0 });
        })
        events'
  | unknown_element ↦ parse_msg (ascii "unexpected element <" ++ xml.lossy name ++ ascii ">")
]
decode_loop xml (suc n) found (ok (end_tag name) ∷ events) = elim (text_eq name (ascii "message")) [
  | true ↦ done found
  | false ↦ decode_loop xml n found events
]
decode_loop xml (suc n) found (ok (empty_tag _ _) ∷ events) = decode_loop xml n found events
decode_loop xml (suc n) found (ok (text_run _) ∷ events) = decode_loop xml n found events
decode_loop xml (suc n) found (ok other_event ∷ events) = decode_loop xml n found events

abbrev pub required {ℓ} : {A : Type ℓ} → Option A → Text → Outcome A
required o name = lift (ok_or o (missing_meta name))

unfoldable pub envelope_of : Found → Outcome Envelope
envelope_of found =
    if found.found_message
    then (required found.from (ascii "from") >>= λ from.
        required found.thread (ascii "thread") >>= λ thread.
        required found.payload (ascii "payload") >>= λ payload. done (record {
          meta = record {
            from = from;
            to = found.to;
            thread = thread;
            provenance = found.provenance;
          };
          payload = payload;
        }))
    else parse_msg (ascii "no <message> element")

-- Enough fuel for the loop on these events.
abbrev pub fuel_for : Stream → ℕ
fuel_for events = 2 * length events + 1

unfoldable pub decode_events : Xml → Stream → Outcome Envelope
unfolding decode_loop envelope_of
decode_events xml events = decode_loop xml (fuel_for events) nothing_found events >>= envelope_of

unfoldable pub decode_envelope : Xml → List ℕ → Outcome Envelope
unfolding decode_events
decode_envelope xml raw = decode_events xml (xml.read raw)
