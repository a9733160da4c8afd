-- ===== src/Codec/Read.antt =====
-- `decode_envelope` and the functions that it calls, on the events that the reader will give. The
-- recursion of the values takes fuel.
pub mod Termination
pub mod Scalars
pub mod RoundTrip
pub mod Fits
pub mod Bounds
use rust_pipeline.Base.{
  ℕ, zero, suc, ◌+◌, ◌*◌, Text, text_eq, ascii, Bool, true, false, Option, none, some, List, [],
  ◌∷◌, ◌++◌, length, if◌then◌else◌,
}
use rust_pipeline.Base.Result.{ok, err}
use rust_pipeline.Base.Int.{ℤ}
use rust_pipeline.Error.{missing_meta}
use rust_pipeline.Wire.Address.{Address, parse}
use rust_pipeline.Wire.Provenance.{Provenance, empty}
use rust_pipeline.Wire.Payload.{
  PayloadValue, rec, seq, text, uint, sint, real, boolean, blob, nil, Fields, no_fields, field,
  Items, no_items, item, Payload, Envelope,
}
use rust_pipeline.Codec.{
  Xml, Event, start_tag, empty_tag, end_tag, text_run, other_event, Stream, Outcome, done, failed,
  panicked, exhausted, ◌>>=◌, parse_msg, or_parse_error, lift, or_msg, get_attr,
}
use rust_pipeline.Codec.Spaces.{trim}
use rust_pipeline.Codec.Decimal.{parse_u64, parse_i64}
use rust_pipeline.Codec.Hex.{from_hex, prov_from_hex}

unfoldable pub read_scalar : Xml → Text → Stream → Outcome (Text × Stream)
unfolding text_eq
read_scalar xml s [] = parse_msg (ascii "EOF in scalar <v>")
read_scalar xml s (err m ∷ events) = parse_msg m
read_scalar xml s (ok (text_run t) ∷ events) =
    or_parse_error (xml.unescape t) >>= λ u. read_scalar xml (s ++ u) events
read_scalar xml s (ok (end_tag name) ∷ events) = elim (text_eq name (ascii "v")) [
  | true ↦ done (s, events)
  | false ↦ read_scalar xml s events
]
read_scalar xml s (ok (start_tag _ _) ∷ events) = read_scalar xml s events
read_scalar xml s (ok (empty_tag _ _) ∷ events) = read_scalar xml s events
read_scalar xml s (ok other_event ∷ events) = read_scalar xml s events

abbrev expected_end : Xml → Text → Text → Text
expected_end xml name found = ascii "expected </" ++ xml.lossy name ++ ascii ">, found " ++ found

unfoldable pub expect_end : Xml → Text → Stream → Outcome Stream
unfolding text_eq
expect_end xml name [] = parse_msg (expected_end xml name (ascii "EOF"))
expect_end xml name (err m ∷ events) = parse_msg m
expect_end xml name (ok (text_run _) ∷ events) = expect_end xml name events
expect_end xml name (ok (end_tag n) ∷ events) =
    if text_eq n name
    then done events
    else parse_msg (expected_end xml name (xml.show_event (end_tag n)))
expect_end xml name (ok (start_tag n attrs) ∷ events) =
    parse_msg (expected_end xml name (xml.show_event (start_tag n attrs)))
expect_end xml name (ok (empty_tag n attrs) ∷ events) =
    parse_msg (expected_end xml name (xml.show_event (empty_tag n attrs)))
expect_end xml name (ok other_event ∷ events) =
    parse_msg (expected_end xml name (xml.show_event other_event))

unfoldable pub empty_value : Text → PayloadValue
unfolding text_eq
empty_value kind =
    if text_eq kind (ascii "rec")
    then rec no_fields
    else if text_eq kind (ascii "seq")
    then seq no_items
    else if text_eq kind (ascii "text")
    then text []
    else if text_eq kind (ascii "blob")
    then blob []
    else nil

-- The arms of `parse_value`.
pub data Kind : Type 0 where
  rec_kind seq_kind text_kind uint_kind sint_kind real_kind bool_kind blob_kind nil_kind
        unknown_kind :
      Kind

unfoldable pub kind_of : Text → Kind
unfolding text_eq
kind_of kind =
    if text_eq kind (ascii "rec")
    then rec_kind
    else if text_eq kind (ascii "seq")
    then seq_kind
    else if text_eq kind (ascii "text")
    then text_kind
    else if text_eq kind (ascii "uint")
    then uint_kind
    else if text_eq kind (ascii "sint")
    then sint_kind
    else if text_eq kind (ascii "real")
    then real_kind
    else if text_eq kind (ascii "bool")
    then bool_kind
    else if text_eq kind (ascii "blob")
    then blob_kind
    else if text_eq kind (ascii "nil")
    then nil_kind
    else unknown_kind

-- The value of a text, for the kinds that have one.
unfoldable pub scalar_value : Xml → Kind → Text → Outcome PayloadValue
unfolding parse_u64 parse_i64 from_hex text_eq
scalar_value xml text_kind s = done (text s)
scalar_value xml uint_kind s =
    or_msg (parse_u64 s) (ascii "invalid uint " ++ xml.show_text s) >>= λ n. done (uint n)
scalar_value xml sint_kind s =
    or_msg (parse_i64 s) (ascii "invalid sint " ++ xml.show_text s) >>= λ n. done (sint n)
scalar_value xml real_kind s =
    or_msg (xml.parse_real s) (ascii "invalid real " ++ xml.show_text s) >>= λ x. done (real x)
scalar_value xml bool_kind s = done (boolean (text_eq s (ascii "true")))
scalar_value xml blob_kind s = from_hex s >>= λ bytes. done (blob bytes)
scalar_value xml other s = done nil

-- The arms of `parse_value` that read one text.
unfoldable pub parse_scalar : Xml → Text → Kind → Stream → Outcome (PayloadValue × Stream)
unfolding read_scalar scalar_value
parse_scalar xml kind unknown_kind events =
    parse_msg (ascii "unknown value kind " ++ xml.show_text kind)
parse_scalar xml kind known events =
    read_scalar xml [] events >>= λ r. scalar_value xml known r.0 >>= λ v. done (v, r.1)

unfoldable mutual
  unfolding text_eq read_scalar expect_end empty_value kind_of parse_scalar

  pub expect_value : Xml → ℕ → Stream → Outcome (PayloadValue × Stream)
  expect_value xml zero events = exhausted
  expect_value xml (suc n) [] = parse_msg (ascii "expected <v>, found EOF")
  expect_value xml (suc n) (err m ∷ events) = parse_msg m
  expect_value xml (suc n) (ok (start_tag name attrs) ∷ events) = elim (text_eq name (ascii "v")) [
    | true ↦ parse_value xml n (get_attr xml attrs (ascii "k")) events
    | false ↦ parse_msg (ascii "expected <v>, found " ++ xml.show_event (start_tag name attrs))
  ]
  expect_value xml (suc n) (ok (empty_tag name attrs) ∷ events) =
      if text_eq name (ascii "v")
      then done (empty_value (get_attr xml attrs (ascii "k")), events)
      else parse_msg (ascii "expected <v>, found " ++ xml.show_event (empty_tag name attrs))
  expect_value xml (suc n) (ok (text_run _) ∷ events) = expect_value xml n events
  expect_value xml (suc n) (ok (end_tag name) ∷ events) =
      parse_msg (ascii "expected <v>, found " ++ xml.show_event (end_tag name))
  expect_value xml (suc n) (ok other_event ∷ events) =
      parse_msg (ascii "expected <v>, found " ++ xml.show_event other_event)

  pub parse_value : Xml → ℕ → Text → Stream → Outcome (PayloadValue × Stream)
  parse_value xml zero kind events = exhausted
  parse_value xml (suc n) kind events = elim (kind_of kind) [
    | rec_kind ↦ parse_fields xml n events >>= λ r. done (rec r.0, r.1)
    | seq_kind ↦ parse_items xml n events >>= λ r. done (seq r.0, r.1)
    | other ↦ parse_scalar xml kind other events
  ]

  -- The loop of the kind `rec`.
  pub parse_fields : Xml → ℕ → Stream → Outcome (Fields × Stream)
  parse_fields xml zero events = exhausted
  parse_fields xml (suc n) [] = parse_msg (ascii "EOF in <v k=rec>")
  parse_fields xml (suc n) (err m ∷ events) = parse_msg m
  parse_fields xml (suc n) (ok (start_tag name attrs) ∷ events) = elim (text_eq name (ascii "f")) [
    | true ↦ expect_value xml n events >>= λ r. expect_end xml (ascii "f") r.1 >>= λ events'.
        parse_fields xml n events' >>= λ more.
        done (field (get_attr xml attrs (ascii "n")) r.0 more.0, more.1)
    | false ↦ parse_fields xml n events
  ]
  parse_fields xml (suc n) (ok (end_tag name) ∷ events) = elim (text_eq name (ascii "v")) [
    | true ↦ done (no_fields, events)
    | false ↦ parse_fields xml n events
  ]
  parse_fields xml (suc n) (ok (empty_tag _ _) ∷ events) = parse_fields xml n events
  parse_fields xml (suc n) (ok (text_run _) ∷ events) = parse_fields xml n events
  parse_fields xml (suc n) (ok other_event ∷ events) = parse_fields xml n events

  -- The loop of the kind `seq`.
  pub parse_items : Xml → ℕ → Stream → Outcome (Items × Stream)
  parse_items xml zero events = exhausted
  parse_items xml (suc n) [] = parse_msg (ascii "EOF in <v k=seq>")
  parse_items xml (suc n) (err m ∷ events) = parse_msg m
  parse_items xml (suc n) (ok (start_tag name attrs) ∷ events) = elim (text_eq name (ascii "v")) [
    | true ↦ parse_value xml n (get_attr xml attrs (ascii "k")) events >>= λ r.
        parse_items xml n r.1 >>= λ more. done (item r.0 more.0, more.1)
    | false ↦ parse_items xml n events
  ]
  parse_items xml (suc n) (ok (empty_tag name attrs) ∷ events) =
      parse_items xml n events >>= λ more. done (
        if text_eq name (ascii "v")
        then (item (empty_value (get_attr xml attrs (ascii "k"))) more.0, more.1)
        else more)
  parse_items xml (suc n) (ok (end_tag name) ∷ events) = elim (text_eq name (ascii "v")) [
    | true ↦ done (no_items, events)
    | false ↦ parse_items xml n events
  ]
  parse_items xml (suc n) (ok (text_run _) ∷ events) = parse_items xml n events
  parse_items xml (suc n) (ok other_event ∷ events) = parse_items xml n events
