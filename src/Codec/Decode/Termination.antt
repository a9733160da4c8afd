-- ===== src/Codec/Decode/Termination.antt =====
-- `decode_envelope` comes to an end: the loops of codec.rs take an event or stop.
use mathlib.Core.Path.{subst}
use rust_pipeline.Base.{
  ℕ, zero, suc, ◌+◌, ◌*◌, ◌≤◌, Text, text_eq, ascii, true, false, Option, none, some, List, [], ◌∷◌,
  ◌++◌, length, ◌≢◌, arith,
}
use rust_pipeline.Base.Result.{ok, err}
use rust_pipeline.Codec.{
  Xml, start_tag, empty_tag, end_tag, text_run, other_event, Stream, done, exhausted, ◌>>=◌,
  or_parse_error, parse_msg, get_attr,
}
use rust_pipeline.Codec.Spaces.{trim}
use rust_pipeline.Codec.Hex.{prov_from_hex}
use rust_pipeline.Codec.Read.{expect_value, expect_end}
use rust_pipeline.Codec.Read.Termination.{
  Ends, >>=-Ends, Left, or_parse_error-Ends, expect_end-Ends, expect_value-Ends,
}
use rust_pipeline.Codec.Decode.{
  Found, nothing_found, parse_address, set_meta, read_meta, element_of, message_element,
  meta_element, payload_element, unknown_element, decode_loop, envelope_of, fuel_for, decode_events,
  decode_envelope,
}

prov_from_hex-Ends : (s : Text) → Ends (λ p. Unit {0}) (prov_from_hex s)
unfolding prov_from_hex
prov_from_hex-Ends s = ground arith

parse_address-Ends : (xml : Xml) (s : Text) → Ends (λ a. Unit {0}) (parse_address xml s)
parse_address-Ends xml s = or_parse_error-Ends _

set_meta-Ends :
    (xml : Xml) (name s : Text) (found : Found) → Ends (λ f. Unit {0}) (set_meta xml name s found)
unfolding set_meta
set_meta-Ends xml name s found = ground (arith, parse_address-Ends xml s, prov_from_hex-Ends s)

pub read_meta-Ends :
    (xml : Xml) (now : Option Text) (found : Found) (n : ℕ) (events : Stream)
    → length events ≤ n
    → Ends (Left n) (read_meta xml now found events)
unfolding read_meta
read_meta-Ends xml now found n [] le = tt
read_meta-Ends xml now found n (err m ∷ events) le = tt
read_meta-Ends xml now found n (ok (start_tag name _) ∷ events) le =
    read_meta-Ends xml (some name) found n events (omega arith)
read_meta-Ends xml none found n (ok (text_run t) ∷ events) le =
    read_meta-Ends xml none found n events (omega arith)
read_meta-Ends xml (some name) found n (ok (text_run t) ∷ events) le =
    >>=-Ends (λ u. Unit {0}) (Left n) (or_parse_error (xml.unescape t)) _ (or_parse_error-Ends _)
      (λ u ended.
        >>=-Ends (λ f. Unit {0}) (Left n) (set_meta xml name (trim u) found) _
          (set_meta-Ends xml name (trim u) found)
          (λ f ended'. read_meta-Ends xml (some name) f n events (omega arith)))
read_meta-Ends xml now found n (ok (end_tag name) ∷ events) le =
    elim (text_eq name (ascii "meta"))
      as (λ b.
        Ends (Left n)
          (elim b [ true ↦ done (found, events) | false ↦ read_meta xml none found events ])) [
            | true ↦ omega arith
            | false ↦ read_meta-Ends xml none found n events (omega arith)
          ]
read_meta-Ends xml now found n (ok (empty_tag _ _) ∷ events) le =
    read_meta-Ends xml now found n events (omega arith)
read_meta-Ends xml now found n (ok other_event ∷ events) le =
    read_meta-Ends xml now found n events (omega arith)

decode_loop-Ends :
    (xml : Xml) (n : ℕ) (found : Found) (events : Stream)
    → 2 * length events + 1 ≤ n
    → Ends (λ f. Unit {0}) (decode_loop xml n found events)
unfolding decode_loop
decode_loop-Ends xml zero found events fuel = absurd (omega arith)
decode_loop-Ends xml (suc n) found [] fuel = tt
decode_loop-Ends xml (suc n) found (err m ∷ events) fuel = tt
decode_loop-Ends xml (suc n) found (ok (start_tag name attrs) ∷ events) fuel =
    let k = length events in
    let go =
      λ (f : Found) (s : Stream) (le : length s ≤ k). decode_loop-Ends xml n f s (omega arith) in
    elim (element_of name)
      as (λ element.
        Ends (λ f. Unit {0})
          (elim element [
            | message_element ↦ decode_loop xml n (record found { found_message = true }) events
            | meta_element ↦ read_meta xml none found events >>= λ r. decode_loop xml n r.0 r.1
            | payload_element ↦ expect_value xml n events >>= λ r.
                expect_end xml (ascii "payload") r.1 >>= λ events'.
                decode_loop xml n
                  (record found {
                    payload = some (record { tag = get_attr xml attrs (ascii "tag"); value = r.0 });
                  })
                  events'
            | unknown_element ↦
                parse_msg (ascii "unexpected element <" ++ xml.lossy name ++ ascii ">")
          ])) [
            | message_element ↦ go _ events (omega arith)
            | meta_element ↦
                >>=-Ends (Left k) (λ f. Unit {0}) (read_meta xml none found events) _
                  (read_meta-Ends xml none found k events (omega arith)) (λ r left. go r.0 r.1 left)
            | payload_element ↦
                >>=-Ends (Left k) (λ f. Unit {0}) (expect_value xml n events) _
                  (expect_value-Ends xml n k events (omega arith) (omega arith))
                  (λ r left.
                    >>=-Ends (λ (rest : Stream). length rest ≤ k) (λ f. Unit {0})
                      (expect_end xml (ascii "payload") r.1) _
                      (expect_end-Ends xml (ascii "payload") k r.1 left)
                      (λ rest left'. go _ rest left'))
            | unknown_element ↦ tt
          ]
decode_loop-Ends xml (suc n) found (ok (end_tag name) ∷ events) fuel =
    elim (text_eq name (ascii "message"))
      as (λ b.
        Ends (λ f. Unit {0})
          (elim b [ true ↦ done found | false ↦ decode_loop xml n found events ])) [
            | true ↦ tt
            | false ↦ decode_loop-Ends xml n found events (omega arith)
          ]
decode_loop-Ends xml (suc n) found (ok (empty_tag _ _) ∷ events) fuel =
    decode_loop-Ends xml n found events (omega arith)
decode_loop-Ends xml (suc n) found (ok (text_run _) ∷ events) fuel =
    decode_loop-Ends xml n found events (omega arith)
decode_loop-Ends xml (suc n) found (ok other_event ∷ events) fuel =
    decode_loop-Ends xml n found events (omega arith)

envelope_of-Ends : (found : Found) → Ends (λ e. Unit {0}) (envelope_of found)
unfolding envelope_of
envelope_of-Ends found = ground arith

decode_envelope-Ends : (xml : Xml) (raw : List ℕ) → Ends (λ e. Unit {0}) (decode_envelope xml raw)
unfolding decode_envelope decode_events
decode_envelope-Ends xml raw =
    >>=-Ends (λ f. Unit {0}) (λ e. Unit {0})
      (decode_loop xml (fuel_for (xml.read raw)) nothing_found (xml.read raw)) _
      (decode_loop-Ends xml (fuel_for (xml.read raw)) nothing_found (xml.read raw) (omega arith))
      (λ f ended. envelope_of-Ends f)

-- `decode_envelope` comes to an end on every input, whatever events the reader makes of it: the
-- fuel of twice the number of events and one is enough for all loops and the nested values, and
-- the outcome is an envelope, an error or a panic.
pub decode_envelope-ne-exhausted : (xml : Xml) (raw : List ℕ) → decode_envelope xml raw ≢ exhausted
decode_envelope-ne-exhausted xml raw e =
    subst (Ends (λ env. Unit {0})) e (decode_envelope-Ends xml raw)
