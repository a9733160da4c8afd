-- ===== src/Codec/Decode/Bounds.antt =====
-- What `decode_envelope` returns is a value of its Rust types, with addresses that can be printed.
use mathlib.Core.Path.{subst}
use rust_pipeline.Base.{
  ℕ, zero, suc, ◌^◌, ◌<◌, Text, text_eq, ascii, true, Option, none, some, List, [], ◌∷◌, ◌++◌,
  length, take, drop, not, ◌==◌, ◌-◌, ◌≡◌, arith, Bool-cases, Option-cases, inl, inr,
}
use rust_pipeline.Base.Result.{ok, err, Result-cases}
use rust_pipeline.Wire.Address.{parse}
use rust_pipeline.Wire.Address.RoundTrip.{IsWellFormed}
use rust_pipeline.Wire.Address.WellFormed.{parse-IsWellFormed}
use rust_pipeline.Wire.Provenance.{IsValid}
use rust_pipeline.Wire.Payload.{Payload, Envelope}
use rust_pipeline.Codec.{
  Xml, start_tag, empty_tag, end_tag, text_run, other_event, Stream, done, ◌>>=◌, or_msg,
  or_parse_error, parse_msg, get_attr,
}
use rust_pipeline.Codec.Spaces.{trim}
use rust_pipeline.Codec.Decimal.{parse_unsigned, parse_unsigned-le}
use rust_pipeline.Codec.Hex.{prov_from_hex, cuts_character}
use rust_pipeline.Codec.Read.{expect_value, expect_end}
use rust_pipeline.Codec.Read.Fits.{Gives, >>=-Gives, any-Gives, FitsTypes, ValueFits}
use rust_pipeline.Codec.Read.Bounds.{expect_value-FitsTypes}
use rust_pipeline.Codec.Decode.{
  Found, nothing_found, parse_address, set_meta, read_meta, element_of, message_element,
  meta_element, payload_element, unknown_element, decode_loop, envelope_of, required, fuel_for,
  decode_events, decode_envelope,
}

abbrev Each {ℓ} : {A : Type ℓ} → (A → Type 0) → Option A → Type 0
Each P none = Unit
Each P (some a) = P a

record IsSound (found : Found) : Type 0 where
  from : Each IsWellFormed found.from
  to : Each IsWellFormed found.to
  provenance : IsValid found.provenance
  payload : Each (λ (p : Payload). FitsTypes p.value) found.payload

-- An envelope of the Rust types: two 64-bit words of provenance, and numbers and bytes of their
-- widths in the value; its addresses are well-formed.
pub record IsEnvelope (env : Envelope) : Type 0 where
  pub from : IsWellFormed env.meta.from
  pub to : Each IsWellFormed env.meta.to
  pub provenance : IsValid env.meta.provenance
  pub value : FitsTypes env.payload.value

word_Gives :
    (s m : Text) → Gives (λ (n : ℕ). n < 2 ^ 64) (or_msg (parse_unsigned 16 (2 ^ 64 - 1) s) m)
word_Gives s m = elim (Option-cases (parse_unsigned 16 (2 ^ 64 - 1) s)) [
  | inl e ↦ rw e tt
  | inr (n, e) ↦ rw e (omega (arith, parse_unsigned-le 16 (2 ^ 64 - 1) s n e))
]

words_Give :
    (s t m : Text)
    → Gives IsValid (
        or_msg (parse_unsigned 16 (2 ^ 64 - 1) s) m >>= λ hi.
        or_msg (parse_unsigned 16 (2 ^ 64 - 1) t) m >>= λ lo.
        done (record { bits_lo = lo; bits_hi = hi }))
words_Give s t m =
    >>=-Gives (λ (n : ℕ). n < 2 ^ 64) IsValid (or_msg (parse_unsigned 16 (2 ^ 64 - 1) s) m) _
      (word_Gives s m)
      (λ hi high.
        >>=-Gives (λ (n : ℕ). n < 2 ^ 64) IsValid (or_msg (parse_unsigned 16 (2 ^ 64 - 1) t) m) _
          (word_Gives t m) (λ lo low. record { lo = low; hi = high }))

prov_from_hex-IsValid : (s : Text) → Gives IsValid (prov_from_hex s)
unfolding prov_from_hex
prov_from_hex-IsValid s = elim (Bool-cases (not (length (trim s) == 32))) [
  | inl short ↦ rw (short, prov_from_hex) tt
  | inr long ↦ elim (Bool-cases (cuts_character (drop 16 (trim s)))) [
    | inl cut ↦ rw (long, prov_from_hex, cut) tt
    | inr whole ↦
        rw (long, prov_from_hex, whole) (words_Give (take 16 (trim s)) (drop 16 (trim s)) _)
  ]
]

parse_address-IsWellFormed : (xml : Xml) (s : Text) → Gives IsWellFormed (parse_address xml s)
parse_address-IsWellFormed xml s = elim (Result-cases (parse s)) [
  | inl (a, e) ↦ rw e (parse-IsWellFormed s a e)
  | inr (m, e) ↦ rw e tt
]

module _ (xml : Xml) where
  set_meta-IsSound :
      (name s : Text) (found : Found) → IsSound found → Gives IsSound (set_meta xml name s found)
  unfolding set_meta
  set_meta-IsSound name s found h = elim (Bool-cases (text_eq name (ascii "from"))) [
    | inl from ↦
        rw (from, set_meta)
          (>>=-Gives IsWellFormed IsSound (parse_address xml s) _ (parse_address-IsWellFormed xml s)
            (λ a fit. record {
              from = fit;
              to = h.to;
              provenance = h.provenance;
              payload = h.payload;
            }))
    | inr not_from ↦ elim (Bool-cases (text_eq name (ascii "to"))) [
      | inl to ↦
          rw (not_from, set_meta, to)
            (>>=-Gives IsWellFormed IsSound (parse_address xml s) _
              (parse_address-IsWellFormed xml s)
              (λ a fit. record {
                from = h.from;
                to = fit;
                provenance = h.provenance;
                payload = h.payload;
              }))
      | inr not_to ↦ elim (Bool-cases (text_eq name (ascii "thread"))) [
        | inl thread ↦
            rw (not_from, set_meta, not_to, thread)
              (record { from = h.from; to = h.to; provenance = h.provenance; payload = h.payload })
        | inr not_thread ↦ elim (Bool-cases (text_eq name (ascii "provenance"))) [
          | inl provenance ↦
              rw (not_from, set_meta, not_to, not_thread, provenance)
                (>>=-Gives IsValid IsSound (prov_from_hex s) _ (prov_from_hex-IsValid s) (λ p fit.
                  record { from = h.from; to = h.to; provenance = fit; payload = h.payload }))
          | inr other ↦ rw (not_from, set_meta, not_to, not_thread, other) h
        ]
      ]
    ]
  ]

  read_meta-IsSound :
      (now : Option Text) (found : Found) (events : Stream)
      → IsSound found
      → Gives (λ (r : Found × Stream). IsSound r.0) (read_meta xml now found events)
  unfolding read_meta
  read_meta-IsSound now found [] h = tt
  read_meta-IsSound now found (err m ∷ events) h = tt
  read_meta-IsSound now found (ok (start_tag name _) ∷ events) h =
      read_meta-IsSound (some name) found events h
  read_meta-IsSound none found (ok (text_run t) ∷ events) h = read_meta-IsSound none found events h
  read_meta-IsSound (some name) found (ok (text_run t) ∷ events) h =
      >>=-Gives (λ (u : Text). Unit {0}) (λ (r : Found × Stream). IsSound r.0)
        (or_parse_error (xml.unescape t)) _ (any-Gives (or_parse_error (xml.unescape t)))
        (λ u any.
          >>=-Gives IsSound (λ (r : Found × Stream). IsSound r.0) (set_meta xml name (trim u) found)
            _ (set_meta-IsSound name (trim u) found h)
            (λ f sound. read_meta-IsSound (some name) f events sound))
  read_meta-IsSound now found (ok (end_tag name) ∷ events) h =
      elim (Bool-cases (text_eq name (ascii "meta"))) [
        | inl e ↦ rw (e, read_meta) h
        | inr e ↦ rw (e, read_meta) (read_meta-IsSound none found events h)
      ]
  read_meta-IsSound now found (ok (empty_tag _ _) ∷ events) h = read_meta-IsSound now found events h
  read_meta-IsSound now found (ok other_event ∷ events) h = read_meta-IsSound now found events h

  decode_loop-IsSound :
      (n : ℕ) (found : Found) (events : Stream)
      → IsSound found
      → Gives IsSound (decode_loop xml n found events)
  unfolding decode_loop
  decode_loop-IsSound zero found events h = tt
  decode_loop-IsSound (suc n) found [] h = h
  decode_loop-IsSound (suc n) found (err m ∷ events) h = tt
  decode_loop-IsSound (suc n) found (ok (start_tag name attrs) ∷ events) h =
      elim (element_of name)
        as (λ element. Gives IsSound (elim element [
          | message_element ↦ decode_loop xml n (record found { found_message = true }) events
          | meta_element ↦ read_meta xml none found events >>= λ r. decode_loop xml n r.0 r.1
          | payload_element ↦ expect_value xml n events >>= λ r.
              expect_end xml (ascii "payload") r.1 >>= λ events'.
              decode_loop xml n
                (record found {
                  payload = some (record { tag = get_attr xml attrs (ascii "tag"); value = r.0 });
                })
                events'
          | unknown_element ↦
              parse_msg (ascii "unexpected element <" ++ xml.lossy name ++ ascii ">")
        ])) [
          | message_element ↦
              decode_loop-IsSound n _ events (record {
                from = h.from;
                to = h.to;
                provenance = h.provenance;
                payload = h.payload;
              })
          | meta_element ↦
              >>=-Gives (λ (r : Found × Stream). IsSound r.0) IsSound
                (read_meta xml none found events) _ (read_meta-IsSound none found events h)
                (λ r sound. decode_loop-IsSound n r.0 r.1 sound)
          | payload_element ↦
              >>=-Gives ValueFits IsSound (expect_value xml n events) _
                (expect_value-FitsTypes xml n events)
                (λ r fit.
                  >>=-Gives (λ (rest : Stream). Unit {0}) IsSound
                    (expect_end xml (ascii "payload") r.1) _
                    (any-Gives (expect_end xml (ascii "payload") r.1))
                    (λ rest any. decode_loop-IsSound n _ rest (record {
                      from = h.from;
                      to = h.to;
                      provenance = h.provenance;
                      payload = fit;
                    })))
          | unknown_element ↦ tt
        ]
  decode_loop-IsSound (suc n) found (ok (end_tag name) ∷ events) h =
      elim (Bool-cases (text_eq name (ascii "message"))) [
        | inl e ↦ rw (e, decode_loop) h
        | inr e ↦ rw (e, decode_loop) (decode_loop-IsSound n found events h)
      ]
  decode_loop-IsSound (suc n) found (ok (empty_tag _ _) ∷ events) h =
      decode_loop-IsSound n found events h
  decode_loop-IsSound (suc n) found (ok (text_run _) ∷ events) h =
      decode_loop-IsSound n found events h
  decode_loop-IsSound (suc n) found (ok other_event ∷ events) h =
      decode_loop-IsSound n found events h

  required-Gives :
      {A : Type 0} (P : A → Type 0) (o : Option A) (name : Text)
      → Each P o
      → Gives P (required o name)
  required-Gives P none name h = tt
  required-Gives P (some a) name h = h

  envelope_of-IsEnvelope : (found : Found) → IsSound found → Gives IsEnvelope (envelope_of found)
  unfolding envelope_of
  envelope_of-IsEnvelope found h = elim (Bool-cases found.found_message) [
    | inl e ↦
        rw (e, envelope_of)
          (>>=-Gives IsWellFormed IsEnvelope (required found.from (ascii "from")) _
            (required-Gives IsWellFormed found.from (ascii "from") h.from)
            (λ from fit.
              >>=-Gives (λ (t : Text). Unit {0}) IsEnvelope (required found.thread (ascii "thread"))
                _ (any-Gives (required found.thread (ascii "thread")))
                (λ thread any.
                  >>=-Gives (λ (p : Payload). FitsTypes p.value) IsEnvelope
                    (required found.payload (ascii "payload")) _
                    (required-Gives (λ (p : Payload). FitsTypes p.value) found.payload
                      (ascii "payload") h.payload)
                    (λ payload fits. record {
                      from = fit;
                      to = h.to;
                      provenance = h.provenance;
                      value = fits;
                    }))))
    | inr e ↦ rw (e, envelope_of) tt
  ]

-- Whatever bytes come in, an envelope that `decode_envelope` returns is a value of the Rust types:
-- its provenance is two 64-bit words, and in its value, at every depth, the unsigned and signed
-- numbers fit 64 bits and the bytes 8; its addresses are well-formed.
pub decode_envelope-IsEnvelope :
    (xml : Xml) (raw : List ℕ) (env : Envelope)
    → decode_envelope xml raw ≡ done env
    → IsEnvelope env
unfolding decode_envelope decode_events
decode_envelope-IsEnvelope xml raw env e =
    let events = xml.read raw in
    subst (Gives IsEnvelope) e (
      >>=-Gives IsSound IsEnvelope (decode_loop xml (fuel_for events) nothing_found events) _
        (decode_loop-IsSound xml (fuel_for events) nothing_found events (record {
          from = tt;
          to = tt;
          provenance = record { lo = omega arith; hi = omega arith };
          payload = tt;
        }))
        (λ f sound. envelope_of-IsEnvelope xml f sound))
