-- ===== src/Codec/Decode/RoundTrip.antt =====
-- An envelope that was encoded is decoded.
use mathlib.Core.Path.{subst}
use rust_pipeline.Base.{
  ℕ, suc, ◌+◌, ◌-◌, ◌*◌, ◌≤◌, Text, text_eq, ascii, true, false, Option, none, some, List, [], ◌∷◌,
  length, ◌≡◌, ◌≢◌, inl, inr, refl, sym, ap, ◌∙◌, arith, Bool-cases, if◌then◌else◌,
}
use rust_pipeline.Base.Result.{ok}
use rust_pipeline.Wire.Address.{Address, display}
use rust_pipeline.Wire.Address.RoundTrip.{IsWellFormed, parse-display}
use rust_pipeline.Wire.Provenance.{Provenance, IsValid, is_empty, empty}
use rust_pipeline.Wire.Payload.{Envelope}
use rust_pipeline.Codec.{Xml, Event, start_tag, end_tag, done}
use rust_pipeline.Codec.Spaces.{trim, trim-Graphic}
use rust_pipeline.Codec.Hex.{prov_to_hex}
use rust_pipeline.Codec.Hex.RoundTrip.{
  prov_to_hex-Graphic, prov_to_hex-ne-nil, prov_from_hex-prov_to_hex,
}
use rust_pipeline.Codec.Seen.{
  seen, seen_text, IsLawful, KeepsText, KeepsName, KeepsText-Graphic, escape-ne-nil,
}
use rust_pipeline.Codec.Write.{
  attribute, text_el, write_to, write_value, write_envelope, encode_envelope,
}
use rust_pipeline.Codec.Read.{expect_value, expect_end}
use rust_pipeline.Codec.Read.Scalars.{IsCarried}
use rust_pipeline.Codec.Read.RoundTrip.{value_body, expect_value_of}
use rust_pipeline.Codec.Read.Termination.{Ends, Left}
use rust_pipeline.Codec.Decode.Termination.{read_meta-Ends}
use rust_pipeline.Codec.Decode.{
  Found, nothing_found, set_meta, read_meta, element_of, decode_loop, envelope_of, fuel_for,
  decode_events, decode_envelope,
}

-- A text of `<meta>` that comes back: it is not empty and has no white space at its ends.
pub record IsPlainText (xml : Xml) (t : Text) : Type 0 where
  pub full : t ≢ []
  pub keeps : KeepsText xml t
  pub trims : trim t ≡ t

pub record IsPlainAddress (xml : Xml) (a : Address) : Type 0 where
  pub well_formed : IsWellFormed a
  pub plain : IsPlainText xml (display a)

abbrev pub IsPlainTo : Xml → Option Address → Type 0
IsPlainTo xml none = Unit
IsPlainTo xml (some a) = IsPlainAddress xml a

-- An envelope that the format can carry.
pub record IsEnvelopeCarried (xml : Xml) (env : Envelope) : Type 0 where
  pub from : IsPlainAddress xml env.meta.from
  pub to : IsPlainTo xml env.meta.to
  pub thread : IsPlainText xml env.meta.thread
  pub provenance : IsValid env.meta.provenance
  pub tag : KeepsName xml env.payload.tag
  pub value : IsCarried xml env.payload.value

module _ (xml : Xml) (laws : IsLawful xml) where
  -- One element of `<meta>`.
  text_el_read :
      (tag t : Text) (now : Option Text) (found found' : Found) (rest : List Event)
      → IsPlainText xml t
      → text_eq tag (ascii "meta") ≡ false
      → set_meta xml tag t found ≡ done found'
      → read_meta xml now found (seen xml (text_el xml tag t rest))
        ≡ read_meta xml none found' (seen xml rest)
  unfolding read_meta
  text_el_read tag t now found found' rest plain inner set =
      rw (plain.keeps)
        (by_escaped (xml.escape t) (escape-ne-nil xml laws t plain.full) (laws.unescape-escape t))
    where
      by_escaped :
          (e : Text)
          → e ≢ []
          → xml.unescape e ≡ ok t
          → read_meta xml now found
              (ok (start_tag tag []) ∷ seen_text e (ok (end_tag tag) ∷ seen xml rest))
            ≡ read_meta xml none found' (seen xml rest)
      by_escaped [] ne back = absurd (ne refl)
      by_escaped (c ∷ s) ne back = rw (back, plain.trims, set, inner) refl

  set_from :
      (a : Address) (found : Found)
      → IsPlainAddress xml a
      → set_meta xml (ascii "from") (display a) found ≡ done (record found { from = some a })
  unfolding set_meta text_eq
  set_from a found plain = rw (parse-display a plain.well_formed) refl

  set_to :
      (a : Address) (found : Found)
      → IsPlainAddress xml a
      → set_meta xml (ascii "to") (display a) found ≡ done (record found { to = some a })
  unfolding set_meta text_eq
  set_to a found plain = rw (parse-display a plain.well_formed) refl

  set_thread :
      (t : Text) (found : Found)
      → set_meta xml (ascii "thread") t found ≡ done (record found { thread = some t })
  unfolding set_meta text_eq
  set_thread t found = refl

  set_provenance :
      (p : Provenance) (found : Found)
      → IsValid p
      → set_meta xml (ascii "provenance") (prov_to_hex p) found
        ≡ done (record found { provenance = p })
  unfolding set_meta text_eq
  set_provenance p found valid = rw (prov_from_hex-prov_to_hex p valid) refl

  to_read :
      (to : Option Address) (found : Found) (rest : List Event)
      → IsPlainTo xml to
      → read_meta xml none (record found { to = none }) (seen xml (write_to xml to rest))
        ≡ read_meta xml none (record found { to = to }) (seen xml rest)
  to_read none found rest plain = refl
  to_read (some a) found rest plain =
      text_el_read (ascii "to") (display a) none (record found { to = none })
        (record found { to = some a }) rest plain.plain (unfold text_eq in refl)
        (set_to a (record found { to = none }) plain)

  provenance_read :
      (p : Provenance) (found : Found) (rest : List Event)
      → IsValid p
      → read_meta xml none
          (record found { provenance = empty })
          (seen xml
            (if is_empty p then rest else text_el xml (ascii "provenance") (prov_to_hex p) rest))
        ≡ read_meta xml none (record found { provenance = p }) (seen xml rest)
  provenance_read p found rest valid = elim (Bool-cases (is_empty p)) [
    | inl e ↦
        let lo : p.bits_lo ≡ 0 = unfold is_empty in ground arith in
        let hi : p.bits_hi ≡ 0 = unfold is_empty in ground arith in
        rw e (
          ap
            (λ (q : Provenance).
              read_meta xml none (record found { provenance = q }) (seen xml rest))
            (λ i. record { bits_lo = sym lo i; bits_hi = sym hi i }))
    | inr e ↦
        let hex = prov_to_hex-Graphic p in
        rw e (
          text_el_read (ascii "provenance") (prov_to_hex p) none
            (record found { provenance = empty }) (record found { provenance = p }) rest
            (record {
              full = prov_to_hex-ne-nil p;
              keeps = KeepsText-Graphic xml laws (prov_to_hex p) hex;
              trims = trim-Graphic (prov_to_hex p) hex;
            })
            (unfold text_eq in refl) (set_provenance p (record found { provenance = empty }) valid))
  ]

-- The fields of `Found` after `<meta>`.
abbrev with_meta : Envelope → Found
with_meta env = record nothing_found {
  found_message = true;
  from = some env.meta.from;
  to = env.meta.to;
  thread = some env.meta.thread;
  provenance = env.meta.provenance;
}

-- What is written after `<meta>`, and inside it.
abbrev after_meta : Xml → Envelope → List Event
after_meta xml env =
    start_tag (ascii "payload") (attribute xml (ascii "tag") env.payload.tag)
    ∷ write_value xml env.payload.value (end_tag (ascii "payload") ∷ end_tag (ascii "message") ∷ [])

abbrev in_meta : Xml → Envelope → List Event
in_meta xml env = text_el xml (ascii "from") (display env.meta.from) (
    write_to xml env.meta.to (
      text_el xml (ascii "thread") env.meta.thread (
        if is_empty env.meta.provenance
        then end_tag (ascii "meta") ∷ after_meta xml env
        else text_el xml (ascii "provenance") (prov_to_hex env.meta.provenance)
            (end_tag (ascii "meta") ∷ after_meta xml env))))

module _ (xml : Xml) (laws : IsLawful xml) (env : Envelope) (h : IsEnvelopeCarried xml env) where
  meta_end :
      (found : Found) (rest : List Event)
      → read_meta xml none found (seen xml (end_tag (ascii "meta") ∷ rest))
        ≡ done (found, seen xml rest)
  unfolding read_meta text_eq
  meta_end found rest = refl

  meta_read :
      read_meta xml none
        (record nothing_found { found_message = true })
        (seen xml (in_meta xml env))
      ≡ done (with_meta env, seen xml (after_meta xml env))
  meta_read =
      let start = record nothing_found { found_message = true } in
      let one = record start { from = some env.meta.from } in
      let two = record one { to = env.meta.to } in
      let three = record two { thread = some env.meta.thread } in
      text_el_read xml laws (ascii "from") (display env.meta.from) none start one _ h.from.plain
        (unfold text_eq in refl) (set_from xml laws env.meta.from start h.from)
      ∙ to_read xml laws env.meta.to one _ h.to
      ∙ text_el_read xml laws (ascii "thread") env.meta.thread none two three _ h.thread
          (unfold text_eq in refl) (set_thread xml laws env.meta.thread two)
      ∙ provenance_read xml laws env.meta.provenance three _ h.provenance
      ∙ meta_end (with_meta env) (after_meta xml env)

  with_payload : Found
  with_payload = record (with_meta env) { payload = some env.payload }

  payload_step :
      (n : ℕ)
      → expect_value xml (suc n) (
          seen xml (
            write_value xml env.payload.value
              (end_tag (ascii "payload") ∷ end_tag (ascii "message") ∷ [])))
        ≡ done (
          env.payload.value,
          seen xml (end_tag (ascii "payload") ∷ end_tag (ascii "message") ∷ []),
        )
      → decode_loop xml (suc (suc n)) (with_meta env) (seen xml (after_meta xml env))
        ≡ done with_payload
  unfolding decode_loop element_of expect_end text_eq with_payload
  payload_step n e = rw (e, h.tag) refl

  loop_steps :
      (n : ℕ)
      → decode_loop xml n (with_meta env) (seen xml (after_meta xml env)) ≡ done with_payload
      → decode_loop xml (suc (suc n)) nothing_found (seen xml (write_envelope xml env))
        ≡ done with_payload
  unfolding decode_loop element_of text_eq write_envelope
  loop_steps n e = rw (meta_read, e) refl

  loop_read :
      (n : ℕ)
      → 2 * length (seen xml (write_envelope xml env)) + 1 ≤ n
      → decode_loop xml n nothing_found (seen xml (write_envelope xml env)) ≡ done with_payload
  loop_read n fuel =
      let last = end_tag (ascii "payload") ∷ end_tag (ascii "message") ∷ [] in
      let inside = seen xml (in_meta xml env) in
      let whole : length (seen xml (write_envelope xml env)) ≡ suc (suc (length inside)) =
        unfold write_envelope in refl in
      let left = subst (Ends (Left (length inside))) meta_read (
        read_meta-Ends xml none (record nothing_found { found_message = true }) (length inside)
          inside (omega arith)) in
      let four : n ≡ suc (suc (suc (suc (n - 4)))) = omega arith in
      let value =
        expect_value_of xml laws (n - 4) env.payload.value last
          (value_body xml laws (n - 4) env.payload.value last h.value) (omega arith) in
      ap (λ (k : ℕ). decode_loop xml k nothing_found (seen xml (write_envelope xml env))) four
      ∙ loop_steps (suc (suc (n - 4))) (payload_step (n - 4) value)

  -- The events that were written, read back.
  decode_events-seen : decode_events xml (seen xml (write_envelope xml env)) ≡ done env
  unfolding decode_events envelope_of with_payload
  decode_events-seen =
      rw (loop_read (fuel_for (seen xml (write_envelope xml env))) (omega arith)) refl

-- An envelope that was encoded is decoded: `encode_envelope` gives bytes from which
-- `decode_envelope` gets the same envelope. Asked of the envelope: its addresses are well-formed;
-- they and the thread are not empty and have, as all texts in the value, no white space at their
-- ends; its tag and the names of its fields hold nothing that is escaped; its numbers and bytes have
-- their width, and its real numbers print so that they are read back. Asked of quick_xml: escaping
-- is undone by unescaping and, like trimming, leaves visible ASCII alone; the writer writes these
-- events, and the reader gives the events of what was written, trimmed, without empty texts.
pub decode_envelope-encode_envelope :
    (xml : Xml) (laws : IsLawful xml) (env : Envelope) (bytes : List ℕ)
    → IsEnvelopeCarried xml env
    → xml.write (write_envelope xml env) ≡ ok bytes
    → xml.read bytes ≡ seen xml (write_envelope xml env)
    → (encode_envelope xml env ≡ ok bytes) × (decode_envelope xml bytes ≡ done env)
unfolding encode_envelope decode_envelope
decode_envelope-encode_envelope xml laws env bytes h written given =
    (rw written refl, rw given (decode_events-seen xml laws env h))
