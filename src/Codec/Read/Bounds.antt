-- ===== src/Codec/Read/Bounds.antt =====
-- The widths of the numbers in a whole value that codec.rs reads.
use rust_pipeline.Base.{ℕ, zero, suc, Text, text_eq, ascii, [], ◌∷◌, Bool-cases, inl, inr}
use rust_pipeline.Base.Result.{ok, err}
use rust_pipeline.Wire.Payload.{rec, seq}
use rust_pipeline.Codec.{
  Xml, start_tag, empty_tag, end_tag, text_run, other_event, Stream, done, ◌>>=◌, get_attr,
}
use rust_pipeline.Codec.Decimal.{}
use rust_pipeline.Codec.Read.{
  expect_end, kind_of, rec_kind, seq_kind, parse_scalar, expect_value, parse_value, parse_fields,
  parse_items,
}
use rust_pipeline.Codec.Read.Fits.{
  Gives, >>=-Gives, any-Gives, ValueFits, FieldsRead, ItemsRead, parse_scalar-FitsTypes,
  empty_value-FitsTypes,
}

mutual
  unfolding expect_value

  pub expect_value-FitsTypes :
      (xml : Xml) (n : ℕ) (events : Stream) → Gives ValueFits (expect_value xml n events)
  expect_value-FitsTypes xml zero events = tt
  expect_value-FitsTypes xml (suc n) [] = tt
  expect_value-FitsTypes xml (suc n) (err m ∷ events) = tt
  expect_value-FitsTypes xml (suc n) (ok (start_tag name attrs) ∷ events) =
      elim (Bool-cases (text_eq name (ascii "v"))) [
        | inl e ↦
            rw (expect_value, e)
              (parse_value-FitsTypes xml n (get_attr xml attrs (ascii "k")) events)
        | inr e ↦ rw (expect_value, e) tt
      ]
  expect_value-FitsTypes xml (suc n) (ok (empty_tag name attrs) ∷ events) =
      elim (Bool-cases (text_eq name (ascii "v"))) [
        | inl e ↦ rw (expect_value, e) (empty_value-FitsTypes (get_attr xml attrs (ascii "k")))
        | inr e ↦ rw (expect_value, e) tt
      ]
  expect_value-FitsTypes xml (suc n) (ok (text_run _) ∷ events) =
      expect_value-FitsTypes xml n events
  expect_value-FitsTypes xml (suc n) (ok (end_tag name) ∷ events) = tt
  expect_value-FitsTypes xml (suc n) (ok other_event ∷ events) = tt

  parse_value-FitsTypes :
      (xml : Xml) (n : ℕ) (kind : Text) (events : Stream)
      → Gives ValueFits (parse_value xml n kind events)
  parse_value-FitsTypes xml zero kind events = tt
  parse_value-FitsTypes xml (suc n) kind events =
      elim (kind_of kind)
        as (λ known. Gives ValueFits (elim known [
          | rec_kind ↦ parse_fields xml n events >>= λ r. done (rec r.0, r.1)
          | seq_kind ↦ parse_items xml n events >>= λ r. done (seq r.0, r.1)
          | other ↦ parse_scalar xml kind other events
        ])) [
          | rec_kind ↦
              >>=-Gives FieldsRead ValueFits (parse_fields xml n events) _
                (parse_fields-FieldsFit xml n events) (λ r fit. fit)
          | seq_kind ↦
              >>=-Gives ItemsRead ValueFits (parse_items xml n events) _
                (parse_items-ItemsFit xml n events) (λ r fit. fit)
          | other ↦ parse_scalar-FitsTypes xml kind other events
        ]

  parse_fields-FieldsFit :
      (xml : Xml) (n : ℕ) (events : Stream) → Gives FieldsRead (parse_fields xml n events)
  parse_fields-FieldsFit xml zero events = tt
  parse_fields-FieldsFit xml (suc n) [] = tt
  parse_fields-FieldsFit xml (suc n) (err m ∷ events) = tt
  parse_fields-FieldsFit xml (suc n) (ok (start_tag name attrs) ∷ events) =
      elim (Bool-cases (text_eq name (ascii "f"))) [
        | inl e ↦
            rw (parse_fields, e)
              (>>=-Gives ValueFits FieldsRead (expect_value xml n events) _
                (expect_value-FitsTypes xml n events)
                (λ r fit.
                  >>=-Gives (λ (rest : Stream). Unit {0}) FieldsRead
                    (expect_end xml (ascii "f") r.1) _ (any-Gives (expect_end xml (ascii "f") r.1))
                    (λ rest any.
                      >>=-Gives FieldsRead FieldsRead (parse_fields xml n rest) _
                        (parse_fields-FieldsFit xml n rest) (λ more fits. (fit, fits)))))
        | inr e ↦ rw (parse_fields, e) (parse_fields-FieldsFit xml n events)
      ]
  parse_fields-FieldsFit xml (suc n) (ok (end_tag name) ∷ events) =
      elim (Bool-cases (text_eq name (ascii "v"))) [
        | inl e ↦ rw (parse_fields, e) tt
        | inr e ↦ rw (parse_fields, e) (parse_fields-FieldsFit xml n events)
      ]
  parse_fields-FieldsFit xml (suc n) (ok (empty_tag _ _) ∷ events) =
      parse_fields-FieldsFit xml n events
  parse_fields-FieldsFit xml (suc n) (ok (text_run _) ∷ events) =
      parse_fields-FieldsFit xml n events
  parse_fields-FieldsFit xml (suc n) (ok other_event ∷ events) = parse_fields-FieldsFit xml n events

  parse_items-ItemsFit :
      (xml : Xml) (n : ℕ) (events : Stream) → Gives ItemsRead (parse_items xml n events)
  parse_items-ItemsFit xml zero events = tt
  parse_items-ItemsFit xml (suc n) [] = tt
  parse_items-ItemsFit xml (suc n) (err m ∷ events) = tt
  parse_items-ItemsFit xml (suc n) (ok (start_tag name attrs) ∷ events) =
      elim (Bool-cases (text_eq name (ascii "v"))) [
        | inl e ↦
            rw (parse_items, e)
              (>>=-Gives ValueFits ItemsRead
                (parse_value xml n (get_attr xml attrs (ascii "k")) events) _
                (parse_value-FitsTypes xml n (get_attr xml attrs (ascii "k")) events)
                (λ r fit.
                  >>=-Gives ItemsRead ItemsRead (parse_items xml n r.1) _
                    (parse_items-ItemsFit xml n r.1) (λ more fits. (fit, fits))))
        | inr e ↦ rw (parse_items, e) (parse_items-ItemsFit xml n events)
      ]
  parse_items-ItemsFit xml (suc n) (ok (empty_tag name attrs) ∷ events) =
      >>=-Gives ItemsRead ItemsRead (parse_items xml n events) _ (parse_items-ItemsFit xml n events)
        (λ more fits. elim (Bool-cases (text_eq name (ascii "v"))) [
          | inl e ↦ rw e (empty_value-FitsTypes (get_attr xml attrs (ascii "k")), fits)
          | inr e ↦ rw e fits
        ])
  parse_items-ItemsFit xml (suc n) (ok (end_tag name) ∷ events) =
      elim (Bool-cases (text_eq name (ascii "v"))) [
        | inl e ↦ rw (parse_items, e) tt
        | inr e ↦ rw (parse_items, e) (parse_items-ItemsFit xml n events)
      ]
  parse_items-ItemsFit xml (suc n) (ok (text_run _) ∷ events) = parse_items-ItemsFit xml n events
  parse_items-ItemsFit xml (suc n) (ok other_event ∷ events) = parse_items-ItemsFit xml n events
