-- ===== src/Codec/Read/RoundTrip.antt =====
-- A value that was written is read back, with all that is nested in it.
use mathlib.Core.Path.{subst}
use rust_pipeline.Base.{
  ℕ, zero, suc, ◌+◌, ◌*◌, ◌≤◌, Text, text_eq, ascii, true, List, ◌∷◌, length, ◌≡◌, inl, inr, refl,
  ap, ◌∙◌, arith,
}
use rust_pipeline.Base.Result.{ok}
use rust_pipeline.Wire.Payload.{
  PayloadValue, rec, seq, text, uint, sint, real, boolean, blob, nil, Fields, no_fields, field,
  Items, no_items, item,
}
use rust_pipeline.Codec.{Xml, Event, start_tag, empty_tag, end_tag, done, get_attr}
use rust_pipeline.Codec.Decimal.{}
use rust_pipeline.Codec.Seen.{seen, IsLawful, KeepsName}
use rust_pipeline.Codec.Write.{attribute, v_start, write_value, write_fields, write_items}
use rust_pipeline.Codec.Read.{
  expect_end, kind_of, expect_value, parse_value, parse_fields, parse_items, empty_value,
}
use rust_pipeline.Codec.Read.Termination.{Ends, Left, expect_value-Ends, parse_value-Ends}
use rust_pipeline.Codec.Read.Scalars.{
  IsCarried, AreCarried, EachCarried, kind_seen, kind_name, kind_name-Graphic, body, has_start,
  opens, scalar_body,
}

module _ (xml : Xml) (laws : IsLawful xml) where
  nil_seen :
      (rest : List Event)
      → write_value xml nil rest ≡ empty_tag (ascii "v") (v_start xml (ascii "nil")) ∷ rest
  unfolding write_value
  nil_seen rest = refl

  nil_read : empty_value (get_attr xml (v_start xml (ascii "nil")) (ascii "k")) ≡ nil
  unfolding empty_value text_eq
  nil_read = ap empty_value (kind_seen xml laws (ascii "nil") (kind_name-Graphic nil))

  -- The value is read after its start tag, with fuel `n`.
  abbrev pub ReadsBody : ℕ → PayloadValue → List Event → Type 0
  ReadsBody n v rest =
      has_start v ≡ true
      → 2 * length (seen xml (body xml v rest)) + 2 ≤ n
      → parse_value xml n (kind_name v) (seen xml (body xml v rest)) ≡ done (v, seen xml rest)

  pub expect_value_of :
      (n : ℕ) (v : PayloadValue) (rest : List Event)
      → ReadsBody n v rest
      → 2 * length (seen xml (write_value xml v rest)) + 1 ≤ suc n
      → expect_value xml (suc n) (seen xml (write_value xml v rest)) ≡ done (v, seen xml rest)
  unfolding expect_value text_eq
  expect_value_of n v rest inner fuel = elim (opens xml v rest) [
    | inl (start, e) ↦
        let size = ap (λ (events : List Event). length (seen xml events)) e in
        ap (λ (events : List Event). expect_value xml (suc n) (seen xml events)) e
        ∙ ap (λ (kind : Text). parse_value xml n kind (seen xml (body xml v rest)))
            (kind_seen xml laws (kind_name v) (kind_name-Graphic v))
        ∙ inner start (omega arith)
    | inr isnil ↦ rw (isnil, nil_seen rest, nil_read) refl
  ]

  parse_items_of :
      (n : ℕ) (v : PayloadValue) (items : Items) (more rest : List Event)
      → ReadsBody n v more
      → (2 * length (seen xml more) + 1 ≤ n
          → parse_items xml n (seen xml more) ≡ done (items, seen xml rest))
      → 2 * length (seen xml (write_value xml v more)) + 1 ≤ suc n
      → parse_items xml (suc n) (seen xml (write_value xml v more))
        ≡ done (item v items, seen xml rest)
  unfolding parse_items text_eq
  parse_items_of n v items more rest inner next fuel = elim (opens xml v more) [
    | inl (start, e) ↦
        let size = ap (λ (events : List Event). length (seen xml events)) e in
        let here = inner start (omega arith) in
        let left = subst (Ends (Left (length (seen xml (body xml v more))))) here (
          parse_value-Ends xml n (length (seen xml (body xml v more))) (kind_name v)
            (seen xml (body xml v more)) (omega arith) (omega arith)) in
        ap (λ (events : List Event). parse_items xml (suc n) (seen xml events)) e
        ∙ rw (kind_seen xml laws (kind_name v) (kind_name-Graphic v), here, next (omega arith)) refl
    | inr isnil ↦
        let size = ap (λ (w : PayloadValue). length (seen xml (write_value xml w more))) isnil in
        let size' = ap (λ (events : List Event). length (seen xml events)) (nil_seen more) in
        rw (isnil, nil_seen more, nil_read, next (omega arith)) refl
  ]

  rec_body :
      (n : ℕ) (entries : Fields) (rest : List Event)
      → parse_fields xml n (seen xml (body xml (rec entries) rest)) ≡ done (entries, seen xml rest)
      → parse_value xml (suc n) (ascii "rec") (seen xml (body xml (rec entries) rest))
        ≡ done (rec entries, seen xml rest)
  unfolding parse_value kind_of text_eq
  rec_body n entries rest e = rw e refl

  seq_body :
      (n : ℕ) (items : Items) (rest : List Event)
      → parse_items xml n (seen xml (body xml (seq items) rest)) ≡ done (items, seen xml rest)
      → parse_value xml (suc n) (ascii "seq") (seen xml (body xml (seq items) rest))
        ≡ done (seq items, seen xml rest)
  unfolding parse_value kind_of text_eq
  seq_body n items rest e = rw e refl

  no_fields_read :
      (n : ℕ) (rest : List Event)
      → parse_fields xml (suc n) (seen xml (body xml (rec no_fields) rest))
        ≡ done (no_fields, seen xml rest)
  unfolding parse_fields write_value text_eq
  no_fields_read n rest = refl

  no_items_read :
      (n : ℕ) (rest : List Event)
      → parse_items xml (suc n) (seen xml (body xml (seq no_items) rest))
        ≡ done (no_items, seen xml rest)
  unfolding parse_items write_value text_eq
  no_items_read n rest = refl

  field_read :
      (n : ℕ) (name : Text) (value : PayloadValue) (entries : Fields) (more rest : List Event)
      → KeepsName xml name
      → ReadsBody n value (end_tag (ascii "f") ∷ more)
      → (2 * length (seen xml more) + 1 ≤ suc n
          → parse_fields xml (suc n) (seen xml more) ≡ done (entries, seen xml rest))
      → 2 * length (seen xml (write_value xml value (end_tag (ascii "f") ∷ more))) + 1 ≤ suc n
      → parse_fields xml (suc (suc n)) (
          ok (start_tag (ascii "f") (attribute xml (ascii "n") name))
          ∷ seen xml (write_value xml value (end_tag (ascii "f") ∷ more)))
        ≡ done (field name value entries, seen xml rest)
  unfolding parse_fields expect_end text_eq
  field_read n name value entries more rest keeps inner next fuel =
      let events = seen xml (write_value xml value (end_tag (ascii "f") ∷ more)) in
      let here = expect_value_of n value (end_tag (ascii "f") ∷ more) inner fuel in
      let left =
        subst (Ends (Left (length events))) here
          (expect_value-Ends xml (suc n) (length events) events (omega arith) (omega arith)) in
      rw (here, keeps, next (omega arith)) refl

  fields_opened :
      (name : Text) (value : PayloadValue) (entries : Fields) (rest : List Event)
      → seen xml (write_fields xml (field name value entries) rest)
        ≡ ok (start_tag (ascii "f") (attribute xml (ascii "n") name))
          ∷ seen xml (write_value xml value (end_tag (ascii "f") ∷ write_fields xml entries rest))
  unfolding write_value
  fields_opened name value entries rest = refl

  items_opened :
      (value : PayloadValue) (items : Items) (rest : List Event)
      → write_items xml (item value items) rest ≡ write_value xml value (write_items xml items rest)
  unfolding write_value
  items_opened value items rest = refl

mutual
  unfolding write_value

  pub value_body :
      (xml : Xml) (laws : IsLawful xml) (n : ℕ) (v : PayloadValue) (rest : List Event)
      → IsCarried xml v
      → ReadsBody xml laws n v rest
  value_body xml laws zero v rest h start fuel = absurd (omega arith)
  value_body xml laws (suc n) (rec entries) rest h start fuel =
      rec_body xml laws n entries rest (fields_read xml laws n entries rest h (omega arith))
  value_body xml laws (suc n) (seq items) rest h start fuel =
      seq_body xml laws n items rest (items_read xml laws n items rest h (omega arith))
  value_body xml laws (suc n) (text s) rest h start fuel =
      scalar_body xml laws n (text s) rest refl h
  value_body xml laws (suc n) (uint k) rest h start fuel =
      scalar_body xml laws n (uint k) rest refl h
  value_body xml laws (suc n) (sint x) rest h start fuel =
      scalar_body xml laws n (sint x) rest refl h
  value_body xml laws (suc n) (real x) rest h start fuel =
      scalar_body xml laws n (real x) rest refl h
  value_body xml laws (suc n) (boolean b) rest h start fuel =
      scalar_body xml laws n (boolean b) rest refl h
  value_body xml laws (suc n) (blob bytes) rest h start fuel =
      scalar_body xml laws n (blob bytes) rest refl h
  value_body xml laws (suc n) nil rest h start fuel = cc

  fields_read :
      (xml : Xml) (laws : IsLawful xml) (n : ℕ) (entries : Fields) (rest : List Event)
      → AreCarried xml entries
      → 2 * length (seen xml (write_fields xml entries (end_tag (ascii "v") ∷ rest))) + 1 ≤ n
      → parse_fields xml n (seen xml (write_fields xml entries (end_tag (ascii "v") ∷ rest)))
        ≡ done (entries, seen xml rest)
  fields_read xml laws zero entries rest h fuel = absurd (omega arith)
  fields_read xml laws (suc n) no_fields rest h fuel = no_fields_read xml laws n rest
  fields_read xml laws (suc zero) (field name value more) rest h fuel = absurd (omega arith)
  fields_read xml laws (suc (suc n)) (field name value more) rest h fuel =
      let then_events = write_fields xml more (end_tag (ascii "v") ∷ rest) in
      field_read xml laws n name value more then_events rest h.0
        (value_body xml laws n value (end_tag (ascii "f") ∷ then_events) h.1)
        (λ enough. fields_read xml laws (suc n) more rest h.2 enough) (omega arith)

  items_read :
      (xml : Xml) (laws : IsLawful xml) (n : ℕ) (items : Items) (rest : List Event)
      → EachCarried xml items
      → 2 * length (seen xml (write_items xml items (end_tag (ascii "v") ∷ rest))) + 1 ≤ n
      → parse_items xml n (seen xml (write_items xml items (end_tag (ascii "v") ∷ rest)))
        ≡ done (items, seen xml rest)
  items_read xml laws zero items rest h fuel = absurd (omega arith)
  items_read xml laws (suc n) no_items rest h fuel = no_items_read xml laws n rest
  items_read xml laws (suc n) (item value more) rest h fuel =
      let then_events = write_items xml more (end_tag (ascii "v") ∷ rest) in
      parse_items_of xml laws n value more then_events rest
        (value_body xml laws n value then_events h.0)
        (λ enough. items_read xml laws n more rest h.1 enough) fuel
