-- ===== src/Codec/Read/Scalars.antt =====
-- The values that the format can carry, and those with one text, read back after their start tag.
use rust_pipeline.Base.{
  ℕ, suc, ◌^◌, ◌<◌, Text, text_eq, ascii, Bool, true, false, some, List, [], ◌∷◌, ◌≡◌, ◌⊎◌, inl,
  inr, refl, ap, ◌∙◌, arith, All, if◌then◌else◌,
}
use rust_pipeline.Base.Result.{ok}
use rust_pipeline.Base.Int.{ℤ}
use rust_pipeline.Wire.Payload.{
  PayloadValue, rec, seq, text, uint, sint, real, boolean, blob, nil, Fields, no_fields, field,
  Items, no_items, item,
}
use rust_pipeline.Codec.{Xml, Event, start_tag, end_tag, text_run, Stream, done, ◌>>=◌, get_attr}
use rust_pipeline.Codec.Spaces.{Graphic}
use rust_pipeline.Codec.Decimal.{
  show_u64, show_i64, show_u64-Graphic, show_i64-Graphic, parse_u64-show_u64, parse_i64-show_i64,
  IsI64,
}
use rust_pipeline.Codec.Hex.{to_hex}
use rust_pipeline.Codec.Hex.RoundTrip.{IsByte, to_hex-Graphic, from_hex-to_hex}
use rust_pipeline.Codec.Seen.{
  seen, seen_text, IsLawful, KeepsText, KeepsName, KeepsText-Graphic, KeepsName-Graphic,
}
use rust_pipeline.Codec.Write.{v_start, write_value, write_fields, write_items}
use rust_pipeline.Codec.Read.{read_scalar, kind_of, scalar_value, parse_scalar, parse_value}

-- A value that the format can carry: its texts have no white space at the ends, the names of its
-- fields nothing to escape, its numbers fit, and its real numbers print so that they are read back.
abbrev mutual
  pub IsCarried : Xml → PayloadValue → Type 0
  IsCarried xml (rec fields) = AreCarried xml fields
  IsCarried xml (seq items) = EachCarried xml items
  IsCarried xml (text s) = KeepsText xml s
  IsCarried xml (uint n) = n < 2 ^ 64
  IsCarried xml (sint x) = IsI64 x
  IsCarried xml (real x) =
      (xml.parse_real (xml.show_real x) ≡ some x) × All Graphic (xml.show_real x)
  IsCarried xml (boolean b) = Unit
  IsCarried xml (blob bytes) = All IsByte bytes
  IsCarried xml nil = Unit

  pub AreCarried : Xml → Fields → Type 0
  AreCarried xml no_fields = Unit
  AreCarried xml (field name value fields) =
      KeepsName xml name × IsCarried xml value × AreCarried xml fields

  pub EachCarried : Xml → Items → Type 0
  EachCarried xml no_items = Unit
  EachCarried xml (item value items) = IsCarried xml value × EachCarried xml items

module _ (xml : Xml) (laws : IsLawful xml) where
  read_scalar-seen :
      (t : Text) (rest : List Event)
      → KeepsText xml t
      → read_scalar xml [] (seen xml (text_run (xml.escape t) ∷ end_tag (ascii "v") ∷ rest))
        ≡ done (t, seen xml rest)
  unfolding read_scalar text_eq
  read_scalar-seen t rest keeps = rw keeps (by_escaped (xml.escape t) (laws.unescape-escape t))
    where
      by_escaped :
          (e : Text)
          → xml.unescape e ≡ ok t
          → read_scalar xml [] (seen_text e (ok (end_tag (ascii "v")) ∷ seen xml rest))
            ≡ done (t, seen xml rest)
      by_escaped [] back =
          let two = laws.unescape-escape [] in
          let empty = laws.escape-Graphic [] tt in
          let none_left : [] ≡ t = cc in ap (λ (s : Text). done (s, seen xml rest)) none_left
      by_escaped (c ∷ s) back = rw back refl

  pub kind_seen :
      (kind : Text) → All Graphic kind → get_attr xml (v_start xml kind) (ascii "k") ≡ kind
  unfolding text_eq
  kind_seen kind g = KeepsName-Graphic xml laws kind g

  -- A kind that reads one text.
  scalar_arm :
      (n : ℕ) (kind t : Text) (v : PayloadValue) (rest : List Event)
      → ((events : Stream)
          → parse_value xml (suc n) kind events ≡ (
              read_scalar xml [] events >>= λ r.
              scalar_value xml (kind_of kind) r.0 >>= λ v. done (v, r.1)))
      → KeepsText xml t
      → scalar_value xml (kind_of kind) t ≡ done v
      → parse_value xml
          (suc n)
          kind
          (seen xml (text_run (xml.escape t) ∷ end_tag (ascii "v") ∷ rest))
        ≡ done (v, seen xml rest)
  scalar_arm n kind t v rest runs keeps value =
      runs _ ∙ rw (read_scalar-seen t rest keeps, value) refl

-- What stands between the start tag of a value and the rest, and the kind in the start tag.
abbrev pub kind_name : PayloadValue → Text
kind_name (rec _) = ascii "rec"
kind_name (seq _) = ascii "seq"
kind_name (text _) = ascii "text"
kind_name (uint _) = ascii "uint"
kind_name (sint _) = ascii "sint"
kind_name (real _) = ascii "real"
kind_name (boolean _) = ascii "bool"
kind_name (blob _) = ascii "blob"
kind_name nil = ascii "nil"

pub kind_name-Graphic : (v : PayloadValue) → All Graphic (kind_name v)
kind_name-Graphic (rec _) = ground arith
kind_name-Graphic (seq _) = ground arith
kind_name-Graphic (text _) = ground arith
kind_name-Graphic (uint _) = ground arith
kind_name-Graphic (sint _) = ground arith
kind_name-Graphic (real _) = ground arith
kind_name-Graphic (boolean _) = ground arith
kind_name-Graphic (blob _) = ground arith
kind_name-Graphic nil = ground arith

abbrev pub body : Xml → PayloadValue → List Event → List Event
body xml (rec fields) rest = write_fields xml fields (end_tag (ascii "v") ∷ rest)
body xml (seq items) rest = write_items xml items (end_tag (ascii "v") ∷ rest)
body xml (text s) rest = text_run (xml.escape s) ∷ end_tag (ascii "v") ∷ rest
body xml (uint n) rest = text_run (xml.escape (show_u64 n)) ∷ end_tag (ascii "v") ∷ rest
body xml (sint x) rest = text_run (xml.escape (show_i64 x)) ∷ end_tag (ascii "v") ∷ rest
body xml (real x) rest = text_run (xml.escape (xml.show_real x)) ∷ end_tag (ascii "v") ∷ rest
body xml (boolean b) rest =
    text_run (xml.escape (if b then ascii "true" else ascii "false")) ∷ end_tag (ascii "v") ∷ rest
body xml (blob bytes) rest = text_run (xml.escape (to_hex bytes)) ∷ end_tag (ascii "v") ∷ rest
body xml nil rest = rest

abbrev pub has_text : PayloadValue → Bool
has_text (rec _) = false
has_text (seq _) = false
has_text nil = false
has_text _ = true

-- Only `nil` has no start tag.
abbrev pub has_start : PayloadValue → Bool
has_start nil = false
has_start _ = true

pub opens :
    (xml : Xml) (v : PayloadValue) (rest : List Event)
    → ((has_start v ≡ true)
        × (write_value xml v rest
            ≡ start_tag (ascii "v") (v_start xml (kind_name v)) ∷ body xml v rest))
      ⊎ (v ≡ nil)
unfolding write_value
opens xml (rec _) rest = inl (refl, refl)
opens xml (seq _) rest = inl (refl, refl)
opens xml (text _) rest = inl (refl, refl)
opens xml (uint _) rest = inl (refl, refl)
opens xml (sint _) rest = inl (refl, refl)
opens xml (real _) rest = inl (refl, refl)
opens xml (boolean _) rest = inl (refl, refl)
opens xml (blob _) rest = inl (refl, refl)
opens xml nil rest = inr refl

module _ (xml : Xml) (laws : IsLawful xml) where
  uint_value :
      (n : ℕ) → n < 2 ^ 64 → scalar_value xml (kind_of (ascii "uint")) (show_u64 n) ≡ done (uint n)
  unfolding scalar_value kind_of text_eq
  uint_value n h = rw (parse_u64-show_u64 n h) refl

  sint_value :
      (x : ℤ) → IsI64 x → scalar_value xml (kind_of (ascii "sint")) (show_i64 x) ≡ done (sint x)
  unfolding scalar_value kind_of text_eq
  sint_value x h = rw (parse_i64-show_i64 x h) refl

  real_value :
      (x : ℕ)
      → xml.parse_real (xml.show_real x) ≡ some x
      → scalar_value xml (kind_of (ascii "real")) (xml.show_real x) ≡ done (real x)
  unfolding scalar_value kind_of text_eq
  real_value x h = rw h refl

  blob_value :
      (bytes : List ℕ)
      → All IsByte bytes
      → scalar_value xml (kind_of (ascii "blob")) (to_hex bytes) ≡ done (blob bytes)
  unfolding scalar_value kind_of text_eq
  blob_value bytes h = rw (from_hex-to_hex bytes h) refl

  boolean_value :
      (b : Bool)
      → scalar_value xml (kind_of (ascii "bool")) (if b then ascii "true" else ascii "false")
        ≡ done (boolean b)
  unfolding scalar_value kind_of text_eq
  boolean_value true = refl
  boolean_value false = refl

  boolean-Graphic : (b : Bool) → All Graphic (if b then ascii "true" else ascii "false")
  boolean-Graphic true = ground arith
  boolean-Graphic false = ground arith

  -- The values with one text, read after their start tag.
  pub scalar_body :
      (n : ℕ) (v : PayloadValue) (rest : List Event)
      → has_text v ≡ true
      → IsCarried xml v
      → parse_value xml (suc n) (kind_name v) (seen xml (body xml v rest)) ≡ done (v, seen xml rest)
  unfolding parse_value parse_scalar kind_of text_eq
  scalar_body n (rec _) rest one h = cc
  scalar_body n (seq _) rest one h = cc
  scalar_body n (text s) rest one h =
      scalar_arm xml laws n (ascii "text") s (text s) rest (λ events. refl) h
        (unfold scalar_value in refl)
  scalar_body n (uint k) rest one h =
      scalar_arm xml laws n (ascii "uint") (show_u64 k) (uint k) rest (λ events. refl)
        (KeepsText-Graphic xml laws (show_u64 k) (show_u64-Graphic k)) (uint_value k h)
  scalar_body n (sint x) rest one h =
      scalar_arm xml laws n (ascii "sint") (show_i64 x) (sint x) rest (λ events. refl)
        (KeepsText-Graphic xml laws (show_i64 x) (show_i64-Graphic x)) (sint_value x h)
  scalar_body n (real x) rest one h =
      scalar_arm xml laws n (ascii "real") (xml.show_real x) (real x) rest (λ events. refl)
        (KeepsText-Graphic xml laws (xml.show_real x) h.1) (real_value x h.0)
  scalar_body n (boolean b) rest one h =
      scalar_arm xml laws n (ascii "bool") (if b then ascii "true" else ascii "false") (boolean b)
        rest (λ events. refl) (KeepsText-Graphic xml laws _ (boolean-Graphic b)) (boolean_value b)
  scalar_body n (blob bytes) rest one h =
      scalar_arm xml laws n (ascii "blob") (to_hex bytes) (blob bytes) rest (λ events. refl)
        (KeepsText-Graphic xml laws (to_hex bytes) (to_hex-Graphic bytes)) (blob_value bytes h)
  scalar_body n nil rest one h = cc
