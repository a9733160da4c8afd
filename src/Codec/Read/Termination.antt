-- ===== src/Codec/Read/Termination.antt =====
-- The fuel that the recursion of codec.rs needs: twice the number of events, and a little more.
use rust_pipeline.Base.{
  ℕ, zero, suc, ◌+◌, ◌*◌, ◌≤◌, Text, text_eq, ascii, true, false, Option, none, some, [], ◌∷◌, ◌++◌,
  length, arith, Bool-cases, inl, inr,
}
use rust_pipeline.Base.Result.{Result, ok, err}
use rust_pipeline.Wire.Payload.{PayloadValue}
use rust_pipeline.Codec.{
  Xml, start_tag, empty_tag, end_tag, text_run, other_event, Stream, Outcome, done, failed,
  panicked, exhausted, ◌>>=◌, get_attr, or_parse_error, or_msg,
}
use rust_pipeline.Codec.Spaces.{trim}
use rust_pipeline.Codec.Hex.{hex_pairs, from_hex}
use rust_pipeline.Codec.Read.{
  read_scalar, expect_end, kind_of, Kind, text_kind, uint_kind, sint_kind, real_kind, bool_kind,
  blob_kind, nil_kind, rec_kind, seq_kind, unknown_kind, scalar_value, parse_scalar, expect_value,
  parse_value, parse_fields, parse_items,
}

-- The fuel was enough, and what is done satisfies `P`.
abbrev pub Ends {ℓ} : {A : Type ℓ} → (A → Type 0) → Outcome A → Type 0
Ends P (done a) = P a
Ends P (failed _) = Unit
Ends P panicked = Unit
Ends P exhausted = ⊥

pub >>=-Ends {ℓ κ} :
    {A : Type ℓ} {B : Type κ} (P : A → Type 0) (Q : B → Type 0) (m : Outcome A)
    (next : A → Outcome B)
    → Ends P m
    → ((a : A) → P a → Ends Q (next a))
    → Ends Q (m >>= next)
>>=-Ends P Q (done a) next h then_ends = then_ends a h
>>=-Ends P Q (failed _) next h then_ends = tt
>>=-Ends P Q panicked next h then_ends = tt
>>=-Ends P Q exhausted next h then_ends = absurd h

-- No more than `n` events are left.
abbrev pub Left : {A : Type 0} → ℕ → A × Stream → Type 0
Left n r = length r.1 ≤ n

pub or_parse_error-Ends {ℓ} :
    {A : Type ℓ} (r : Result Text A) → Ends (λ a. Unit {0}) (or_parse_error r)
or_parse_error-Ends (ok a) = tt
or_parse_error-Ends (err m) = tt

pub or_msg-Ends {ℓ} : {A : Type ℓ} (o : Option A) (m : Text) → Ends (λ a. Unit {0}) (or_msg o m)
or_msg-Ends none m = tt
or_msg-Ends (some a) m = tt

pub read_scalar-Ends :
    (xml : Xml) (s : Text) (n : ℕ) (events : Stream)
    → length events ≤ n
    → Ends (Left n) (read_scalar xml s events)
unfolding read_scalar
read_scalar-Ends xml s n [] le = tt
read_scalar-Ends xml s n (err m ∷ events) le = tt
read_scalar-Ends xml s n (ok (text_run t) ∷ events) le =
    >>=-Ends (λ u. Unit {0}) (Left n) (or_parse_error (xml.unescape t)) _ (or_parse_error-Ends _)
      (λ u done_so_far. read_scalar-Ends xml (s ++ u) n events (omega arith))
read_scalar-Ends xml s n (ok (end_tag name) ∷ events) le =
    elim (text_eq name (ascii "v"))
      as (λ b.
        Ends (Left n) (elim b [ true ↦ done (s, events) | false ↦ read_scalar xml s events ])) [
          | true ↦ omega arith
          | false ↦ read_scalar-Ends xml s n events (omega arith)
        ]
read_scalar-Ends xml s n (ok (start_tag _ _) ∷ events) le =
    read_scalar-Ends xml s n events (omega arith)
read_scalar-Ends xml s n (ok (empty_tag _ _) ∷ events) le =
    read_scalar-Ends xml s n events (omega arith)
read_scalar-Ends xml s n (ok other_event ∷ events) le =
    read_scalar-Ends xml s n events (omega arith)

pub expect_end-Ends :
    (xml : Xml) (name : Text) (n : ℕ) (events : Stream)
    → length events ≤ n
    → Ends (λ (rest : Stream). length rest ≤ n) (expect_end xml name events)
unfolding expect_end
expect_end-Ends xml name n [] le = tt
expect_end-Ends xml name n (err m ∷ events) le = tt
expect_end-Ends xml name n (ok (text_run _) ∷ events) le =
    expect_end-Ends xml name n events (omega arith)
expect_end-Ends xml name n (ok (end_tag t) ∷ events) le = elim (Bool-cases (text_eq t name)) [
  | inl e ↦ rw (expect_end, e) (omega arith)
  | inr e ↦ rw (expect_end, e) tt
]
expect_end-Ends xml name n (ok (start_tag _ _) ∷ events) le = tt
expect_end-Ends xml name n (ok (empty_tag _ _) ∷ events) le = tt
expect_end-Ends xml name n (ok other_event ∷ events) le = tt

hex_pairs-Ends : (s : Text) → Ends (λ bytes. Unit {0}) (hex_pairs s)
unfolding hex_pairs
hex_pairs-Ends [] = tt
hex_pairs-Ends (c ∷ []) = tt
hex_pairs-Ends (c ∷ d ∷ s) = ground (arith, hex_pairs-Ends s)

from_hex-Ends : (s : Text) → Ends (λ bytes. Unit {0}) (from_hex s)
unfolding from_hex
from_hex-Ends s = ground (arith, hex_pairs-Ends (trim s))

scalar_value-Ends :
    (xml : Xml) (kind : Kind) (s : Text) → Ends (λ v. Unit {0}) (scalar_value xml kind s)
unfolding scalar_value
scalar_value-Ends xml text_kind s = tt
scalar_value-Ends xml uint_kind s = ground arith
scalar_value-Ends xml sint_kind s = ground arith
scalar_value-Ends xml real_kind s = ground arith
scalar_value-Ends xml bool_kind s = tt
scalar_value-Ends xml blob_kind s = ground (arith, from_hex-Ends s)
scalar_value-Ends xml nil_kind s = tt
scalar_value-Ends xml rec_kind s = tt
scalar_value-Ends xml seq_kind s = tt
scalar_value-Ends xml unknown_kind s = tt

known_scalar-Ends :
    (xml : Xml) (known : Kind) (n : ℕ) (events : Stream)
    → length events ≤ n
    → Ends
        (Left n)
        (read_scalar xml [] events >>= λ r. scalar_value xml known r.0 >>= λ v. done (v, r.1))
known_scalar-Ends xml known n events le =
    >>=-Ends (Left n) (Left n) (read_scalar xml [] events) _ (read_scalar-Ends xml [] n events le)
      (λ r left.
        >>=-Ends (λ v. Unit {0}) (Left n) (scalar_value xml known r.0) _
          (scalar_value-Ends xml known r.0) (λ v ended. left))

pub parse_scalar-Ends :
    (xml : Xml) (kind : Text) (known : Kind) (n : ℕ) (events : Stream)
    → length events ≤ n
    → Ends (Left n) (parse_scalar xml kind known events)
unfolding parse_scalar
parse_scalar-Ends xml kind unknown_kind n events le = tt
parse_scalar-Ends xml kind text_kind n events le = known_scalar-Ends xml text_kind n events le
parse_scalar-Ends xml kind uint_kind n events le = known_scalar-Ends xml uint_kind n events le
parse_scalar-Ends xml kind sint_kind n events le = known_scalar-Ends xml sint_kind n events le
parse_scalar-Ends xml kind real_kind n events le = known_scalar-Ends xml real_kind n events le
parse_scalar-Ends xml kind bool_kind n events le = known_scalar-Ends xml bool_kind n events le
parse_scalar-Ends xml kind blob_kind n events le = known_scalar-Ends xml blob_kind n events le
parse_scalar-Ends xml kind nil_kind n events le = known_scalar-Ends xml nil_kind n events le
parse_scalar-Ends xml kind rec_kind n events le = known_scalar-Ends xml rec_kind n events le
parse_scalar-Ends xml kind seq_kind n events le = known_scalar-Ends xml seq_kind n events le

mutual
  unfolding expect_value

  pub expect_value-Ends :
      (xml : Xml) (n k : ℕ) (events : Stream)
      → 2 * length events + 1 ≤ n
      → length events ≤ k
      → Ends (Left k) (expect_value xml n events)
  expect_value-Ends xml zero k events fuel le = absurd (omega arith)
  expect_value-Ends xml (suc n) k [] fuel le = tt
  expect_value-Ends xml (suc n) k (err m ∷ events) fuel le = tt
  expect_value-Ends xml (suc n) k (ok (start_tag name attrs) ∷ events) fuel le =
      elim (Bool-cases (text_eq name (ascii "v"))) [
        | inl e ↦
            rw (expect_value, e)
              (parse_value-Ends xml n k (get_attr xml attrs (ascii "k")) events (omega arith)
                (omega arith))
        | inr e ↦ rw (expect_value, e) tt
      ]
  expect_value-Ends xml (suc n) k (ok (empty_tag name attrs) ∷ events) fuel le =
      elim (Bool-cases (text_eq name (ascii "v"))) [
        | inl e ↦ rw (expect_value, e) (omega arith)
        | inr e ↦ rw (expect_value, e) tt
      ]
  expect_value-Ends xml (suc n) k (ok (text_run _) ∷ events) fuel le =
      expect_value-Ends xml n k events (omega arith) (omega arith)
  expect_value-Ends xml (suc n) k (ok (end_tag name) ∷ events) fuel le = tt
  expect_value-Ends xml (suc n) k (ok other_event ∷ events) fuel le = tt

  pub parse_value-Ends :
      (xml : Xml) (n k : ℕ) (kind : Text) (events : Stream)
      → 2 * length events + 2 ≤ n
      → length events ≤ k
      → Ends (Left k) (parse_value xml n kind events)
  parse_value-Ends xml zero k kind events fuel le = absurd (omega arith)
  parse_value-Ends xml (suc n) k kind events fuel le =
      elim (kind_of kind)
        as (λ known. Ends (Left k) (elim known [
          | rec_kind ↦ parse_fields xml n events >>= λ r. done (PayloadValue.rec r.0, r.1)
          | seq_kind ↦ parse_items xml n events >>= λ r. done (PayloadValue.seq r.0, r.1)
          | other ↦ parse_scalar xml kind other events
        ])) [
          | rec_kind ↦
              >>=-Ends (Left k) (Left k) (parse_fields xml n events) _
                (parse_fields-Ends xml n k events (omega arith) le) (λ r left. left)
          | seq_kind ↦
              >>=-Ends (Left k) (Left k) (parse_items xml n events) _
                (parse_items-Ends xml n k events (omega arith) le) (λ r left. left)
          | other ↦ parse_scalar-Ends xml kind other k events le
        ]

  pub parse_fields-Ends :
      (xml : Xml) (n k : ℕ) (events : Stream)
      → 2 * length events + 1 ≤ n
      → length events ≤ k
      → Ends (Left k) (parse_fields xml n events)
  parse_fields-Ends xml zero k events fuel le = absurd (omega arith)
  parse_fields-Ends xml (suc n) k [] fuel le = tt
  parse_fields-Ends xml (suc n) k (err m ∷ events) fuel le = tt
  parse_fields-Ends xml (suc n) k (ok (start_tag name attrs) ∷ events) fuel le =
      elim (Bool-cases (text_eq name (ascii "f"))) [
        | inl e ↦
            rw (parse_fields, e)
              (>>=-Ends (Left (length events)) (Left k) (expect_value xml n events) _
                (expect_value-Ends xml n (length events) events (omega arith) (omega arith))
                (λ r left.
                  >>=-Ends (λ (rest : Stream). length rest ≤ length events) (Left k)
                    (expect_end xml (ascii "f") r.1) _
                    (expect_end-Ends xml (ascii "f") (length events) r.1 left)
                    (λ rest left'.
                      >>=-Ends (Left k) (Left k) (parse_fields xml n rest) _
                        (parse_fields-Ends xml n k rest (omega arith) (omega arith))
                        (λ more left''. left''))))
        | inr e ↦
            rw (parse_fields, e) (parse_fields-Ends xml n k events (omega arith) (omega arith))
      ]
  parse_fields-Ends xml (suc n) k (ok (end_tag name) ∷ events) fuel le =
      elim (Bool-cases (text_eq name (ascii "v"))) [
        | inl e ↦ rw (parse_fields, e) (omega arith)
        | inr e ↦
            rw (parse_fields, e) (parse_fields-Ends xml n k events (omega arith) (omega arith))
      ]
  parse_fields-Ends xml (suc n) k (ok (empty_tag _ _) ∷ events) fuel le =
      parse_fields-Ends xml n k events (omega arith) (omega arith)
  parse_fields-Ends xml (suc n) k (ok (text_run _) ∷ events) fuel le =
      parse_fields-Ends xml n k events (omega arith) (omega arith)
  parse_fields-Ends xml (suc n) k (ok other_event ∷ events) fuel le =
      parse_fields-Ends xml n k events (omega arith) (omega arith)

  pub parse_items-Ends :
      (xml : Xml) (n k : ℕ) (events : Stream)
      → 2 * length events + 1 ≤ n
      → length events ≤ k
      → Ends (Left k) (parse_items xml n events)
  parse_items-Ends xml zero k events fuel le = absurd (omega arith)
  parse_items-Ends xml (suc n) k [] fuel le = tt
  parse_items-Ends xml (suc n) k (err m ∷ events) fuel le = tt
  parse_items-Ends xml (suc n) k (ok (start_tag name attrs) ∷ events) fuel le =
      elim (Bool-cases (text_eq name (ascii "v"))) [
        | inl e ↦
            rw (parse_items, e)
              (>>=-Ends (Left (length events)) (Left k)
                (parse_value xml n (get_attr xml attrs (ascii "k")) events) _
                (parse_value-Ends xml n (length events) (get_attr xml attrs (ascii "k")) events
                  (omega arith) (omega arith))
                (λ r left.
                  >>=-Ends (Left k) (Left k) (parse_items xml n r.1) _
                    (parse_items-Ends xml n k r.1 (omega arith) (omega arith))
                    (λ more left'. left')))
        | inr e ↦ rw (parse_items, e) (parse_items-Ends xml n k events (omega arith) (omega arith))
      ]
  parse_items-Ends xml (suc n) k (ok (empty_tag name attrs) ∷ events) fuel le =
      >>=-Ends (Left k) (Left k) (parse_items xml n events) _
        (parse_items-Ends xml n k events (omega arith) (omega arith)) (λ more left. ground arith)
  parse_items-Ends xml (suc n) k (ok (end_tag name) ∷ events) fuel le =
      elim (Bool-cases (text_eq name (ascii "v"))) [
        | inl e ↦ rw (parse_items, e) (omega arith)
        | inr e ↦ rw (parse_items, e) (parse_items-Ends xml n k events (omega arith) (omega arith))
      ]
  parse_items-Ends xml (suc n) k (ok (text_run _) ∷ events) fuel le =
      parse_items-Ends xml n k events (omega arith) (omega arith)
  parse_items-Ends xml (suc n) k (ok other_event ∷ events) fuel le =
      parse_items-Ends xml n k events (omega arith) (omega arith)
