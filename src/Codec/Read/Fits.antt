-- ===== src/Codec/Read/Fits.antt =====
-- The widths of the numbers in one scalar that codec.rs reads.
use mathlib.Core.Path.{subst}
use rust_pipeline.Base.{
  ℕ, zero, suc, ◌-◌, ◌^◌, ◌≤◌, ◌<◌, Text, Option, none, some, [], ◌∷◌, ◌==◌, ◌≡◌, arith, All,
  Bool-cases, Option-cases, inl, inr,
}
use rust_pipeline.Base.Int.{ℤ}
use rust_pipeline.Wire.Payload.{
  PayloadValue, rec, seq, text, uint, sint, real, boolean, blob, nil, Fields, no_fields, field,
  Items, no_items, item,
}
use rust_pipeline.Codec.{Xml, Stream, Outcome, done, failed, panicked, exhausted, ◌>>=◌}
use rust_pipeline.Codec.Spaces.{trim}
use rust_pipeline.Codec.Decimal.{
  parse_unsigned, parse_unsigned-le, read_number, read_number-le, parse_u64, parse_i64, IsI64,
  negate,
}
use rust_pipeline.Codec.Hex.{hex_pairs, from_hex}
use rust_pipeline.Codec.Hex.RoundTrip.{IsByte}
use rust_pipeline.Codec.Read.{
  read_scalar, Kind, text_kind, uint_kind, sint_kind, real_kind, bool_kind, blob_kind, nil_kind,
  rec_kind, seq_kind, unknown_kind, scalar_value, parse_scalar, empty_value,
}

-- `P` holds of what is done, if something is.
abbrev pub Gives {ℓ} : {A : Type ℓ} → (A → Type 0) → Outcome A → Type 0
Gives P (done a) = P a
Gives P (failed _) = Unit
Gives P panicked = Unit
Gives P exhausted = Unit

pub >>=-Gives {ℓ κ} :
    {A : Type ℓ} {B : Type κ} (P : A → Type 0) (Q : B → Type 0) (m : Outcome A)
    (next : A → Outcome B)
    → Gives P m
    → ((a : A) → P a → Gives Q (next a))
    → Gives Q (m >>= next)
>>=-Gives P Q (done a) next h then_gives = then_gives a h
>>=-Gives P Q (failed _) next h then_gives = tt
>>=-Gives P Q panicked next h then_gives = tt
>>=-Gives P Q exhausted next h then_gives = tt

pub any-Gives {ℓ} : {A : Type ℓ} (m : Outcome A) → Gives (λ a. Unit {0}) m
any-Gives (done a) = tt
any-Gives (failed _) = tt
any-Gives panicked = tt
any-Gives exhausted = tt

-- The widths of the Rust types, at every depth.
abbrev mutual
  pub FitsTypes : PayloadValue → Type 0
  FitsTypes (rec fields) = FieldsFit fields
  FitsTypes (seq items) = ItemsFit items
  FitsTypes (uint n) = n < 2 ^ 64
  FitsTypes (sint x) = IsI64 x
  FitsTypes (blob bytes) = All IsByte bytes
  FitsTypes (text _) = Unit
  FitsTypes (real _) = Unit
  FitsTypes (boolean _) = Unit
  FitsTypes nil = Unit

  pub FieldsFit : Fields → Type 0
  FieldsFit no_fields = Unit
  FieldsFit (field name value fields) = FitsTypes value × FieldsFit fields

  pub ItemsFit : Items → Type 0
  ItemsFit no_items = Unit
  ItemsFit (item value items) = FitsTypes value × ItemsFit items

hex_pairs-IsByte : (s : Text) → Gives (All IsByte) (hex_pairs s)
unfolding hex_pairs
hex_pairs-IsByte [] = tt
hex_pairs-IsByte (c ∷ []) = tt
hex_pairs-IsByte (c ∷ d ∷ s) =
    ground (arith, hex_pairs-IsByte s, parse_unsigned-le 16 255 (c ∷ d ∷ []))

from_hex-IsByte : (s : Text) → Gives (All IsByte) (from_hex s)
unfolding from_hex
from_hex-IsByte s = ground (arith, hex_pairs-IsByte (trim s))

pub parse_u64-lt : (s : Text) (n : ℕ) → parse_u64 s ≡ some n → n < 2 ^ 64
unfolding parse_u64
parse_u64-lt s n h = omega (arith, parse_unsigned-le 10 (2 ^ 64 - 1) s n h)

negate-IsI64 : (n : ℕ) → n ≤ 2 ^ 63 → IsI64 (negate n)
negate-IsI64 zero h = omega arith
negate-IsI64 (suc n) h = omega arith

abbrev SomeFits : Option ℤ → Type 0
SomeFits none = Unit
SomeFits (some x) = IsI64 x

parse_i64-SomeFits : (s : Text) → SomeFits (parse_i64 s)
unfolding parse_i64
parse_i64-SomeFits [] = tt
parse_i64-SomeFits (c ∷ s) = elim (Bool-cases (c == b'-')) [
  | inl minus ↦
      rw (minus, parse_i64)
        (elim (Option-cases (read_number 10 (2 ^ 63) s)) [
          | inl e ↦ rw e tt
          | inr (n, e) ↦ rw e (negate-IsI64 n (read_number-le 10 (2 ^ 63) s n e))
        ])
  | inr plus ↦
      rw (plus, parse_i64)
        (elim (Option-cases (parse_unsigned 10 (2 ^ 63 - 1) (c ∷ s))) [
          | inl e ↦ rw e tt
          | inr (n, e) ↦ rw e (omega (arith, parse_unsigned-le 10 (2 ^ 63 - 1) (c ∷ s) n e))
        ])
]

scalar_value-FitsTypes :
    (xml : Xml) (kind : Kind) (s : Text) → Gives FitsTypes (scalar_value xml kind s)
unfolding scalar_value
scalar_value-FitsTypes xml text_kind s = tt
scalar_value-FitsTypes xml uint_kind s = elim (Option-cases (parse_u64 s)) [
  | inl e ↦ rw e tt
  | inr (n, e) ↦ rw e (parse_u64-lt s n e)
]
scalar_value-FitsTypes xml sint_kind s = elim (Option-cases (parse_i64 s)) [
  | inl e ↦ rw e tt
  | inr (x, e) ↦ rw e (subst SomeFits e (parse_i64-SomeFits s))
]
scalar_value-FitsTypes xml real_kind s = ground arith
scalar_value-FitsTypes xml bool_kind s = tt
scalar_value-FitsTypes xml blob_kind s =
    >>=-Gives (All IsByte) FitsTypes (from_hex s) _ (from_hex-IsByte s) (λ bytes fit. fit)
scalar_value-FitsTypes xml nil_kind s = tt
scalar_value-FitsTypes xml rec_kind s = tt
scalar_value-FitsTypes xml seq_kind s = tt
scalar_value-FitsTypes xml unknown_kind s = tt

pub empty_value-FitsTypes : (kind : Text) → FitsTypes (empty_value kind)
unfolding empty_value
empty_value-FitsTypes kind = ground arith

abbrev pub ValueFits : PayloadValue × Stream → Type 0
ValueFits r = FitsTypes r.0

abbrev pub FieldsRead : Fields × Stream → Type 0
FieldsRead r = FieldsFit r.0

abbrev pub ItemsRead : Items × Stream → Type 0
ItemsRead r = ItemsFit r.0

known_scalar-FitsTypes :
    (xml : Xml) (known : Kind) (events : Stream)
    → Gives ValueFits
        (read_scalar xml [] events >>= λ r. scalar_value xml known r.0 >>= λ v. done (v, r.1))
known_scalar-FitsTypes xml known events =
    >>=-Gives (λ (r : Text × Stream). Unit {0}) ValueFits (read_scalar xml [] events) _
      (any-Gives (read_scalar xml [] events))
      (λ r any.
        >>=-Gives FitsTypes ValueFits (scalar_value xml known r.0) _
          (scalar_value-FitsTypes xml known r.0) (λ v fit. fit))

pub parse_scalar-FitsTypes :
    (xml : Xml) (kind : Text) (known : Kind) (events : Stream)
    → Gives ValueFits (parse_scalar xml kind known events)
unfolding parse_scalar
parse_scalar-FitsTypes xml kind unknown_kind events = tt
parse_scalar-FitsTypes xml kind text_kind events = known_scalar-FitsTypes xml text_kind events
parse_scalar-FitsTypes xml kind uint_kind events = known_scalar-FitsTypes xml uint_kind events
parse_scalar-FitsTypes xml kind sint_kind events = known_scalar-FitsTypes xml sint_kind events
parse_scalar-FitsTypes xml kind real_kind events = known_scalar-FitsTypes xml real_kind events
parse_scalar-FitsTypes xml kind bool_kind events = known_scalar-FitsTypes xml bool_kind events
parse_scalar-FitsTypes xml kind blob_kind events = known_scalar-FitsTypes xml blob_kind events
parse_scalar-FitsTypes xml kind nil_kind events = known_scalar-FitsTypes xml nil_kind events
parse_scalar-FitsTypes xml kind rec_kind events = known_scalar-FitsTypes xml rec_kind events
parse_scalar-FitsTypes xml kind seq_kind events = known_scalar-FitsTypes xml seq_kind events
