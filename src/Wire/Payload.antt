-- ===== src/Wire/Payload.antt =====
-- `PayloadValue`, `Field`, `Payload`, `Meta` and `Envelope` of wire.rs. The two vectors that a value
-- may hold are types of their own, `Fields` and `Items`; `Field` is a constructor of the first.
use rust_pipeline.Base.{ℕ, Text, text_eq, Bool, Option, none, some, List, [], ◌∷◌, if◌then◌else◌}
use rust_pipeline.Base.Int.{ℤ}
use rust_pipeline.Wire.Address.{Address}
use rust_pipeline.Wire.Provenance.{Provenance}

-- A `real` is an `f64`, given by its 64 bits.
mutual
  pub data PayloadValue : Type 0 where
    rec : Fields → PayloadValue
    seq : Items → PayloadValue
    text : Text → PayloadValue
    uint : ℕ → PayloadValue
    sint : ℤ → PayloadValue
    real : ℕ → PayloadValue
    boolean : Bool → PayloadValue
    blob : List ℕ → PayloadValue
    nil : PayloadValue

  pub data Fields : Type 0 where
    no_fields : Fields
    field : Text → PayloadValue → Fields → Fields

  pub data Items : Type 0 where
    no_items : Items
    item : PayloadValue → Items → Items

-- `fields.iter().find(|f| f.name == name)`, the first match.
pub find_field : Fields → Text → Option PayloadValue
find_field no_fields name = none
find_field (field n v fields) name = if text_eq n name then some v else find_field fields name

-- `PayloadValue::get`.
unfoldable pub get : PayloadValue → Text → Option PayloadValue
unfolding find_field
get (rec fields) name = find_field fields name
get _ name = none

-- `PayloadValue::as_text`.
unfoldable pub as_text : PayloadValue → Option Text
as_text (text s) = some s
as_text _ = none

abbrev fields_of : List (Text × PayloadValue) → Fields
fields_of [] = no_fields
fields_of ((n, v) ∷ l) = field n v (fields_of l)

-- `PayloadValue::record`.
abbrev pub record_of : List (Text × PayloadValue) → PayloadValue
record_of l = rec (fields_of l)

-- The names of a record's fields, in order.
abbrev pub field_names : Fields → List Text
field_names no_fields = []
field_names (field n v fields) = n ∷ field_names fields

pub record Payload : Type 0 where
  pub tag : Text
  pub value : PayloadValue

-- `Payload::single`.
abbrev pub single : Text → Text → Text → Payload
single tag f t = record { tag = tag; value = rec (field f (text t) no_fields) }

pub record Meta : Type 0 where
  pub from : Address
  pub to : Option Address
  pub thread : Text
  pub provenance : Provenance

pub record Envelope : Type 0 where
  pub meta : Meta
  pub payload : Payload
