-- ===== src/Tests/Wire.antt =====
-- The results on wire.rs at concrete addresses and provenances.
use rust_pipeline.Base.{Text, ascii, true, ◌||◌, none, some, [], ◌∷◌, ◌≡◌, ◌↔◌, refl, arith}
use rust_pipeline.Base.Result.{ok}
use rust_pipeline.Wire.Address.{Address, parse, display}
use rust_pipeline.Wire.Address.Printing.{display-parse}
use rust_pipeline.Wire.Address.RoundTrip.{IsWellFormed, parse-display}
use rust_pipeline.Wire.Address.WellFormed.{parse-IsWellFormed}
use rust_pipeline.Wire.Address.Parts.{
  SameInstance, buffer, instance_address, instance_address-SameInstance,
}
use rust_pipeline.Wire.Provenance.{Provenance, IsValid, from_bit, union, contains_bit, intersects}
use rust_pipeline.Wire.Provenance.Sets.{Shares, contains_bit-union, intersects-Shares}

-- A keyed segment with a dotted key, between two plain ones.
abbrev direct : Address
direct = record {
  segments =
      record { name = ascii "ringhub"; key = none }
      ∷ record { name = ascii "bob"; key = some (ascii "al.ice") }
      ∷ record { name = ascii "dm"; key = none }
      ∷ [];
}

abbrev direct_text : Text
direct_text = ascii "ringhub.bob[al.ice].dm"

direct-read : parse direct_text ≡ ok direct
unfolding parse
direct-read = refl

direct_good : IsWellFormed direct
direct_good = parse-IsWellFormed direct_text direct direct-read

parse-display_example : parse (display direct) ≡ ok direct
parse-display_example = parse-display direct direct_good

display-parse_example : display direct ≡ direct_text
display-parse_example = display-parse direct_text direct direct-read

parse-IsWellFormed_example : IsWellFormed direct
parse-IsWellFormed_example = parse-IsWellFormed direct_text direct direct-read

instance_address-SameInstance_example :
    (b : Address) × (instance_address direct ≡ some b)
    × SameInstance direct b
    × (buffer b ≡ none)
    × (instance_address b ≡ some b)
instance_address-SameInstance_example = instance_address-SameInstance direct λ e. cc

-- One label in each word.
abbrev marked : Provenance
marked = union (from_bit 3) (from_bit 70)

marked-IsValid : IsValid marked
unfolding union from_bit
marked-IsValid = omega arith

nine-IsValid : IsValid (from_bit 9)
unfolding from_bit
nine-IsValid = omega arith

contains_bit-union_example :
    contains_bit (union marked (from_bit 9)) 70
    ≡ (contains_bit marked 70 || contains_bit (from_bit 9) 70)
contains_bit-union_example = contains_bit-union marked (from_bit 9) 70

intersects-Shares_example : (intersects marked (from_bit 70) ≡ true) ↔ Shares marked (from_bit 70)
intersects-Shares_example = intersects-Shares marked (from_bit 70) marked-IsValid
