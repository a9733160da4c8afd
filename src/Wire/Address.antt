-- ===== src/Wire/Address.antt =====
-- `Segment` and `Address` of wire.rs: the parser, the printer, and the parts of an address.
-- A Rust slice whose bound is out of range is a panic; where it can happen, `none` stands for it.
pub mod Segments
pub mod Printing
pub mod RoundTrip
pub mod WellFormed
pub mod Parts
use rust_pipeline.Base.{
  ℕ, suc, ◌+◌, ◌-◌, Text, ascii, Bool, true, false, ◌&&◌, Option, none, some, List, [], ◌∷◌, ◌++◌,
  ◌≡◌, refl, length, take, drop, last?, get_elem?, ltb, ◌==◌, if◌then◌else◌,
}
use rust_pipeline.Base.Result.{Result, ok, err, ◌>>=◌}
use rust_pipeline.Base.Split.{split}

pub data AddressError : Type 0 where
  empty : AddressError
  empty_segment unbalanced empty_name : Text → AddressError

pub record Segment : Type 0 where
  pub name : Text
  pub key : Option Text

pub record Address : Type 0 where
  pub segments : List Segment

unfoldable pub flat : Text → Address
flat name = record { segments = record { name = name; key = none } ∷ [] }

-- `raw.find(c)` for an ASCII character.
abbrev pub find : ℕ → Text → Option ℕ
find c [] = none
find c (b ∷ s) =
    let rest = find c s in
    if b == c then some 0 else elim rest [ none ↦ none | some i ↦ some (suc i) ]

-- `raw.ends_with(c)`.
abbrev pub ends_with : ℕ → Text → Bool
ends_with c s = elim (last? s) [ none ↦ false | some b ↦ b == c ]

-- `&raw[a..b]`.
abbrev pub slice : ℕ → ℕ → Text → Text
slice a b s = drop a (take b s)

pub parse_segment : Text → Text → Result AddressError Segment
parse_segment [] whole = err (empty_segment whole)
parse_segment (c ∷ cs) whole =
    let raw = c ∷ cs in
    elim (find b'[' raw) [
      | none ↦ ok (record { name = raw; key = none })
      | some open_at ↦
          if open_at == 0
          then err (empty_name whole)
          else if ends_with b']' raw
          then ok (record {
            name = take open_at raw;
            key = some (slice (open_at + 1) (length raw - 1) raw);
          })
          else err (unbalanced whole)
    ]

-- The variables of the loop of `Address::parse`. `depth` is an `i32` there, and counts at most one
-- for each byte, so it does not wrap on a text of less than 2 GiB.
pub record Scan : Type 0 where
  pub segments : List Segment
  pub depth : ℕ
  pub current : Text

abbrev pub init : Scan
init = record { segments = []; depth = 0; current = [] }

-- One round of the loop.
pub scan_step : Text → Scan → ℕ → Result AddressError Scan
scan_step whole st ch =
    if ch == b'['
    then ok (record st { depth = st.depth + 1; current = st.current ++ (ch ∷ []) })
    else if ch == b']'
    then (if st.depth == 0
        then err (unbalanced whole)
        else ok (record st { depth = st.depth - 1; current = st.current ++ (ch ∷ []) }))
    else if (ch == b'.') && (st.depth == 0)
    then (do
      segment ← parse_segment st.current whole
      ok (record st { segments = st.segments ++ (segment ∷ []); current = [] }))
    else ok (record st { current = st.current ++ (ch ∷ []) })

pub scan : Text → Scan → Text → Result AddressError Scan
scan whole st [] = ok st
scan whole st (ch ∷ rest) = do st' ← scan_step whole st ch; scan whole st' rest

-- What follows the loop.
pub finish : Text → Scan → Result AddressError Address
finish whole st =
    if st.depth == 0
    then (do
      segment ← parse_segment st.current whole
      ok (record { segments = st.segments ++ (segment ∷ []) }))
    else err (unbalanced whole)

unfoldable pub parse : Text → Result AddressError Address
unfolding parse_segment scan_step scan finish
parse [] = err empty
parse (c ∷ s) = do st ← scan (c ∷ s) init (c ∷ s); finish (c ∷ s) st

-- `Display for Address`.
unfoldable pub display_segment : Segment → Text
display_segment seg = elim seg.key [
  | none ↦ seg.name
  | some k ↦ seg.name ++ (b'[' ∷ (k ++ (b']' ∷ [])))
]

unfoldable pub display_segments : List Segment → Text
unfolding display_segment
display_segments [] = []
display_segments (s ∷ []) = display_segment s
display_segments (s ∷ t ∷ r) = display_segment s ++ (b'.' ∷ display_segments (t ∷ r))

unfoldable pub display : Address → Text
unfolding display_segments
display a = display_segments a.segments

test_parse :
    parse (ascii "ringhub.bob[al.ice].dm")
    ≡ ok (record {
      segments =
          record { name = ascii "ringhub"; key = none }
          ∷ record { name = ascii "bob"; key = some (ascii "al.ice") }
          ∷ record { name = ascii "dm"; key = none }
          ∷ [];
    })
unfolding parse
test_parse = refl
