-- ===== src/Codec/Hex.antt =====
-- Bytes and provenance as hexadecimal text.
pub mod RoundTrip
use rust_pipeline.Base.{
  ℕ, zero, suc, ◌+◌, ◌-◌, ◌*◌, ◌/◌, ◌%◌, ◌^◌, ◌≤◌, ◌<◌, Text, ascii, Bool, true, false, ◌&&◌, ◌||◌,
  not, Option, none, some, List, [], ◌∷◌, ◌++◌, length, take, drop, get_elem?, leb, ltb, ◌==◌, ◌≡◌,
  refl, ap, sym, ◌∙◌, arith, if◌then◌else◌, All, All-append, Bool-cases, inl, inr,
}
use rust_pipeline.Wire.Provenance.{Provenance, IsValid}
use rust_pipeline.Codec.{Outcome, done, failed, panicked, exhausted, ◌>>=◌, parse_msg, or_msg}
use rust_pipeline.Codec.Spaces.{Graphic, trim, trim-Graphic}
use rust_pipeline.Codec.Decimal.{digit, show_u64, parse_unsigned}

-- `{:0wx}` of a number below 16 ^ w.
unfoldable pub show_hex : (w n : ℕ) → Text
unfolding digit
show_hex zero n = []
show_hex (suc w) n = show_hex w (n / 16) ++ (digit (n % 16) ∷ [])

unfoldable pub to_hex : List ℕ → Text
unfolding show_hex
to_hex [] = []
to_hex (b ∷ bytes) = show_hex 2 b ++ to_hex bytes

-- The byte goes on a character that began before it. A slice may not end there.
abbrev pub is_continuation : ℕ → Bool
is_continuation c = leb 128 c && leb c 191

abbrev pub cuts_character : Text → Bool
cuts_character [] = false
cuts_character (c ∷ s) = is_continuation c

-- The iterator of `from_hex`, which stops at its first error.
unfoldable pub hex_pairs : Text → Outcome (List ℕ)
unfolding parse_unsigned
hex_pairs [] = done []
hex_pairs (c ∷ []) = panicked
hex_pairs (c ∷ d ∷ s) =
    if cuts_character s
    then panicked
    else or_msg (parse_unsigned 16 255 (c ∷ d ∷ [])) (ascii "bad blob hex") >>= λ b.
        hex_pairs s >>= λ bytes. done (b ∷ bytes)

unfoldable pub from_hex : Text → Outcome (List ℕ)
unfolding trim hex_pairs
from_hex text =
    let s = trim text in
    if not (length s % 2 == 0)
    then parse_msg (ascii "blob hex must have even length")
    else hex_pairs s

unfoldable pub prov_to_hex : Provenance → Text
unfolding show_hex
prov_to_hex p = show_hex 16 p.bits_hi ++ show_hex 16 p.bits_lo

unfoldable pub prov_from_hex : Text → Outcome Provenance
unfolding trim parse_unsigned show_u64
prov_from_hex text =
    let s = trim text in
    if not (length s == 32)
    then parse_msg (ascii "provenance must be 32 hex chars, got " ++ show_u64 (length s))
    else if cuts_character (drop 16 s)
    then panicked
    else or_msg (parse_unsigned 16 (2 ^ 64 - 1) (take 16 s)) (ascii "bad provenance hex") >>= λ hi.
        or_msg (parse_unsigned 16 (2 ^ 64 - 1) (drop 16 s)) (ascii "bad provenance hex") >>= λ lo.
        done (record { bits_lo = lo; bits_hi = hi })
