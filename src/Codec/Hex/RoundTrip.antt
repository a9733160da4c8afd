-- ===== src/Codec/Hex/RoundTrip.antt =====
-- Hexadecimal text, written and read, comes back.
use native.Mathlib.Nat.{pow-suc}
use rust_pipeline.Base.{
  ℕ, zero, suc, ◌+◌, ◌-◌, ◌*◌, ◌/◌, ◌%◌, ◌^◌, ◌≤◌, ◌<◌, Text, false, some, List, [], ◌∷◌, ◌++◌,
  length, take, drop, ◌==◌, ◌≡◌, ◌≢◌, refl, ap, sym, ◌∙◌, arith, All, All-append, length-append,
  take-length-append, drop-length-append,
}
use rust_pipeline.Wire.Provenance.{Provenance, IsValid}
use rust_pipeline.Codec.{done}
use rust_pipeline.Codec.Spaces.{Graphic, trim-Graphic}
use rust_pipeline.Codec.Decimal.{
  digit, digit-Graphic, digit_value-digit, read_digits, read_digits-snoc, read_number,
  parse_unsigned,
}
use rust_pipeline.Codec.Hex.{
  show_hex, to_hex, cuts_character, hex_pairs, from_hex, prov_to_hex, prov_from_hex,
}

read_digits-show_hex :
    (limit w n : ℕ) → n < 16 ^ w → n ≤ limit → read_digits 16 limit 0 (show_hex w n) ≡ some n
unfolding show_hex
read_digits-show_hex limit zero n h fits =
    let e : 0 ≡ n = omega arith in unfold read_digits in ap some e
read_digits-show_hex limit (suc w) n h fits =
    let whole : n / 16 * 16 + n % 16 ≡ n = omega arith in
    read_digits-snoc 16 limit 0 (show_hex w (n / 16)) (digit (n % 16)) (n / 16) (n % 16)
      (read_digits-show_hex limit w (n / 16) (omega (arith, pow-suc 16 w)) (omega arith))
      (digit_value-digit 16 (n % 16) (omega arith) (omega arith)) (omega arith)
    ∙ ap some whole

show_hex-head :
    (w n : ℕ) → (c : ℕ) × (s : Text) × (show_hex (suc w) n ≡ c ∷ s) × ((c == b'+') ≡ false)
unfolding show_hex
show_hex-head zero n = (digit (n % 16), [], refl, (digit-Graphic (n % 16) (omega arith)).1)
show_hex-head (suc w) n =
    let (c, s, e, plus) = show_hex-head w (n / 16) in
    (c, s ++ (digit (n % 16) ∷ []), ap (λ (t : Text). t ++ (digit (n % 16) ∷ [])) e, plus)

parse_unsigned-show_hex :
    (limit w n : ℕ)
    → n < 16 ^ suc w
    → n ≤ limit
    → parse_unsigned 16 limit (show_hex (suc w) n) ≡ some n
parse_unsigned-show_hex limit w n h fits =
    let (c, s, e, plus) = show_hex-head w n in
    let read : read_digits 16 limit 0 (c ∷ s) ≡ some n =
      ap (read_digits 16 limit 0) (sym e) ∙ read_digits-show_hex limit (suc w) n h fits in
    ap (parse_unsigned 16 limit) e ∙ (unfold parse_unsigned read_number in rw plus read)

show_hex-Graphic : (w n : ℕ) → All Graphic (show_hex w n)
unfolding show_hex
show_hex-Graphic zero n = tt
show_hex-Graphic (suc w) n =
    All-append Graphic (show_hex w (n / 16)) (digit (n % 16) ∷ []) (show_hex-Graphic w (n / 16))
      ((digit-Graphic (n % 16) (omega arith)).0, tt)

length-show_hex : (w n : ℕ) → length (show_hex w n) ≡ w
unfolding show_hex
length-show_hex zero n = refl
length-show_hex (suc w) n =
    omega
      (arith, length-append (show_hex w (n / 16)) (digit (n % 16) ∷ []), length-show_hex w (n / 16))

cuts_character-Graphic : (s : Text) → All Graphic s → cuts_character s ≡ false
cuts_character-Graphic [] h = refl
cuts_character-Graphic (c ∷ s) h = ground arith

pub to_hex-Graphic : (bytes : List ℕ) → All Graphic (to_hex bytes)
unfolding to_hex
to_hex-Graphic [] = tt
to_hex-Graphic (b ∷ bytes) =
    All-append Graphic (show_hex 2 b) (to_hex bytes) (show_hex-Graphic 2 b) (to_hex-Graphic bytes)

-- What a `u8` can hold.
abbrev pub IsByte : ℕ → Type 0
IsByte b = b < 256

two_digits : (b : ℕ) → show_hex 2 b ≡ digit (b / 16 % 16) ∷ digit (b % 16) ∷ []
unfolding show_hex
two_digits b = refl

even_hex : (bytes : List ℕ) → length (to_hex bytes) % 2 ≡ 0
unfolding to_hex
even_hex [] = refl
even_hex (b ∷ bytes) =
    omega (arith, length-append (show_hex 2 b) (to_hex bytes), length-show_hex 2 b, even_hex bytes)

hex_pairs-to_hex : (bytes : List ℕ) → All IsByte bytes → hex_pairs (to_hex bytes) ≡ done bytes
unfolding hex_pairs to_hex
hex_pairs-to_hex [] h = refl
hex_pairs-to_hex (b ∷ bytes) h =
    let read : parse_unsigned 16 255 (digit (b / 16 % 16) ∷ digit (b % 16) ∷ []) ≡ some b =
      ap (parse_unsigned 16 255) (sym (two_digits b))
      ∙ parse_unsigned-show_hex 255 1 b (omega (arith, h.0)) (omega (arith, h.0)) in
    ap (λ (t : Text). hex_pairs (t ++ to_hex bytes)) (two_digits b)
    ∙ rw
        (
          cuts_character-Graphic (to_hex bytes) (to_hex-Graphic bytes),
          hex_pairs,
          read,
          hex_pairs-to_hex bytes h.1,
        )
        refl

-- Bytes, written and read, come back.
pub from_hex-to_hex : (bytes : List ℕ) → All IsByte bytes → from_hex (to_hex bytes) ≡ done bytes
unfolding from_hex
from_hex-to_hex bytes h =
    rw (trim-Graphic (to_hex bytes) (to_hex-Graphic bytes), even_hex bytes)
      (hex_pairs-to_hex bytes h)

pub prov_to_hex-Graphic : (p : Provenance) → All Graphic (prov_to_hex p)
unfolding prov_to_hex
prov_to_hex-Graphic p =
    All-append Graphic (show_hex 16 p.bits_hi) (show_hex 16 p.bits_lo)
      (show_hex-Graphic 16 p.bits_hi) (show_hex-Graphic 16 p.bits_lo)

-- A provenance, written and read, comes back, if its words are 64-bit words.
pub prov_from_hex-prov_to_hex :
    (p : Provenance) → IsValid p → prov_from_hex (prov_to_hex p) ≡ done p
unfolding prov_from_hex prov_to_hex
prov_from_hex-prov_to_hex p v =
    let hi = show_hex 16 p.bits_hi in
    let lo = show_hex 16 p.bits_lo in
    let front : take 16 (hi ++ lo) ≡ hi =
      ap (λ (n : ℕ). take n (hi ++ lo)) (sym (length-show_hex 16 p.bits_hi))
      ∙ take-length-append hi lo in
    let back : drop 16 (hi ++ lo) ≡ lo =
      ap (λ (n : ℕ). drop n (hi ++ lo)) (sym (length-show_hex 16 p.bits_hi))
      ∙ drop-length-append hi lo in
    let size : length (hi ++ lo) ≡ 32 =
      omega
        (arith, length-append hi lo, length-show_hex 16 p.bits_hi, length-show_hex 16 p.bits_lo) in
    let whole : cuts_character lo ≡ false =
      cuts_character-Graphic lo (show_hex-Graphic 16 p.bits_lo) in
    rw
      (
        trim-Graphic (hi ++ lo) (unfold prov_to_hex in prov_to_hex-Graphic p),
        size,
        back,
        front,
        whole,
        parse_unsigned-show_hex (2 ^ 64 - 1) 15 p.bits_hi (omega (arith, v.hi))
            (omega (arith, v.hi)),
        parse_unsigned-show_hex (2 ^ 64 - 1) 15 p.bits_lo (omega (arith, v.lo))
            (omega (arith, v.lo)),
      )
      refl

pub prov_to_hex-ne-nil : (p : Provenance) → prov_to_hex p ≢ []
unfolding prov_to_hex
prov_to_hex-ne-nil p e =
    let size = ap length e in
    absurd (
      omega (
        arith,
        length-append (show_hex 16 p.bits_hi) (show_hex 16 p.bits_lo),
        length-show_hex 16 p.bits_hi,
        length-show_hex 16 p.bits_lo,
      ))
