-- ===== src/Wire/Provenance.antt =====
-- `Provenance` of wire.rs: a set of labels below 128 in two 64-bit words.
pub mod Sets
use Prim.Native.Nat.{bit_and, bit_or}
use rust_pipeline.Base.{
  ℕ, ◌-◌, ◌*◌, ◌%◌, ◌^◌, ◌<◌, Bool, true, false, not, ◌&&◌, ◌||◌, ltb, ◌==◌, ◌≡◌, refl,
  if◌then◌else◌,
}

pub record Provenance : Type 0 where
  pub bits_lo : ℕ
  pub bits_hi : ℕ

-- Both words are `u64`.
pub record IsValid (p : Provenance) : Type 0 where
  pub lo : p.bits_lo < 2 ^ 64
  pub hi : p.bits_hi < 2 ^ 64

abbrev pub empty : Provenance
empty = record { bits_lo = 0; bits_hi = 0 }

-- `x << k` on `u64`.
abbrev pub shl : ℕ → ℕ → ℕ
shl x k = (x * 2 ^ k) % 2 ^ 64

unfoldable pub set_bit : Provenance → ℕ → Provenance
set_bit p bit =
    if ltb bit 64
    then record p { bits_lo = bit_or p.bits_lo (shl 1 bit) }
    else if ltb bit 128
    then record p { bits_hi = bit_or p.bits_hi (shl 1 (bit - 64)) }
    else p

unfoldable pub from_bit : ℕ → Provenance
unfolding set_bit
from_bit bit = set_bit empty bit

unfoldable pub with_bit : Provenance → ℕ → Provenance
unfolding set_bit
with_bit p bit = set_bit p bit

unfoldable pub union : Provenance → Provenance → Provenance
union p other = record {
  bits_lo = bit_or p.bits_lo other.bits_lo;
  bits_hi = bit_or p.bits_hi other.bits_hi;
}

-- The same in place: the new value of `self`.
unfoldable pub union_with : Provenance → Provenance → Provenance
union_with p other = record p {
  bits_lo = bit_or p.bits_lo other.bits_lo;
  bits_hi = bit_or p.bits_hi other.bits_hi;
}

unfoldable pub is_empty : Provenance → Bool
is_empty p = (p.bits_lo == 0) && (p.bits_hi == 0)

unfoldable pub contains_bit : Provenance → ℕ → Bool
contains_bit p bit =
    if ltb bit 64
    then not (bit_and p.bits_lo (shl 1 bit) == 0)
    else if ltb bit 128
    then not (bit_and p.bits_hi (shl 1 (bit - 64)) == 0)
    else false

unfoldable pub intersects : Provenance → Provenance → Bool
intersects p mask =
    not (bit_and p.bits_lo mask.bits_lo == 0) || not (bit_and p.bits_hi mask.bits_hi == 0)

test_bits : contains_bit (union (from_bit 3) (from_bit 70)) 70 ≡ true
unfolding contains_bit union from_bit
test_bits = refl
