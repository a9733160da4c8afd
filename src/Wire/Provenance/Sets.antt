-- ===== src/Wire/Provenance/Sets.antt =====
-- A provenance is a set of labels: the operations on words are those of sets.
use Prim.Native.Nat.{bit_and, bit_or}
use native.Mathlib.Nat.{pow-le-pow_right, mod-eq_of_lt}
use rust_pipeline.Base.{
  ℕ, ◌+◌, ◌-◌, ◌^◌, ◌<◌, ◌≤◌, true, false, not, ◌&&◌, ◌||◌, ltb, ◌==◌, ◌≡◌, refl, sym, ap, ◌∙◌, ◌↔◌,
  ◌≢◌, arith, inl, inr, Bool-cases, if◌then◌else◌,
}
use rust_pipeline.Base.Bits.{
  bit, bit-bit_or, bit-bit_and, bit-le-one, bit-pow_self, bit-pow_ne, bit-zero, mask_ne_zero,
  bit_of_mask, bit_of_ne_zero, eq_of_bits, bit_or-lt, bit_and-lt,
}
use rust_pipeline.Wire.Provenance.{
  Provenance, IsValid, empty, shl, set_bit, union, is_empty, contains_bit, intersects,
}

-- Membership, read off the binary digits: the specification of `contains_bit`.
abbrev pub member : Provenance → ℕ → ℕ
member p c = if ltb c 64 then bit p.bits_lo c else if ltb c 128 then bit p.bits_hi (c - 64) else 0

pow_lt_word : (k : ℕ) → k < 64 → 2 ^ k < 2 ^ 64
pow_lt_word k h =
    let below : 2 ^ k ≤ 2 ^ 63 = pow-le-pow_right (omega arith) {j = 63} (omega arith) in
    omega arith

shl_one : (k : ℕ) → k < 64 → shl 1 k ≡ 2 ^ k
shl_one k h = omega (arith, mod-eq_of_lt (pow_lt_word k h))

mask_test : (x k : ℕ) → k < 64 → not (bit_and x (shl 1 k) == 0) ≡ (bit x k == 1)
mask_test x k h = rw (shl_one k h) (ground (arith, mask_ne_zero x k, bit_of_mask x k))

contains_bit-member : (p : Provenance) (c : ℕ) → contains_bit p c ≡ (member p c == 1)
unfolding contains_bit
contains_bit-member p c = ground (arith, mask_test p.bits_lo c, mask_test p.bits_hi (c - 64))

or_test : (x y k : ℕ) → (bit (bit_or x y) k == 1) ≡ ((bit x k == 1) || (bit y k == 1))
or_test x y k = ground (arith, bit-bit_or x y k, bit-le-one x k, bit-le-one y k)

-- The union holds a label exactly when one of the two does.
pub contains_bit-union :
    (p q : Provenance) (c : ℕ) → contains_bit (union p q) c ≡ (contains_bit p c || contains_bit q c)
unfolding union
contains_bit-union p q c = ground (
  arith,
  contains_bit-member (union p q) c,
  contains_bit-member p c,
  contains_bit-member q c,
  or_test p.bits_lo q.bits_lo c,
  or_test p.bits_hi q.bits_hi (c - 64),
)

set_test : (x j k : ℕ) → j < 64 → (bit (bit_or x (shl 1 j)) k == 1) ≡ ((bit x k == 1) || (k == j))
set_test x j k h =
    rw (shl_one j h)
      (ground (arith, or_test x (2 ^ j) k, bit-pow_self j, bit-pow_ne j k, bit-le-one x k))

contains_bit-empty : (c : ℕ) → contains_bit empty c ≡ false
contains_bit-empty c = ground (arith, contains_bit-member empty c, bit-zero c, bit-zero (c - 64))

-- Setting a bit adds that label if it is below 128, and no other.
pub contains_bit-set_bit :
    (p : Provenance) (b c : ℕ)
    → contains_bit (set_bit p b) c ≡ (contains_bit p c || ((c == b) && ltb b 128))
unfolding set_bit
contains_bit-set_bit p b c = ground (
  arith,
  contains_bit-member (set_bit p b) c,
  contains_bit-member p c,
  set_test p.bits_lo b c,
  set_test p.bits_hi (b - 64) (c - 64),
)

shared_bit : (x y k : ℕ) → bit x k ≡ 1 → bit y k ≡ 1 → bit_and x y ≢ 0
shared_bit x y k p q e =
    absurd (omega (arith, bit-bit_and x y k, bit-zero k, ap (λ (t : ℕ). bit t k) e))

bit_shared :
    (x y : ℕ) → x < 2 ^ 64 → bit_and x y ≢ 0 → (k : ℕ) × (k < 64) × (bit x k ≡ 1) × (bit y k ≡ 1)
bit_shared x y h ne =
    let (k, lt, e) = bit_of_ne_zero 64 (bit_and x y) (bit_and-lt 64 x y h) ne in
    (
      k,
      lt,
      omega (arith, bit-bit_and x y k, bit-le-one x k, bit-le-one y k),
      omega (arith, bit-bit_and x y k, bit-le-one x k, bit-le-one y k),
    )

-- A label of the set of `p` that `mask` has too.
abbrev pub Shares : Provenance → Provenance → Type 0
Shares p mask = (c : ℕ) × (c < 128) × (contains_bit p c ≡ true) × (contains_bit mask c ≡ true)

Shares-lo : (p mask : Provenance) → IsValid p → bit_and p.bits_lo mask.bits_lo ≢ 0 → Shares p mask
Shares-lo p mask v ne =
    let (k, lt, x, y) = bit_shared p.bits_lo mask.bits_lo v.lo ne in
    (
      k,
      omega arith,
      ground (arith, contains_bit-member p k),
      ground (arith, contains_bit-member mask k),
    )

member-hi : (p : Provenance) (k : ℕ) → k < 64 → member p (k + 64) ≡ bit p.bits_hi k
member-hi p k lt = ground arith

Shares-hi : (p mask : Provenance) → IsValid p → bit_and p.bits_hi mask.bits_hi ≢ 0 → Shares p mask
Shares-hi p mask v ne =
    let (k, lt, x, y) = bit_shared p.bits_hi mask.bits_hi v.hi ne in
    (
      k + 64,
      omega arith,
      rw (contains_bit-member p (k + 64), member-hi p k lt, x) refl,
      rw (contains_bit-member mask (k + 64), member-hi mask k lt, y) refl,
    )

-- The mask test holds exactly when the two sets share a label.
pub intersects-Shares :
    (p mask : Provenance) → IsValid p → (intersects p mask ≡ true) ↔ Shares p mask
unfolding intersects
intersects-Shares p mask v = (found, sound)
  where
    found : intersects p mask ≡ true → Shares p mask
    found h = elim (Bool-cases (bit_and p.bits_lo mask.bits_lo == 0)) [
      | inl e ↦ Shares-hi p mask v (ground arith)
      | inr e ↦ Shares-lo p mask v (ground arith)
    ]

    sound : Shares p mask → intersects p mask ≡ true
    sound (c, lt, x, y) = ground (
      arith,
      contains_bit-member p c,
      contains_bit-member mask c,
      shared_bit p.bits_lo mask.bits_lo c,
      shared_bit p.bits_hi mask.bits_hi (c - 64),
    )

same_lo :
    (p q : Provenance) (k : ℕ)
    → k < 64
    → contains_bit p k ≡ contains_bit q k
    → bit p.bits_lo k ≡ bit q.bits_lo k
same_lo p q k lt h = ground (
  arith,
  contains_bit-member p k,
  contains_bit-member q k,
  bit-le-one p.bits_lo k,
  bit-le-one q.bits_lo k,
)

same_hi :
    (p q : Provenance) (k : ℕ)
    → k < 64
    → contains_bit p (k + 64) ≡ contains_bit q (k + 64)
    → bit p.bits_hi k ≡ bit q.bits_hi k
same_hi p q k lt h = ground (
  arith,
  contains_bit-member p (k + 64),
  contains_bit-member q (k + 64),
  member-hi p k lt,
  member-hi q k lt,
  bit-le-one p.bits_hi k,
  bit-le-one q.bits_hi k,
)

-- Two valid provenances with the same labels are equal: nothing else is in the words.
pub eq_of_contains_bit :
    (p q : Provenance)
    → IsValid p
    → IsValid q
    → ((c : ℕ) → c < 128 → contains_bit p c ≡ contains_bit q c)
    → p ≡ q
eq_of_contains_bit p q vp vq same =
    let lo =
      eq_of_bits 64 p.bits_lo q.bits_lo vp.lo vq.lo
        λ k lt. same_lo p q k lt (same k (omega arith)) in
    let hi =
      eq_of_bits 64 p.bits_hi q.bits_hi vp.hi vq.hi
        λ k lt. same_hi p q k lt (same (k + 64) (omega arith)) in
    ground (arith, lo, hi)

pub union-IsValid : (p q : Provenance) → IsValid p → IsValid q → IsValid (union p q)
unfolding union
union-IsValid p q vp vq = record {
  lo = bit_or-lt 64 p.bits_lo q.bits_lo vp.lo vq.lo;
  hi = bit_or-lt 64 p.bits_hi q.bits_hi vp.hi vq.hi;
}

-- On valid provenances the union is commutative, associative and idempotent, with the empty
-- provenance as its unit: labels from several hops add up in any order and any grouping.
pub union_laws :
    (p q r : Provenance)
    → IsValid p
    → IsValid q
    → IsValid r
    → (union p q ≡ union q p)
      × (union (union p q) r ≡ union p (union q r))
      × (union p p ≡ p)
      × (union p empty ≡ p)
union_laws p q r vp vq vr = (
  eq_of_contains_bit _ _ (union-IsValid p q vp vq) (union-IsValid q p vq vp)
      λ c _. simp contains_bit-union (ground arith),
  eq_of_contains_bit _ _ (union-IsValid _ r (union-IsValid p q vp vq) vr)
      (union-IsValid p _ vp (union-IsValid q r vq vr))
      λ c _. simp contains_bit-union (ground arith),
  eq_of_contains_bit _ _ (union-IsValid p p vp vp) vp λ c _. simp contains_bit-union (ground arith),
  eq_of_contains_bit _ _ (union-IsValid p empty vp (omega arith)) vp
      λ c _. simp contains_bit-union (ground (arith, contains_bit-empty c)),
)

-- A valid provenance is empty exactly when it holds no label.
pub is_empty_iff :
    (p : Provenance) → IsValid p → (is_empty p ≡ true) ↔ ((c : ℕ) → contains_bit p c ≡ false)
unfolding is_empty
is_empty_iff p v = (
  (λ h c. let e : p ≡ empty = ground arith in rw e (contains_bit-empty c)),
  λ none_held.
      let e : p ≡ empty =
        eq_of_contains_bit p empty v (omega arith)
          (λ c _. none_held c ∙ sym (contains_bit-empty c)) in
      rw e refl,
)
