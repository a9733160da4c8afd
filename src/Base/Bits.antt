-- ===== src/Base/Bits.antt =====
-- One bit of a number, and what `&`, `|` and `<<` do to it. The native operations are given by a
-- recursion on binary digits with fuel, which the first lemmas take away.
use Prim.Native.Nat.{
  ℕ, zero, suc, ◌+◌, ◌*◌, ◌/◌, ◌%◌, ◌^◌, ◌≤◌, ◌<◌, min, max, bit_and, bit_or, digits, bitwise,
  bit_and-bitwise, bit_or-bitwise,
}
use mathlib.Core.Path.{◌≡◌, refl, ◌∙◌, ap}
use mathlib.Core.Logic.{◌≢◌}
use native.Mathlib.Nat.{pow-suc}
use native.Mathlib.Decide.{ℕ_discrete}
use native.Mathlib.Omega.{arith}

-- Bit `k` of `x`, as 0 or 1.
abbrev pub bit : ℕ → ℕ → ℕ
bit x zero = x % 2
bit x (suc k) = bit (x / 2) k

module _ (z : ℕ → ℕ) (op : ℕ → ℕ → ℕ) where
  enough_fuel : (f g x y : ℕ) → x ≤ f → x ≤ g → digits z op f x y ≡ digits z op g x y
  enough_fuel zero zero x y p q = refl
  enough_fuel zero (suc g) zero y p q = refl
  enough_fuel zero (suc g) (suc x) y p q = absurd (omega arith)
  enough_fuel (suc f) zero zero y p q = refl
  enough_fuel (suc f) zero (suc x) y p q = absurd (omega arith)
  enough_fuel (suc f) (suc g) zero y p q = refl
  enough_fuel (suc f) (suc g) (suc x) y p q =
      rw (enough_fuel f g (suc x / 2) (y / 2) (omega arith) (omega arith))

  lowest_digit :
      (x y : ℕ)
      → bitwise z op (suc x) y ≡ bitwise z op (suc x / 2) (y / 2) * 2 + op (suc x % 2) (y % 2)
  lowest_digit x y =
      omega (arith, enough_fuel x (suc x / 2) (suc x / 2) (y / 2) (omega arith) (omega arith))

or_digit : (x y : ℕ) → bit_or x y ≡ bit_or (x / 2) (y / 2) * 2 + max (x % 2) (y % 2)
or_digit zero y = simp bit_or-bitwise (omega arith)
or_digit (suc x) y = simp bit_or-bitwise (lowest_digit (λ b. b) max x y)

and_digit : (x y : ℕ) → bit_and x y ≡ bit_and (x / 2) (y / 2) * 2 + min (x % 2) (y % 2)
and_digit zero y = simp bit_and-bitwise (omega arith)
and_digit (suc x) y = simp bit_and-bitwise (lowest_digit (λ b. 0) min x y)

pub bit-le-one : (x k : ℕ) → bit x k ≤ 1
bit-le-one x zero = omega arith
bit-le-one x (suc k) = bit-le-one (x / 2) k

pub bit-bit_or : (x y k : ℕ) → bit (bit_or x y) k ≡ max (bit x k) (bit y k)
bit-bit_or x y zero = omega (arith, or_digit x y)
bit-bit_or x y (suc k) =
    ap (λ (t : ℕ). bit t k) (omega (arith, or_digit x y)) ∙ bit-bit_or (x / 2) (y / 2) k

pub bit-bit_and : (x y k : ℕ) → bit (bit_and x y) k ≡ min (bit x k) (bit y k)
bit-bit_and x y zero = omega (arith, and_digit x y)
bit-bit_and x y (suc k) =
    ap (λ (t : ℕ). bit t k) (omega (arith, and_digit x y)) ∙ bit-bit_and (x / 2) (y / 2) k

pub bit-zero : (k : ℕ) → bit 0 k ≡ 0
bit-zero zero = refl
bit-zero (suc k) = bit-zero k

half-pow : (j : ℕ) → 2 ^ suc j / 2 ≡ 2 ^ j
half-pow j = omega (arith, pow-suc 2 j)

pub bit-pow_self : (j : ℕ) → bit (2 ^ j) j ≡ 1
bit-pow_self zero = refl
bit-pow_self (suc j) = rw (half-pow j) (bit-pow_self j)

pub bit-pow_ne : (j k : ℕ) → j ≢ k → bit (2 ^ j) k ≡ 0
bit-pow_ne zero zero h = absurd (h refl)
bit-pow_ne zero (suc k) h = bit-zero k
bit-pow_ne (suc j) zero h = omega (arith, pow-suc 2 j)
bit-pow_ne (suc j) (suc k) h = rw (half-pow j) (bit-pow_ne j k (λ e. h (ap suc e)))

-- A number that is not 0 has a bit, below its width.
pub bit_of_ne_zero : (w x : ℕ) → x < 2 ^ w → x ≢ 0 → (k : ℕ) × (k < w) × (bit x k ≡ 1)
bit_of_ne_zero zero x h ne = absurd (omega arith)
bit_of_ne_zero (suc w) x h ne =
    by_digit (x % 2) refl λ e. bit_of_ne_zero w (x / 2) (omega (arith, pow-suc 2 w)) (omega arith)
  where
    by_digit :
        (d : ℕ)
        → x % 2 ≡ d
        → (x % 2 ≡ 0 → (k : ℕ) × (k < w) × (bit (x / 2) k ≡ 1))
        → (k : ℕ) × (k < suc w) × (bit x k ≡ 1)
    by_digit zero e rest = let (k, p, q) = rest e in (suc k, omega arith, q)
    by_digit (suc d) e rest = (0, omega arith, omega arith)

-- Numbers of one width with the same bits are equal.
pub eq_of_bits : (w x y : ℕ) → x < 2 ^ w → y < 2 ^ w → ((k : ℕ) → k < w → bit x k ≡ bit y k) → x ≡ y
eq_of_bits zero x y p q h = omega arith
eq_of_bits (suc w) x y p q h =
    let low = h 0 (omega arith) in
    let high =
      eq_of_bits w (x / 2) (y / 2) (omega (arith, pow-suc 2 w)) (omega (arith, pow-suc 2 w))
        (λ k lt. h (suc k) (omega arith)) in
    omega arith

-- `|` stays within the width.
pub bit_or-lt : (w x y : ℕ) → x < 2 ^ w → y < 2 ^ w → bit_or x y < 2 ^ w
bit_or-lt zero x y p q =
    let ex : x ≡ 0 = omega arith in let ey : y ≡ 0 = omega arith in rw (ex, ey) (omega arith)
bit_or-lt (suc w) x y p q = omega (
  arith,
  or_digit x y,
  pow-suc 2 w,
  bit_or-lt w (x / 2) (y / 2) (omega (arith, pow-suc 2 w)) (omega (arith, pow-suc 2 w)),
)

-- `&` is at most its first operand.
pub bit_and-lt : (w x y : ℕ) → x < 2 ^ w → bit_and x y < 2 ^ w
bit_and-lt zero x y p = let e : x ≡ 0 = omega arith in rw e (omega (arith, bit_and-bitwise 0 y))
bit_and-lt (suc w) x y p =
    omega
      (arith, and_digit x y, pow-suc 2 w, bit_and-lt w (x / 2) (y / 2) (omega (arith, pow-suc 2 w)))

lt-two-pow : (x : ℕ) → x < 2 ^ x
lt-two-pow zero = omega arith
lt-two-pow (suc x) = omega (arith, pow-suc 2 x, lt-two-pow x)

-- The mask test `x & (1 << k) != 0`.
pub mask_ne_zero : (x k : ℕ) → bit x k ≡ 1 → bit_and x (2 ^ k) ≢ 0
mask_ne_zero x k h e =
    absurd (
      omega (arith, bit-bit_and x (2 ^ k) k, bit-pow_self k, bit-zero k, ap (λ (t : ℕ). bit t k) e))

pub bit_of_mask : (x k : ℕ) → bit_and x (2 ^ k) ≢ 0 → bit x k ≡ 1
bit_of_mask x k ne =
    let m = bit_and x (2 ^ k) in
    let (j, _, p) = bit_of_ne_zero x m (bit_and-lt x x (2 ^ k) (lt-two-pow x)) ne in
    at_mask j p (ℕ_discrete k j)
  where
    at_mask : (j : ℕ) → bit (bit_and x (2 ^ k)) j ≡ 1 → Dec (k ≡ j) → bit x k ≡ 1
    at_mask j p (yes e) =
        rw e (omega (arith, bit-bit_and x (2 ^ k) j, p, bit-le-one x j, bit-le-one (2 ^ k) j))
    at_mask j p (no n) = absurd (omega (arith, bit-bit_and x (2 ^ k) j, bit-pow_ne k j n))
