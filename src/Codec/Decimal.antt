-- ===== src/Codec/Decimal.antt =====
-- Numbers as text, as the standard library prints and reads them: `to_string` and `str::parse` of a
-- `u64` and an `i64`, and the digits that `from_str_radix` reads.
use rust_pipeline.Base.{
  ℕ, zero, suc, ◌+◌, ◌-◌, ◌*◌, ◌/◌, ◌%◌, ◌^◌, ◌≤◌, ◌<◌, Text, true, false, ◌&&◌, Option, none, some,
  [], ◌∷◌, ◌++◌, leb, ltb, ◌==◌, ◌≡◌, refl, ap, sym, ◌∙◌, arith, if◌then◌else◌, All, All-append,
  Bool-cases, Option-cases, inl, inr,
}
use rust_pipeline.Base.Int.{ℤ, pos, negsuc}
use rust_pipeline.Codec.Spaces.{Graphic}

unfoldable pub digit : ℕ → ℕ
digit d = if ltb d 10 then b'0' + d else b'a' + (d - 10)

-- `char::to_digit`.
unfoldable pub digit_value : ℕ → ℕ → Option ℕ
digit_value base c =
    let d =
      if leb b'0' c && leb c b'9'
      then c - b'0'
      else if leb b'a' c && leb c b'z'
      then c - b'a' + 10
      else if leb b'A' c && leb c b'Z'
      then c - b'A' + 10
      else 36 in
    if ltb d base then some d else none

unfoldable pub show_digits : ℕ → ℕ → Text
unfolding digit
show_digits zero n = []
show_digits (suc fuel) n = elim (ltb n 10) [
  | true ↦ digit n ∷ []
  | false ↦ show_digits fuel (n / 10) ++ (digit (n % 10) ∷ [])
]

-- `to_string` of a `u64`.
unfoldable pub show_u64 : ℕ → Text
unfolding show_digits
show_u64 n = show_digits (suc n) n

-- `to_string` of an `i64`.
unfoldable pub show_i64 : ℤ → Text
unfolding show_u64
show_i64 (pos n) = show_u64 n
show_i64 (negsuc n) = b'-' ∷ show_u64 (suc n)

-- Reads digits until the number passes `limit`.
unfoldable pub read_digits : (base limit : ℕ) → ℕ → Text → Option ℕ
unfolding digit_value
read_digits base limit acc [] = some acc
read_digits base limit acc (c ∷ s) = elim (digit_value base c) [
  | none ↦ none
  | some d ↦ elim (leb (acc * base + d) limit) [
    | true ↦ read_digits base limit (acc * base + d) s
    | false ↦ none
  ]
]

unfoldable pub read_number : (base limit : ℕ) → Text → Option ℕ
unfolding read_digits
read_number base limit [] = none
read_number base limit (c ∷ s) = read_digits base limit 0 (c ∷ s)

-- `from_str_radix` of an unsigned type with the greatest number `limit`: a `+` may come first.
unfoldable pub parse_unsigned : (base limit : ℕ) → Text → Option ℕ
unfolding read_number
parse_unsigned base limit [] = none
parse_unsigned base limit (c ∷ s) =
    if c == b'+' then read_number base limit s else read_number base limit (c ∷ s)

unfoldable pub parse_u64 : Text → Option ℕ
unfolding parse_unsigned
parse_u64 s = parse_unsigned 10 (2 ^ 64 - 1) s

abbrev pub negate : ℕ → ℤ
negate zero = pos 0
negate (suc n) = negsuc n

unfoldable pub parse_i64 : Text → Option ℤ
unfolding read_number
parse_i64 [] = none
parse_i64 (c ∷ s) =
    if c == b'-'
    then elim (read_number 10 (2 ^ 63) s) [ none ↦ none | some n ↦ some (negate n) ]
    else elim (parse_unsigned 10 (2 ^ 63 - 1) (c ∷ s)) [ none ↦ none | some n ↦ some (pos n) ]

test_u64 :
    (show_u64 1048 ≡ b'1' ∷ b'0' ∷ b'4' ∷ b'8' ∷ [])
    × (parse_u64 (b'+' ∷ b'0' ∷ b'7' ∷ []) ≡ some 7)
    × (parse_u64 (b'+' ∷ []) ≡ none)
    × (parse_i64 (b'-' ∷ b'9' ∷ []) ≡ some (negsuc 8))
unfolding show_u64 parse_u64 parse_i64 digit_value digit
test_u64 = (refl, refl, refl, refl)

-- A digit more.
pub read_digits-snoc :
    (base limit acc : ℕ) (s : Text) (c q d : ℕ)
    → read_digits base limit acc s ≡ some q
    → digit_value base c ≡ some d
    → q * base + d ≤ limit
    → read_digits base limit acc (s ++ (c ∷ [])) ≡ some (q * base + d)
unfolding read_digits
read_digits-snoc base limit acc [] c q d h e fits = ground arith
read_digits-snoc base limit acc (b ∷ s) c q d h e fits = elim (Option-cases (digit_value base b)) [
  | inl none_here ↦ absurd (ground arith)
  | inr (v, here) ↦ ground (arith, here, read_digits-snoc base limit (acc * base + v) s c q d)
]

-- The digits that are printed are read as what they stand for, and are nothing but digits.
pub digit_value-digit : (base d : ℕ) → d < base → base ≤ 16 → digit_value base (digit d) ≡ some d
unfolding digit_value digit
digit_value-digit base d h small = ground arith

pub digit-Graphic :
    (d : ℕ) → d < 16 → Graphic (digit d) × ((digit d == b'+') ≡ false) × ((digit d == b'-') ≡ false)
unfolding digit
digit-Graphic d h = ground arith

show_digits_one : (fuel n : ℕ) → ltb n 10 ≡ true → show_digits (suc fuel) n ≡ digit n ∷ []
unfolding show_digits
show_digits_one fuel n h = rw (h, show_digits) (ground arith)

show_digits_more :
    (fuel n : ℕ)
    → ltb n 10 ≡ false
    → show_digits (suc fuel) n ≡ show_digits fuel (n / 10) ++ (digit (n % 10) ∷ [])
unfolding show_digits
show_digits_more fuel n h = rw (h, show_digits) refl

read_digits-show_digits :
    (limit fuel n : ℕ) → n < fuel → n ≤ limit → read_digits 10 limit 0 (show_digits fuel n) ≡ some n
unfolding show_digits
read_digits-show_digits limit zero n h fits = absurd (omega arith)
read_digits-show_digits limit (suc fuel) n h fits = elim (Bool-cases (ltb n 10)) [
  | inl one ↦ rw (show_digits_one fuel n one) (
      read_digits-snoc 10 limit 0 [] (digit n) 0 n (unfold read_digits in refl)
        (digit_value-digit 10 n (ground arith) (omega arith)) (omega arith)
      ∙ ap some (omega arith))
  | inr more ↦
      let whole : n / 10 * 10 + n % 10 ≡ n = omega arith in
      rw (show_digits_more fuel n more) (
        read_digits-snoc 10 limit 0 (show_digits fuel (n / 10)) (digit (n % 10)) (n / 10) (n % 10)
          (read_digits-show_digits limit fuel (n / 10) (ground arith) (omega arith))
          (digit_value-digit 10 (n % 10) (omega arith) (omega arith)) (omega arith)
        ∙ ap some whole)
]

show_digits-Graphic : (fuel n : ℕ) → All Graphic (show_digits fuel n)
unfolding show_digits
show_digits-Graphic zero n = tt
show_digits-Graphic (suc fuel) n = elim (Bool-cases (ltb n 10)) [
  | inl one ↦ rw (show_digits_one fuel n one) ((digit-Graphic n (ground arith)).0, tt)
  | inr more ↦ rw (show_digits_more fuel n more) (
      All-append Graphic (show_digits fuel (n / 10)) (digit (n % 10) ∷ [])
        (show_digits-Graphic fuel (n / 10)) ((digit-Graphic (n % 10) (omega arith)).0, tt))
]

-- A printed number begins with a digit.
show_digits-head :
    (fuel n : ℕ)
    → n < fuel
    → (c : ℕ) × (s : Text) × (show_digits fuel n ≡ c ∷ s)
      × ((c == b'+') ≡ false)
      × ((c == b'-') ≡ false)
unfolding show_digits
show_digits-head zero n h = absurd (omega arith)
show_digits-head (suc fuel) n h = elim (Bool-cases (ltb n 10)) [
  | inl one ↦
      let kinds = digit-Graphic n (ground arith) in
      (digit n, [], show_digits_one fuel n one, kinds.1, kinds.2)
  | inr more ↦
      let (c, s, e, plus, minus) = show_digits-head fuel (n / 10) (ground arith) in
      (
        c,
        s ++ (digit (n % 10) ∷ []),
        show_digits_more fuel n more ∙ ap (λ (t : Text). t ++ (digit (n % 10) ∷ [])) e,
        plus,
        minus,
      )
]

read_number-show_u64 : (limit n : ℕ) → n ≤ limit → read_number 10 limit (show_u64 n) ≡ some n
unfolding show_u64 read_number
read_number-show_u64 limit n fits =
    let (c, s, e, _, _) = show_digits-head (suc n) n (omega arith) in
    rw (e, ← e) (read_digits-show_digits limit (suc n) n (omega arith) fits)

parse_unsigned_digits :
    (base limit c : ℕ) (s : Text)
    → (c == b'+') ≡ false
    → parse_unsigned base limit (c ∷ s) ≡ read_number base limit (c ∷ s)
unfolding parse_unsigned
parse_unsigned_digits base limit c s h = rw h refl

show_u64-head :
    (n : ℕ)
    → (c : ℕ) × (s : Text) × (show_u64 n ≡ c ∷ s) × ((c == b'+') ≡ false) × ((c == b'-') ≡ false)
unfolding show_u64
show_u64-head n = show_digits-head (suc n) n (omega arith)

parse_unsigned-show_u64 : (limit n : ℕ) → n ≤ limit → parse_unsigned 10 limit (show_u64 n) ≡ some n
parse_unsigned-show_u64 limit n fits =
    let (c, s, e, plus, _) = show_u64-head n in
    ap (parse_unsigned 10 limit) e
    ∙ parse_unsigned_digits 10 limit c s plus
    ∙ ap (read_number 10 limit) (sym e)
    ∙ read_number-show_u64 limit n fits

-- A `u64`, printed and parsed, comes back.
pub parse_u64-show_u64 : (n : ℕ) → n < 2 ^ 64 → parse_u64 (show_u64 n) ≡ some n
unfolding parse_u64
parse_u64-show_u64 n h = parse_unsigned-show_u64 (2 ^ 64 - 1) n (omega arith)

-- What an `i64` can hold.
abbrev pub IsI64 : ℤ → Type 0
IsI64 (pos n) = n < 2 ^ 63
IsI64 (negsuc n) = n < 2 ^ 63

-- An `i64`, printed and parsed, comes back.
pub parse_i64-show_i64 : (x : ℤ) → IsI64 x → parse_i64 (show_i64 x) ≡ some x
unfolding show_i64 parse_i64
parse_i64-show_i64 (pos n) h =
    let (c, s, e, _, minus) = show_u64-head n in
    let read : parse_unsigned 10 (2 ^ 63 - 1) (c ∷ s) ≡ some n =
      ap (parse_unsigned 10 (2 ^ 63 - 1)) (sym e)
      ∙ parse_unsigned-show_u64 (2 ^ 63 - 1) n (omega arith) in
    ap parse_i64 e ∙ rw (minus, parse_i64, read) refl
parse_i64-show_i64 (negsuc n) h = rw (read_number-show_u64 (2 ^ 63) (suc n) (omega arith)) refl

-- Printed numbers hold no white character and nothing that is escaped.
pub show_u64-Graphic : (n : ℕ) → All Graphic (show_u64 n)
unfolding show_u64
show_u64-Graphic n = show_digits-Graphic (suc n) n

pub show_i64-Graphic : (x : ℤ) → All Graphic (show_i64 x)
unfolding show_i64
show_i64-Graphic (pos n) = show_u64-Graphic n
show_i64-Graphic (negsuc n) = (ground arith, show_u64-Graphic (suc n))

-- A number that `parse` gives is below the limit.
read_digits-le :
    (base limit acc : ℕ) (s : Text) (n : ℕ)
    → acc ≤ limit
    → read_digits base limit acc s ≡ some n
    → n ≤ limit
unfolding read_digits
read_digits-le base limit acc [] n start h = ground arith
read_digits-le base limit acc (c ∷ s) n start h = elim (Option-cases (digit_value base c)) [
  | inl none_here ↦ absurd (ground arith)
  | inr (v, here) ↦ ground (arith, here, read_digits-le base limit (acc * base + v) s n)
]

pub read_number-le :
    (base limit : ℕ) (s : Text) (n : ℕ) → read_number base limit s ≡ some n → n ≤ limit
unfolding read_number
read_number-le base limit [] n h = cc
read_number-le base limit (c ∷ s) n h = read_digits-le base limit 0 (c ∷ s) n (omega arith) h

pub parse_unsigned-le :
    (base limit : ℕ) (s : Text) (n : ℕ) → parse_unsigned base limit s ≡ some n → n ≤ limit
unfolding parse_unsigned
parse_unsigned-le base limit [] n h = cc
parse_unsigned-le base limit (c ∷ s) n h =
    ground (arith, read_number-le base limit s n, read_number-le base limit (c ∷ s) n)
