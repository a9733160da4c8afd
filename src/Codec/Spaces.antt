-- ===== src/Codec/Spaces.antt =====
-- `str::trim` of the standard library: `White_Space` characters at both ends, in their UTF-8 form.
use mathlib.Core.List.{reverse, reverse-reverse, reverse-cons}
use rust_pipeline.Base.{
  ℕ, zero, suc, ◌<◌, Text, Bool, false, ◌&&◌, ◌||◌, [], ◌∷◌, length, drop, leb, ◌==◌, ◌≡◌, refl,
  arith, if◌then◌else◌, All, All-append,
}

-- The characters of one, two and three bytes; there are no longer ones.
abbrev pub white1 : ℕ → Bool
white1 a = (leb 9 a && leb a 13) || a == 32

abbrev pub white2 : ℕ → ℕ → Bool
white2 a b = a == 0xC2 && (b == 0x85 || b == 0xA0)

abbrev pub white3 : ℕ → ℕ → ℕ → Bool
white3 a b c =
    (a == 0xE1 && b == 0x9A && c == 0x80)
    || (a == 0xE2
        && b == 0x80
        && ((leb 0x80 c && leb c 0x8A) || c == 0xA8 || c == 0xA9 || c == 0xAF))
    || (a == 0xE2 && b == 0x81 && c == 0x9F)
    || (a == 0xE3 && b == 0x80 && c == 0x80)

-- The bytes of the white character that a text begins with, 0 if it begins with none.
pub white_head : Text → ℕ
white_head [] = 0
white_head (a ∷ []) = if white1 a then 1 else 0
white_head (a ∷ b ∷ []) = if white1 a then 1 else if white2 a b then 2 else 0
white_head (a ∷ b ∷ c ∷ s) =
    if white1 a then 1 else if white2 a b then 2 else if white3 a b c then 3 else 0

-- The same for the end of a text, which is given backwards.
pub white_tail : Text → ℕ
white_tail [] = 0
white_tail (a ∷ []) = if white1 a then 1 else 0
white_tail (b ∷ a ∷ []) = if white1 b then 1 else if white2 a b then 2 else 0
white_tail (c ∷ b ∷ a ∷ s) =
    if white1 c then 1 else if white2 b c then 2 else if white3 a b c then 3 else 0

-- Takes white characters away, at most as many as the first argument.
pub strip : (Text → ℕ) → ℕ → Text → Text
strip white zero s = s
strip white (suc n) s = elim (white s) [ zero ↦ s | suc k ↦ strip white n (drop (suc k) s) ]

unfoldable pub trim : Text → Text
unfolding white_head white_tail strip
trim s =
    let front = strip white_head (length s) s in
    reverse (strip white_tail (length front) (reverse front))

-- A byte of a visible ASCII character that XML does not escape.
abbrev pub Graphic : ℕ → Type 0
Graphic c =
    (32 < c)
    × (c < 127)
    × ((c == b'<') ≡ false)
    × ((c == b'>') ≡ false)
    × ((c == b'&') ≡ false)
    × ((c == 39) ≡ false)
    × ((c == 34) ≡ false)

white_head-Graphic : (s : Text) → All Graphic s → white_head s ≡ 0
unfolding white_head
white_head-Graphic [] h = refl
white_head-Graphic (a ∷ []) h = ground arith
white_head-Graphic (a ∷ b ∷ []) h = ground arith
white_head-Graphic (a ∷ b ∷ c ∷ s) h = ground arith

white_tail-Graphic : (s : Text) → All Graphic s → white_tail s ≡ 0
unfolding white_tail
white_tail-Graphic [] h = refl
white_tail-Graphic (a ∷ []) h = ground arith
white_tail-Graphic (a ∷ b ∷ []) h = ground arith
white_tail-Graphic (a ∷ b ∷ c ∷ s) h = ground arith

strip_none : (white : Text → ℕ) (n : ℕ) (s : Text) → white s ≡ 0 → strip white n s ≡ s
unfolding strip
strip_none white zero s h = refl
strip_none white (suc n) s h = rw (h, strip) refl

All-reverse : (s : Text) → All Graphic s → All Graphic (reverse s)
All-reverse [] h = h
All-reverse (c ∷ s) h =
    rw (reverse-cons c s) (All-append Graphic (reverse s) (c ∷ []) (All-reverse s h.1) (h.0, tt))

-- A text of graphic characters has nothing to trim.
pub trim-Graphic : (s : Text) → All Graphic s → trim s ≡ s
unfolding trim
trim-Graphic s h =
    rw
      (
        strip_none white_head (length s) s (white_head-Graphic s h),
        strip_none white_tail (length s) (reverse s)
            (white_tail-Graphic (reverse s) (All-reverse s h)),
      )
      (reverse-reverse s)
