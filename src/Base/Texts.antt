-- ===== src/Base/Texts.antt =====
-- Rust's `String` and `&str`: the list of the UTF-8 bytes. The program cuts, joins and searches
-- texts only at ASCII characters, which are never a part of another character's bytes, so a walk
-- over the bytes meets the same delimiters as a walk over the characters.
use Prim.Native.Nat.{ℕ}
use Prim.Native.Char.{code}
use Prim.Native.String.{String}
use mathlib.Core.Path.{◌≡◌, refl}
use mathlib.Core.Logic.{◌↔◌}
use mathlib.Core.Bool.{Bool, true, false, ◌&&◌, ◌||◌}
use mathlib.Core.List.{List, [], ◌∷◌}
use native.Mathlib.Omega.{arith}
use rust_pipeline.Base.Tests.{◌==◌}

abbrev pub Text : Type 0
Text = List ℕ

-- The text of an ASCII literal.
abbrev pub ascii : String → Text
ascii String.[] = []
ascii (String.◌∷◌ c s) = code c ∷ ascii s

unfoldable pub text_eq : Text → Text → Bool
text_eq [] [] = true
text_eq [] (y ∷ ys) = false
text_eq (x ∷ xs) [] = false
text_eq (x ∷ xs) (y ∷ ys) = x == y && text_eq xs ys

pub text_eq_iff : (s t : Text) → (text_eq s t ≡ true) ↔ (s ≡ t)
unfolding text_eq
text_eq_iff [] [] = ground arith
text_eq_iff [] (y ∷ ys) = ground arith
text_eq_iff (x ∷ xs) [] = ground arith
text_eq_iff (x ∷ xs) (y ∷ ys) = ground (arith, text_eq_iff xs ys)

pub text_eq_refl : (s : Text) → text_eq s s ≡ true
text_eq_refl s = (text_eq_iff s s).1 refl

-- `s.contains(&t)` of a set or vector of texts.
unfoldable pub contains : List Text → Text → Bool
contains [] t = false
contains (s ∷ ss) t = text_eq s t || contains ss t
