-- ===== src/Base/HashMap.antt =====
-- Rust's `HashMap<String, V>`. Its order of iteration is unspecified; here it is the list's.
-- Other modules know the operations by `map_laws` alone.
use rust_pipeline.Base.Tests.{if◌then◌else◌}
use rust_pipeline.Base.Texts.{Text, text_eq, text_eq_iff, text_eq_refl}
use mathlib.Core.Path.{◌≡◌, refl}
use mathlib.Core.Bool.{Bool, true, false}
use mathlib.Core.List.{List, [], ◌∷◌}
use mathlib.Core.Option.{Option, none, some}
use native.Mathlib.Omega.{arith}

pub record HashMap {ℓ} (V : Type ℓ) : Type ℓ where
  pub entries : List (Text × V)

module _ {ℓ} {V : Type ℓ} where
  find : List (Text × V) → Text → Option V
  find [] k = none
  find ((j, v) ∷ l) k = if text_eq j k then some v else find l k

  erase : List (Text × V) → Text → List (Text × V)
  erase [] k = []
  erase ((j, v) ∷ l) k = let rest = erase l k in if text_eq j k then rest else (j, v) ∷ rest

  abbrev pub empty : HashMap V
  empty = record { entries = [] }

  unfoldable pub get : HashMap V → Text → Option V
  unfolding find text_eq
  get m k = find m.entries k

  unfoldable pub insert : HashMap V → Text → V → HashMap V
  unfolding erase text_eq
  insert m k v = record { entries = (k, v) ∷ erase m.entries k }

  unfoldable pub remove : HashMap V → Text → HashMap V
  unfolding erase text_eq
  remove m k = record { entries = erase m.entries k }

  abbrev pub contains_key : HashMap V → Text → Bool
  contains_key m k = elim (get m k) [ none ↦ false | some v ↦ true ]

  find-erase :
      (l : List (Text × V)) (k j : Text)
      → find (erase l k) j ≡ (if text_eq k j then none else find l j)
  unfolding find erase
  find-erase [] k j = ground arith
  find-erase ((i, v) ∷ l) k j =
      ground (arith, find-erase l k j, text_eq_iff i k, text_eq_iff i j, text_eq_iff k j)

  pub get-remove :
      (m : HashMap V) (k j : Text) → get (remove m k) j ≡ (if text_eq k j then none else get m j)
  unfolding get remove
  get-remove m k j = find-erase m.entries k j

  pub get-insert :
      (m : HashMap V) (k j : Text) (v : V)
      → get (insert m k v) j ≡ (if text_eq k j then some v else get m j)
  unfolding get insert find
  get-insert m k j v = simp find-erase (ground arith)

  pub get-insert_self : (m : HashMap V) (k : Text) (v : V) → get (insert m k v) k ≡ some v
  get-insert_self m k v = simp (get-insert, text_eq_refl)

pub get-empty {ℓ} : {V : Type ℓ} (k : Text) → get (empty {V = V}) k ≡ none
unfolding get find
get-empty k = refl

pub ruleset map_laws = (get-empty, get-remove, get-insert)
