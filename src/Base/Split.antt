-- ===== src/Base/Split.antt =====
-- `str::split` at one ASCII character, `join`, and what follows the last such character.
use rust_pipeline.Base.Tests.{◌==◌, if◌then◌else◌, Bool-cases, Option-cases}
use rust_pipeline.Base.Lists.{All}
use rust_pipeline.Base.Texts.{Text}
use Prim.Native.Nat.{ℕ}
use mathlib.Core.Path.{◌≡◌, refl, ap, ◌∙◌}
use mathlib.Core.Logic.{◌≢◌, inl, inr}
use mathlib.Core.Option.{Option, none, some}
use mathlib.Core.Bool.{Bool, true, false}
use mathlib.Core.List.{List, [], ◌∷◌, ◌++◌}
use native.Mathlib.Omega.{arith}

abbrev cons_head : ℕ → List Text → List Text
cons_head c [] = (c ∷ []) ∷ []
cons_head c (w ∷ ws) = (c ∷ w) ∷ ws

-- `s.split(d)`: a text with no `d` is one part.
unfoldable pub split : ℕ → Text → List Text
split d [] = [] ∷ []
split d (c ∷ s) = let rest = split d s in if c == d then [] ∷ rest else cons_head c rest

-- `parts.join(d)`.
unfoldable pub join : ℕ → List Text → Text
join d [] = []
join d (w ∷ []) = w
join d (w ∷ v ∷ ws) = w ++ (d ∷ join d (v ∷ ws))

-- A text in which the character `d` does not stand.
abbrev pub Free : ℕ → Text → Type 0
Free d = All (λ c. c ≢ d)

join-cons_head :
    (d c : ℕ) (w : Text) (ws : List Text) → join d (cons_head c (w ∷ ws)) ≡ c ∷ join d (w ∷ ws)
unfolding join
join-cons_head d c w [] = refl
join-cons_head d c w (v ∷ ws) = refl

-- A split has at least one part.
pub split_parts : (d : ℕ) (s : Text) → (w : Text) × (ws : List Text) × (split d s ≡ w ∷ ws)
unfolding split
split_parts d [] = ([], [], refl)
split_parts d (c ∷ s) = let (w, ws, e) = split_parts d s in rw (e, split) (by_test (c == d) w ws)
  where
    by_test :
        (b : Bool) (w : Text) (ws : List Text)
        → (v : Text) × (vs : List Text) × ((if b then [] ∷ (w ∷ ws) else cons_head c (w ∷ ws))
            ≡ v ∷ vs)
    by_test true w ws = ([], w ∷ ws, refl)
    by_test false w ws = (c ∷ w, ws, refl)

-- Joining what was split gives the text back.
pub join-split : (d : ℕ) (s : Text) → join d (split d s) ≡ s
unfolding split join
join-split d [] = refl
join-split d (c ∷ s) =
    let (w, ws, e) = split_parts d s in ground (arith, e, join-split d s, join-cons_head d c w ws)

pub split-Free : (d : ℕ) (w : Text) → Free d w → split d w ≡ w ∷ []
unfolding split
split-Free d [] h = refl
split-Free d (c ∷ w) h = ground (arith, split-Free d w h.1)

split-append : (d : ℕ) (w rest : Text) → Free d w → split d (w ++ (d ∷ rest)) ≡ w ∷ split d rest
unfolding split
split-append d [] rest h = ground arith
split-append d (c ∷ w) rest h = ground (arith, split-append d w rest h.1)

-- Splitting what was joined gives the parts back, if there is one and `d` stands in none.
pub split-join :
    (d : ℕ) (w : Text) (ws : List Text) → All (Free d) (w ∷ ws) → split d (join d (w ∷ ws)) ≡ w ∷ ws
unfolding join
split-join d w [] h = split-Free d w h.0
split-join d w (v ∷ ws) h =
    split-append d w (join d (v ∷ ws)) h.0 ∙ ap (◌∷◌ w) (split-join d v ws h.1)

-- A part put behind the text is the last part.
pub split-append_last :
    (d : ℕ) (s hop : Text) → Free d hop → split d (s ++ (d ∷ hop)) ≡ split d s ++ (hop ∷ [])
unfolding split
split-append_last d [] hop h = ground (arith, split-Free d hop h)
split-append_last d (c ∷ s) hop h =
    let (w, ws, e) = split_parts d s in ground (arith, e, split-append_last d s hop h)

-- What follows the last `d`, if there is one: `s.rfind(d)` and the slice behind it.
unfoldable pub after_last : ℕ → Text → Option Text
after_last d [] = none
after_last d (b ∷ s) = elim (after_last d s) [
  | some t ↦ some t
  | none ↦ if b == d then some s else none
]

pub after_last-eq-none : (d : ℕ) (s : Text) → after_last d s ≡ none → Free d s
unfolding after_last
after_last-eq-none d [] h = tt
after_last-eq-none d (b ∷ s) h = elim (Option-cases (after_last d s)) [
  | inl e ↦ (ground arith, after_last-eq-none d s e)
  | inr (t, e) ↦ absurd (ground arith)
]

-- The text is cut at the last `d`.
pub after_last-eq-some :
    (d : ℕ) (s t : Text)
    → after_last d s ≡ some t
    → Free d t × ((front : Text) × (s ≡ front ++ (d ∷ t)))
unfolding after_last
after_last-eq-some d [] t h = cc
after_last-eq-some d (b ∷ s) t h = elim (Option-cases (after_last d s)) [
  | inr (u, e) ↦
      let same : u ≡ t = ground arith in
      let (free, (front, cut)) = after_last-eq-some d s u e in
      rw (← same) (free, (b ∷ front, ap (◌∷◌ b) cut))
  | inl e ↦ elim (Bool-cases (b == d)) [
    | inl here ↦
        let same : s ≡ t = ground arith in
        let at : b ≡ d = ground arith in rw (← same) (after_last-eq-none d s e, ([], rw at refl))
    | inr other ↦ absurd (ground arith)
  ]
]
