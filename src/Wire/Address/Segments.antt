-- ===== src/Wire/Address/Segments.antt =====
-- `parse_segment` and the display of a segment undo one another.
use mathlib.Core.List.{append_assoc}
use rust_pipeline.Base.{
  ℕ, suc, ◌+◌, ◌-◌, Text, true, none, some, [], ◌∷◌, ◌++◌, length, take, drop, last?, ◌==◌, ◌≡◌,
  ◌≢◌, refl, sym, ap, ◌∙◌, inl, inr, arith, Bool-cases, Option-cases, length-append,
  take-length-append,
}
use rust_pipeline.Base.Result.{ok}
use rust_pipeline.Base.Split.{Free}
use rust_pipeline.Wire.Address.{Segment, find, ends_with, slice, parse_segment, display_segment}

-- What `find` returns is where the character stands, for the first time.
find-some :
    (c : ℕ) (s : Text) (i : ℕ)
    → find c s ≡ some i
    → (pre : Text) × (post : Text) × (s ≡ pre ++ (c ∷ post)) × (length pre ≡ i) × Free c pre
find-some c [] i h = cc
find-some c (b ∷ s) i h = elim (Bool-cases (b == c)) [
  | inl hit ↦ ([], s, ground arith, ground arith, tt)
  | inr miss ↦ elim (Option-cases (find c s)) [
    | inl e ↦ absurd (ground arith)
    | inr (j, e) ↦
        let (pre, post, p, q, r) = find-some c s j e in
        (b ∷ pre, post, ap (◌∷◌ b) p, ground arith, (ground arith, r))
  ]
]

pub find-none : (c : ℕ) (s : Text) → find c s ≡ none → Free c s
find-none c [] h = tt
find-none c (b ∷ s) h = ground (arith, find-none c s)

pub find-Free : (c : ℕ) (s : Text) → Free c s → find c s ≡ none
find-Free c [] h = refl
find-Free c (b ∷ s) h = ground (arith, find-Free c s h.1)

pub find-append :
    (c : ℕ) (pre post : Text) → Free c pre → find c (pre ++ (c ∷ post)) ≡ some (length pre)
find-append c [] post h = ground arith
find-append c (b ∷ pre) post h = ground (arith, find-append c pre post h.1)

last?-append : (s : Text) (c : ℕ) → last? (s ++ (c ∷ [])) ≡ some c
last?-append [] c = refl
last?-append (a ∷ []) c = refl
last?-append (a ∷ b ∷ s) c = last?-append (b ∷ s) c

last?-some : (s : Text) (c : ℕ) → last? s ≡ some c → (w : Text) × (s ≡ w ++ (c ∷ []))
last?-some [] c h = cc
last?-some (a ∷ []) c h = ([], ground arith)
last?-some (a ∷ b ∷ s) c h = let (w, e) = last?-some (b ∷ s) c h in (a ∷ w, ap (◌∷◌ a) e)

-- The last byte of a text that is not the first occurrence of `c` keeps that occurrence.
find-snoc :
    (c d : ℕ) (w : Text) (i : ℕ) → d ≢ c → find c (w ++ (d ∷ [])) ≡ some i → find c w ≡ some i
find-snoc c d [] i ne h = ground arith
find-snoc c d (b ∷ w) i ne h = elim (Option-cases (find c (w ++ (d ∷ [])))) [
  | inl e ↦ ground arith
  | inr (j, e) ↦ ground (arith, find-snoc c d w j ne e)
]

take-snoc : (w : Text) (c : ℕ) → take (length (w ++ (c ∷ [])) - 1) (w ++ (c ∷ [])) ≡ w
take-snoc w c =
    let e : length (w ++ (c ∷ [])) - 1 ≡ length w = omega (arith, length-append w (c ∷ [])) in
    rw e (take-length-append w (c ∷ []))

drop-after : (pre : Text) (c : ℕ) (post : Text) → drop (length pre + 1) (pre ++ (c ∷ post)) ≡ post
drop-after [] c post = refl
drop-after (b ∷ pre) c post =
    let e : suc (length pre) + 1 ≡ suc (length pre + 1) = omega arith in
    rw e (drop-after pre c post)

-- `name[key]`, as the printer writes it.
abbrev pub keyed : Text → Text → Text
keyed name key = name ++ (b'[' ∷ (key ++ (b']' ∷ [])))

keyed-snoc : (name key : Text) → keyed name key ≡ (name ++ (b'[' ∷ key)) ++ (b']' ∷ [])
keyed-snoc name key = sym (append_assoc name (b'[' ∷ key) (b']' ∷ []))

slice-keyed :
    (name key : Text) → slice (length name + 1) (length (keyed name key) - 1) (keyed name key) ≡ key
slice-keyed name key =
    rw (keyed-snoc name key, take-snoc (name ++ (b'[' ∷ key)) b']') (drop-after name b'[' key)

ends_with-keyed : (name key : Text) → ends_with b']' (keyed name key) ≡ true
ends_with-keyed name key =
    let e : last? (keyed name key) ≡ some b']' =
      rw (keyed-snoc name key) (last?-append (name ++ (b'[' ∷ key)) b']') in
    ground (arith, e)

pub parse_segment-plain :
    (c : ℕ) (cs whole : Text)
    → Free b'[' (c ∷ cs)
    → parse_segment (c ∷ cs) whole ≡ ok (record { name = c ∷ cs; key = none })
unfolding parse_segment
parse_segment-plain c cs whole h = rw (find-Free b'[' (c ∷ cs) h, parse_segment) refl

pub parse_segment-keyed :
    (c : ℕ) (cs key whole : Text)
    → Free b'[' (c ∷ cs)
    → parse_segment (keyed (c ∷ cs) key) whole ≡ ok (record { name = c ∷ cs; key = some key })
unfolding parse_segment
parse_segment-keyed c cs key whole h = ground (
  arith,
  find-append b'[' (c ∷ cs) (key ++ (b']' ∷ [])) h,
  ends_with-keyed (c ∷ cs) key,
  slice-keyed (c ∷ cs) key,
  take-length-append (c ∷ cs) (b'[' ∷ (key ++ (b']' ∷ []))),
)

-- An accepted segment prints as the text it was read from, and its name is a name.
pub record ReadFrom (raw : Text) (seg : Segment) : Type 0 where
  pub prints : display_segment seg ≡ raw
  pub named : seg.name ≢ []
  pub free : Free b'[' seg.name

ReadFrom-keyed :
    (raw whole pre post : Text) (seg : Segment)
    → raw ≡ keyed pre post
    → Free b'[' pre
    → pre ≢ []
    → parse_segment raw whole ≡ ok seg
    → ReadFrom raw seg
unfolding display_segment
ReadFrom-keyed raw whole [] post seg e free ne h = absurd (ne refl)
ReadFrom-keyed raw whole (c ∷ cs) post seg e free ne h =
    let same : seg ≡ record { name = c ∷ cs; key = some post } =
      cc (h, e, parse_segment-keyed c cs post whole free) in
    rw (same, e) (record { prints = refl; named = ne; free = free })

-- What the tests on the way to a keyed segment found.
parse_segment_guards :
    (c : ℕ) (cs whole : Text) (seg : Segment) (i : ℕ)
    → find b'[' (c ∷ cs) ≡ some i
    → parse_segment (c ∷ cs) whole ≡ ok seg
    → (i ≢ 0) × (last? (c ∷ cs) ≡ some b']')
unfolding parse_segment
parse_segment_guards c cs whole seg i found h = ground arith

ReadFrom-found :
    (c : ℕ) (cs whole : Text) (seg : Segment) (i : ℕ)
    → find b'[' (c ∷ cs) ≡ some i
    → parse_segment (c ∷ cs) whole ≡ ok seg
    → ReadFrom (c ∷ cs) seg
ReadFrom-found c cs whole seg i found h =
    let (nonzero, ends) = parse_segment_guards c cs whole seg i found h in
    let (w, raw_eq) = last?-some (c ∷ cs) b']' ends in
    let kept : find b'[' w ≡ some i =
      find-snoc b'[' b']' w i (omega arith) (sym (ap (find b'[') raw_eq) ∙ found) in
    let (pre, post, w_eq, len, free) = find-some b'[' w i kept in
    ReadFrom-keyed (c ∷ cs) whole pre post seg
      (raw_eq ∙ ap (λ (t : Text). t ++ (b']' ∷ [])) w_eq ∙ sym (keyed-snoc pre post)) free
      (λ e. nonzero (sym len ∙ ap length e)) h

pub parse_segment-ReadFrom :
    (raw whole : Text) (seg : Segment) → parse_segment raw whole ≡ ok seg → ReadFrom raw seg
unfolding parse_segment display_segment
parse_segment-ReadFrom [] whole seg h = cc
parse_segment-ReadFrom (c ∷ cs) whole seg h = elim (Option-cases (find b'[' (c ∷ cs))) [
  | inl e ↦
      let same : seg ≡ record { name = c ∷ cs; key = none } =
        cc (h, parse_segment-plain c cs whole (find-none b'[' (c ∷ cs) e)) in
      rw same (record { prints = refl; named = λ e'. cc; free = find-none b'[' (c ∷ cs) e })
  | inr (i, e) ↦ ReadFrom-found c cs whole seg i e h
]
