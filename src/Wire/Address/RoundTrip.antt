-- ===== src/Wire/Address/RoundTrip.antt =====
-- Parsing the text that a well-formed address prints as gives the address back, and `parse` returns
-- well-formed addresses only.
use mathlib.Core.List.{append_assoc, append-nil}
use rust_pipeline.Base.{
  ℕ, ◌+◌, ◌-◌, Text, ◌&&◌, Option, none, some, List, [], ◌∷◌, ◌++◌, ◌==◌, ◌≡◌, ◌≢◌, refl, ap, ◌∙◌,
  inl, inr, arith, if◌then◌else◌, Option-cases, All,
}
use rust_pipeline.Base.Result.{ok, ◌>>=◌}
use rust_pipeline.Base.Split.{Free}
use rust_pipeline.Wire.Address.{
  Segment, Address, Scan, init, parse_segment, scan_step, scan, finish, parse, display_segment,
  display_segments, display,
}
use rust_pipeline.Wire.Address.Segments.{parse_segment-plain, parse_segment-keyed}

-- A name holds no delimiter.
abbrev pub IsPlain : Text → Type 0
IsPlain = All (λ c. (c ≢ b'[') × (c ≢ b']') × (c ≢ b'.'))

-- The depth of brackets behind one byte; `none` where a bracket closes that was not opened, and at
-- a dot outside brackets.
abbrev pub depth_after : ℕ → ℕ → Option ℕ
depth_after depth c =
    if c == b'['
    then some (depth + 1)
    else if c == b']'
    then (if depth == 0 then none else some (depth - 1))
    else if (c == b'.') && (depth == 0)
    then none
    else some depth

abbrev pub key_depth : ℕ → Text → Option ℕ
key_depth depth [] = some depth
key_depth depth (c ∷ cs) = elim (depth_after depth c) [ none ↦ none | some d ↦ key_depth d cs ]

-- A key stays inside the brackets that enclose it.
abbrev pub KeyFits : Option Text → Type 0
KeyFits none = Unit
KeyFits (some k) = key_depth 1 k ≡ some 1

pub record IsWellFormedSegment (seg : Segment) : Type 0 where
  pub named : seg.name ≢ []
  pub plain : IsPlain seg.name
  pub fits : KeyFits seg.key

abbrev pub IsWellFormed : Address → Type 0
IsWellFormed a = (a.segments ≢ []) × All IsWellFormedSegment a.segments

pub key_depth-append :
    (d e : ℕ) (s t : Text) → key_depth d s ≡ some e → key_depth d (s ++ t) ≡ key_depth e t
key_depth-append d e [] t h = ground arith
key_depth-append d e (c ∷ s) t h = elim (Option-cases (depth_after d c)) [
  | inl stop ↦ absurd (ground arith)
  | inr (m, go) ↦ ground (arith, go, key_depth-append m e s t)
]

key_depth-plain : (d : ℕ) (s : Text) → IsPlain s → key_depth d s ≡ some d
key_depth-plain d [] h = refl
key_depth-plain d (c ∷ s) h = ground (arith, key_depth-plain d s h.1)

-- A well-formed segment, printed, leaves the depth at 0.
key_depth-display_segment :
    (seg : Segment) → IsWellFormedSegment seg → key_depth 0 (display_segment seg) ≡ some 0
unfolding display_segment
key_depth-display_segment seg h = by_key seg.name seg.key h.plain h.fits
  where
    by_key :
        (name : Text) (key : Option Text)
        → IsPlain name
        → KeyFits key
        → key_depth 0 (display_segment (record { name = name; key = key })) ≡ some 0
    by_key name none p f = key_depth-plain 0 name p
    by_key name (some k) p f =
        key_depth-append 0 0 name (b'[' ∷ (k ++ (b']' ∷ []))) (key_depth-plain 0 name p)
        ∙ key_depth-append 1 1 k (b']' ∷ []) f

scan_step-depth_after :
    (whole : Text) (st : Scan) (c d : ℕ)
    → depth_after st.depth c ≡ some d
    → scan_step whole st c ≡ ok (record st { depth = d; current = st.current ++ (c ∷ []) })
unfolding scan_step
scan_step-depth_after whole st c d h = ground arith

-- The loop reads a text that stays inside a segment into `current`.
scan-append :
    (whole : Text) (l : List Segment) (d e : ℕ) (cur s rest : Text)
    → key_depth d s ≡ some e
    → scan whole (record { segments = l; depth = d; current = cur }) (s ++ rest)
      ≡ scan whole (record { segments = l; depth = e; current = cur ++ s }) rest
unfolding scan
scan-append whole l d e cur [] rest h = ground (arith, append-nil cur)
scan-append whole l d e cur (c ∷ s) rest h = elim (Option-cases (depth_after d c)) [
  | inl stop ↦ absurd (ground arith)
  | inr (m, go) ↦
      rw (scan_step-depth_after whole (record { segments = l; depth = d; current = cur }) c m go) (
        scan-append whole l m e (cur ++ (c ∷ [])) s rest (ground arith)
        ∙ ap (λ (t : Text). scan whole (record { segments = l; depth = e; current = t }) rest)
            (append_assoc cur (c ∷ []) s))
]

plain-Free : (s : Text) → IsPlain s → Free b'[' s
plain-Free [] h = tt
plain-Free (c ∷ s) h = (h.0.0, plain-Free s h.1)

pub parse_segment-display_segment :
    (seg : Segment) (whole : Text)
    → IsWellFormedSegment seg
    → parse_segment (display_segment seg) whole ≡ ok seg
unfolding display_segment
parse_segment-display_segment seg whole h = by_cases seg.name seg.key h.named h.plain
  where
    by_cases :
        (name : Text) (key : Option Text)
        → name ≢ []
        → IsPlain name
        → parse_segment (display_segment (record { name = name; key = key })) whole
          ≡ ok (record { name = name; key = key })
    by_cases [] key ne p = absurd (ne refl)
    by_cases (c ∷ cs) none ne p = parse_segment-plain c cs whole (plain-Free (c ∷ cs) p)
    by_cases (c ∷ cs) (some k) ne p = parse_segment-keyed c cs k whole (plain-Free (c ∷ cs) p)

-- The loop and what follows it, on the text of some well-formed segments.
parse_from :
    (whole : Text) (l : List Segment) (s : Segment) (r : List Segment)
    → All IsWellFormedSegment (s ∷ r)
    → (scan whole (record { segments = l; depth = 0; current = [] }) (display_segments (s ∷ r))
        >>= finish whole)
      ≡ ok (record { segments = l ++ (s ∷ r) })
unfolding display_segments scan finish scan_step
parse_from whole l s [] h =
    rw
      (
        ← append-nil (display_segment s),
        scan-append whole l 0 0 [] (display_segment s) [] (key_depth-display_segment s h.0),
        parse_segment-display_segment s whole h.0,
      )
      refl
parse_from whole l s (t ∷ r) h =
    rw
      (
        scan-append whole l 0 0 [] (display_segment s) (b'.' ∷ display_segments (t ∷ r))
            (key_depth-display_segment s h.0),
        parse_segment-display_segment s whole h.0,
      )
      (parse_from whole (l ++ (s ∷ [])) t r h.1
        ∙ ap (λ (x : List Segment). ok (record { segments = x })) (append_assoc l (s ∷ []) (t ∷ r)))

append-ne-nil : (s t : Text) → s ≢ [] → s ++ t ≢ []
append-ne-nil [] t h = absurd (h refl)
append-ne-nil (c ∷ s) t h = λ e. cc

display_segment-ne-nil :
    (name : Text) (key : Option Text)
    → name ≢ []
    → display_segment (record { name = name; key = key }) ≢ []
unfolding display_segment
display_segment-ne-nil name none h = h
display_segment-ne-nil name (some k) h = append-ne-nil name _ h

pub display_segments-ne-nil :
    (s : Segment) (r : List Segment) → IsWellFormedSegment s → display_segments (s ∷ r) ≢ []
unfolding display_segments
display_segments-ne-nil s [] h = display_segment-ne-nil s.name s.key h.named
display_segments-ne-nil s (t ∷ r) h =
    append-ne-nil (display_segment s) _ (display_segment-ne-nil s.name s.key h.named)

parse-ne-nil : (s : Text) → s ≢ [] → parse s ≡ (scan s init s >>= finish s)
unfolding parse
parse-ne-nil [] h = absurd (h refl)
parse-ne-nil (c ∷ s) h = refl

-- A well-formed address, printed and parsed, comes back.
pub parse-display : (a : Address) → IsWellFormed a → parse (display a) ≡ ok a
unfolding display
parse-display a h = by_segments a.segments h.0 h.1
  where
    by_segments :
        (l : List Segment)
        → l ≢ []
        → All IsWellFormedSegment l
        → parse (display_segments l) ≡ ok (record { segments = l })
    by_segments [] ne w = absurd (ne refl)
    by_segments (s ∷ r) ne w =
        parse-ne-nil (display_segments (s ∷ r)) (display_segments-ne-nil s r w.0)
        ∙ parse_from (display_segments (s ∷ r)) [] s r w
