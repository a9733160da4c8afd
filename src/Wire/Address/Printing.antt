-- ===== src/Wire/Address/Printing.antt =====
-- Printing an address that `Address::parse` returned gives the parsed text back.
use mathlib.Core.List.{append_assoc, append-nil}
use rust_pipeline.Base.{
  ℕ, Text, List, [], ◌∷◌, ◌++◌, ◌==◌, ◌≡◌, refl, sym, ap, ◌∙◌, inl, inr, arith, Bool-cases,
}
use rust_pipeline.Base.Result.{ok, ◌>>=◌, >>=-eq-ok}
use rust_pipeline.Wire.Address.{
  Segment, Address, Scan, init, parse_segment, scan_step, scan, finish, parse, display_segment,
  display_segments, display,
}
use rust_pipeline.Wire.Address.Segments.{parse_segment-ReadFrom}

-- The text of segments that were read, each with the dot behind it.
pub dotted : List Segment → Text
dotted [] = []
dotted (s ∷ r) = display_segment s ++ (b'.' ∷ dotted r)

dotted-snoc :
    (l : List Segment) (s : Segment)
    → dotted (l ++ (s ∷ [])) ≡ dotted l ++ (display_segment s ++ (b'.' ∷ []))
unfolding dotted
dotted-snoc [] s = refl
dotted-snoc (a ∷ l) s = simp (dotted-snoc l s, append_assoc)

pub display_segments-snoc :
    (l : List Segment) (s : Segment)
    → display_segments (l ++ (s ∷ [])) ≡ dotted l ++ display_segment s
unfolding dotted display_segments
display_segments-snoc [] s = refl
display_segments-snoc (a ∷ []) s = simp append_assoc
display_segments-snoc (a ∷ b ∷ l) s = simp (display_segments-snoc (b ∷ l) s, append_assoc)

-- What the loop has read so far.
abbrev read : Scan → Text
read st = dotted st.segments ++ st.current

read-dot :
    (whole : Text) (st : Scan) (st' : Scan)
    → (parse_segment st.current whole >>= λ segment.
        ok (record st { segments = st.segments ++ (segment ∷ []); current = [] }))
      ≡ ok st'
    → read st' ≡ read st ++ (b'.' ∷ [])
read-dot whole st st' h =
    let (seg, p, q) = >>=-eq-ok (parse_segment st.current whole) _ h in
    let r = parse_segment-ReadFrom st.current whole seg p in
    let same : st' ≡ record st { segments = st.segments ++ (seg ∷ []); current = [] } = cc q in
    rw (same, append-nil, dotted-snoc st.segments seg, r.prints)
      (sym (append_assoc (dotted st.segments) st.current (b'.' ∷ [])))

read-scan_step :
    (whole : Text) (st : Scan) (ch : ℕ) (st' : Scan)
    → scan_step whole st ch ≡ ok st'
    → read st' ≡ read st ++ (ch ∷ [])
unfolding scan_step
read-scan_step whole st ch st' h =
    ground (arith, append_assoc (dotted st.segments) st.current (ch ∷ []), read-dot whole st st')

read-scan :
    (whole : Text) (st : Scan) (rest : Text) (st' : Scan)
    → scan whole st rest ≡ ok st'
    → read st' ≡ read st ++ rest
unfolding scan
read-scan whole st [] st' h = ground (arith, append-nil (read st))
read-scan whole st (ch ∷ rest) st' h =
    let (mid, p, q) = >>=-eq-ok (scan_step whole st ch) _ h in
    read-scan whole mid rest st' q
    ∙ ap (λ (t : Text). t ++ rest) (read-scan_step whole st ch mid p)
    ∙ append_assoc (read st) (ch ∷ []) rest

read-finish :
    (whole : Text) (st : Scan) (a : Address) → finish whole st ≡ ok a → display a ≡ read st
unfolding finish display
read-finish whole st a h = elim (Bool-cases (st.depth == 0)) [
  | inl e ↦
      let (seg, p, q) =
        >>=-eq-ok (parse_segment st.current whole)
          (λ segment. ok (record { segments = st.segments ++ (segment ∷ []) }))
          (rw (e, finish) at h) in
      let same : a ≡ record { segments = st.segments ++ (seg ∷ []) } = cc q in
      rw (same, display_segments-snoc st.segments seg)
        (ap (λ (t : Text). dotted st.segments ++ t)
          (parse_segment-ReadFrom st.current whole seg p).prints)
  | inr e ↦ absurd (ground arith)
]

-- Whatever text `parse` accepts, the address that it returns prints as that text.
pub display-parse : (s : Text) (a : Address) → parse s ≡ ok a → display a ≡ s
unfolding parse display finish dotted
display-parse [] a h = cc
display-parse (c ∷ s) a h =
    let (st, p, q) = >>=-eq-ok (scan (c ∷ s) init (c ∷ s)) _ h in
    read-finish (c ∷ s) st a q ∙ read-scan (c ∷ s) init (c ∷ s) st p
