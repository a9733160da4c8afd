-- ===== src/Wire/Address/WellFormed.antt =====
-- `Address::parse` returns well-formed addresses only.
use mathlib.Core.List.{append-nil}
use rust_pipeline.Base.{
  ℕ, Text, true, false, ◌&&◌, Option, none, some, List, [], ◌∷◌, ◌++◌, ◌==◌, ◌≡◌, ◌≢◌, refl, sym,
  ap, ◌∙◌, inl, inr, arith, Bool-cases, Option-cases, All, All-append,
}
use rust_pipeline.Base.Result.{ok, ◌>>=◌, >>=-eq-ok}
use rust_pipeline.Base.Split.{Free}
use rust_pipeline.Wire.Address.{
  Segment, Address, Scan, init, parse_segment, scan_step, scan, finish, parse, display_segment,
}
use rust_pipeline.Wire.Address.Segments.{parse_segment-ReadFrom}
use rust_pipeline.Wire.Address.RoundTrip.{
  IsPlain, depth_after, key_depth, IsWellFormedSegment, IsWellFormed, key_depth-append,
}

name_part :
    (name t : Text) (e : ℕ)
    → Free b'[' name
    → key_depth 0 (name ++ t) ≡ some e
    → IsPlain name × (key_depth 0 t ≡ some e)
name_part [] t e free h = (tt, h)
name_part (c ∷ name) t e free h = elim (Option-cases (depth_after 0 c)) [
  | inl stop ↦ absurd (ground arith)
  | inr (m, go) ↦
      let (p, q) = name_part name t e free.1 (ground arith) in
      (((free.0, ground arith, ground arith), p), q)
]

key_part : (d : ℕ) (k : Text) → key_depth d (k ++ (b']' ∷ [])) ≡ some 0 → key_depth d k ≡ some 1
key_part d [] h = ground arith
key_part d (c ∷ k) h = elim (Option-cases (depth_after d c)) [
  | inl stop ↦ absurd (ground arith)
  | inr (m, go) ↦ ground (arith, go, key_part m k)
]

segment-IsWellFormed :
    (raw whole : Text) (seg : Segment)
    → key_depth 0 raw ≡ some 0
    → parse_segment raw whole ≡ ok seg
    → IsWellFormedSegment seg
unfolding display_segment
segment-IsWellFormed raw whole seg level h =
    let r = parse_segment-ReadFrom raw whole seg h in
    by_key seg.name seg.key r.named r.free (ap (key_depth 0) r.prints ∙ level)
  where
    by_key :
        (name : Text) (key : Option Text)
        → name ≢ []
        → Free b'[' name
        → key_depth 0 (display_segment (record { name = name; key = key })) ≡ some 0
        → IsWellFormedSegment (record { name = name; key = key })
    by_key name none ne free e =
        let (p, q) = name_part name [] 0 free (rw append-nil e) in
        record { named = ne; plain = p; fits = tt }
    by_key name (some k) ne free e =
        let (p, q) = name_part name (b'[' ∷ (k ++ (b']' ∷ []))) 0 free e in
        record { named = ne; plain = p; fits = key_part 1 k q }

-- What holds between two rounds of the loop.
record IsGood (st : Scan) : Type 0 where
  level : key_depth 0 st.current ≡ some st.depth
  before : All IsWellFormedSegment st.segments

scan_step-dot :
    (whole : Text) (st : Scan) (ch : ℕ)
    → ((ch == b'.') && (st.depth == 0)) ≡ true
    → scan_step whole st ch ≡ (
        parse_segment st.current whole >>= λ segment.
        ok (record st { segments = st.segments ++ (segment ∷ []); current = [] }))
unfolding scan_step
scan_step-dot whole st ch h = ground arith

scan_step-other :
    (whole : Text) (st : Scan) (ch : ℕ) (st' : Scan)
    → ((ch == b'.') && (st.depth == 0)) ≡ false
    → scan_step whole st ch ≡ ok st'
    → (depth_after st.depth ch ≡ some st'.depth)
      × (st'.current ≡ st.current ++ (ch ∷ []))
      × (st'.segments ≡ st.segments)
unfolding scan_step
scan_step-other whole st ch st' no_dot h = ground arith

scan_step-IsGood :
    (whole : Text) (st : Scan) (ch : ℕ) (st' : Scan)
    → IsGood st
    → scan_step whole st ch ≡ ok st'
    → IsGood st'
scan_step-IsGood whole st ch st' g h = elim (Bool-cases ((ch == b'.') && (st.depth == 0))) [
  | inl dot ↦
      let (seg, p, q) =
        >>=-eq-ok (parse_segment st.current whole) _ (sym (scan_step-dot whole st ch dot) ∙ h) in
      let same : st' ≡ record st { segments = st.segments ++ (seg ∷ []); current = [] } = cc q in
      let flat_level : st.depth ≡ 0 = ground arith in
      rw same (record {
        level = ap some (sym flat_level);
        before =
            All-append IsWellFormedSegment st.segments (seg ∷ []) g.before
              (segment-IsWellFormed st.current whole seg (g.level ∙ ap some flat_level) p, tt);
      })
  | inr no_dot ↦
      let (d, cur, segs) = scan_step-other whole st ch st' no_dot h in
      record {
        level =
            ap (key_depth 0) cur
            ∙ key_depth-append 0 st.depth st.current (ch ∷ []) g.level
            ∙ ground (arith, d);
        before = rw segs g.before;
      }
]

scan-IsGood :
    (whole : Text) (st : Scan) (rest : Text) (st' : Scan)
    → IsGood st
    → scan whole st rest ≡ ok st'
    → IsGood st'
unfolding scan
scan-IsGood whole st [] st' g h = let e : st ≡ st' = cc h in rw (← e) g
scan-IsGood whole st (ch ∷ rest) st' g h =
    let (mid, p, q) = >>=-eq-ok (scan_step whole st ch) _ h in
    scan-IsGood whole mid rest st' (scan_step-IsGood whole st ch mid g p) q

snoc-ne-nil : (l : List Segment) (s : Segment) → l ++ (s ∷ []) ≢ []
snoc-ne-nil [] s = λ e. cc
snoc-ne-nil (a ∷ l) s = λ e. cc

finish-IsWellFormed :
    (whole : Text) (st : Scan) (a : Address) → IsGood st → finish whole st ≡ ok a → IsWellFormed a
unfolding finish
finish-IsWellFormed whole st a g h = elim (Bool-cases (st.depth == 0)) [
  | inl e ↦
      let (seg, p, q) =
        >>=-eq-ok (parse_segment st.current whole)
          (λ segment. ok (record { segments = st.segments ++ (segment ∷ []) }))
          (rw (e, finish) at h) in
      let same : a ≡ record { segments = st.segments ++ (seg ∷ []) } = cc q in
      let flat_level : st.depth ≡ 0 = ground arith in
      rw same (
        snoc-ne-nil st.segments seg,
        All-append IsWellFormedSegment st.segments (seg ∷ []) g.before
            (segment-IsWellFormed st.current whole seg (g.level ∙ ap some flat_level) p, tt),
      )
  | inr e ↦ absurd (ground arith)
]

-- Whatever `parse` accepts is a well-formed address.
pub parse-IsWellFormed : (s : Text) (a : Address) → parse s ≡ ok a → IsWellFormed a
unfolding parse
parse-IsWellFormed [] a h = cc
parse-IsWellFormed (c ∷ s) a h =
    let (st, p, q) = >>=-eq-ok (scan (c ∷ s) init (c ∷ s)) _ h in
    let good = scan-IsGood (c ∷ s) init (c ∷ s) st (record { level = refl; before = tt }) p in
    finish-IsWellFormed (c ∷ s) st a good q
