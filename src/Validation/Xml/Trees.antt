-- ===== src/Validation/Xml/Trees.antt =====
-- The events of a document with one root element: what the loop makes of them.
use rust_pipeline.Base.{
  ℕ, suc, ◌+◌, ◌^◌, ◌≤◌, ◌<◌, Text, ascii, contains, Bool, true, false, not, ◌&&◌, ◌||◌, List, [],
  ◌∷◌, ◌≡◌, ◌≢◌, refl, ap, sym, ◌∙◌, arith, All, Bool-cases, inl, inr,
}
use rust_pipeline.Base.Result.{ok, >>=-eq-ok}
use rust_pipeline.Error.{PipelineResult}
use rust_pipeline.Codec.{start_tag, empty_tag, end_tag, text_run, other_event, Stream, Attributes}
use rust_pipeline.Validation.{FieldSchemas, declares}
use rust_pipeline.Validation.Xml.{local_name, Walk, up, opened, walk_events}

-- The content of an element: elements with content, empty elements, and what is no element.
pub data Nodes : Type 0 where
  no_nodes : Nodes
  element : Text → Attributes → Nodes → Nodes → Nodes
  empty_element : Text → Attributes → Nodes → Nodes
  characters : Text → Nodes → Nodes
  other_node : Nodes → Nodes

-- The events of the content, and then `rest`.
abbrev pub events_of : Nodes → Stream → Stream
events_of no_nodes rest = rest
events_of (element tag attrs inside more) rest =
    ok (start_tag tag attrs) ∷ events_of inside (ok (end_tag tag) ∷ events_of more rest)
events_of (empty_element tag attrs more) rest = ok (empty_tag tag attrs) ∷ events_of more rest
events_of (characters t more) rest = ok (text_run t) ∷ events_of more rest
events_of (other_node more) rest = ok other_event ∷ events_of more rest

-- The elements, inner ones included.
abbrev pub elements : Nodes → ℕ
elements no_nodes = 0
elements (element tag attrs inside more) = suc (elements inside) + elements more
elements (empty_element tag attrs more) = suc (elements more)
elements (characters t more) = elements more
elements (other_node more) = elements more

module _ (is_utf8 : Text → Bool) where
  -- The local names of the child elements.
  abbrev pub child_names : Nodes → List Text
  child_names no_nodes = []
  child_names (element tag attrs inside more) = local_name is_utf8 tag ∷ child_names more
  child_names (empty_element tag attrs more) = local_name is_utf8 tag ∷ child_names more
  child_names (characters t more) = child_names more
  child_names (other_node more) = child_names more

  module _ (fields : FieldSchemas) (root : Text) (strict : Bool) where
    opened_deep :
        (close tag : Text) (walk : Walk)
        → 2 ≤ walk.depth
        → walk.depth + 1 < 2 ^ 32
        → opened fields root strict close tag walk ≡ ok (record walk { depth = walk.depth + 1 })
    unfolding opened
    opened_deep close tag walk deep fits = ground arith

    up_down : (d : ℕ) → d + 1 < 2 ^ 32 → up (d + 1) ≡ d
    up_down d fits = omega arith

    -- An end tag, and the end of an empty element.
    closed :
        (walk : Walk) (rest : Stream)
        → walk.depth + 1 < 2 ^ 32
        → walk_events is_utf8 fields root strict (record walk { depth = up (walk.depth + 1) }) rest
          ≡ walk_events is_utf8 fields root strict walk rest
    closed walk rest fits =
        ap (λ (d : ℕ). walk_events is_utf8 fields root strict (record walk { depth = d }) rest)
          (up_down walk.depth fits)

    -- Below the children of the root nothing is looked at.
    skipped :
        (nodes : Nodes) (walk : Walk) (rest : Stream)
        → 2 ≤ walk.depth
        → walk.depth + elements nodes < 2 ^ 32
        → walk_events is_utf8 fields root strict walk (events_of nodes rest)
          ≡ walk_events is_utf8 fields root strict walk rest
    unfolding walk_events
    skipped no_nodes walk rest deep fits = refl
    skipped (element tag attrs inside more) walk rest deep fits =
        let inner = record walk { depth = walk.depth + 1 } in
        rw (opened_deep (ascii ">") (local_name is_utf8 tag) walk deep (omega arith)) (
          skipped inside inner (ok (end_tag tag) ∷ events_of more rest) (omega arith) (omega arith)
          ∙ closed walk (events_of more rest) (omega arith)
          ∙ skipped more walk rest deep (omega arith))
    skipped (empty_element tag attrs more) walk rest deep fits =
        rw (opened_deep (ascii "/>") (local_name is_utf8 tag) walk deep (omega arith)) (
          closed walk (events_of more rest) (omega arith)
          ∙ skipped more walk rest deep (omega arith))
    skipped (characters t more) walk rest deep fits = skipped more walk rest deep fits
    skipped (other_node more) walk rest deep fits = skipped more walk rest deep fits

    -- An element directly inside the root.
    abbrev pub inside : List Text → Walk
    inside names = record { found_root = true; found_fields = names; depth = 1 }

    child_admitted :
        (close tag : Text) (names : List Text)
        → (strict && not (declares fields tag)) ≡ false
        → opened fields root strict close tag (inside names)
          ≡ ok (record { found_root = true; found_fields = tag ∷ names; depth = 2 })
    unfolding opened
    child_admitted close tag names good = ground arith

    child_refused :
        (close tag : Text) (names : List Text) (walk : Walk)
        → (strict && not (declares fields tag)) ≡ true
        → opened fields root strict close tag (inside names) ≢ ok walk
    unfolding opened
    child_refused close tag names walk bad = ground arith

    -- The names, the latest first.
    abbrev pub pushed : List Text → List Text → List Text
    pushed [] names = names
    pushed (n ∷ ns) names = pushed ns (n ∷ names)

    abbrev pub IsAdmitted : List Text → Type 0
    IsAdmitted names = All (λ (n : Text). (strict && not (declares fields n)) ≡ false) names

    abbrev pub run : List Text → Stream → PipelineResult Walk
    run names events = walk_events is_utf8 fields root strict (inside names) events

    element_step :
        (tag : Text) (attrs : Attributes) (content more : Nodes) (names : List Text) (rest : Stream)
        → 2 + elements content < 2 ^ 32
        → (strict && not (declares fields (local_name is_utf8 tag))) ≡ false
        → run names (events_of (element tag attrs content more) rest)
          ≡ run (local_name is_utf8 tag ∷ names) (events_of more rest)
    unfolding walk_events
    element_step tag attrs content more names rest fits good =
        let n = local_name is_utf8 tag in
        let deep : Walk = record { found_root = true; found_fields = n ∷ names; depth = 2 } in
        rw (child_admitted (ascii ">") n names good) (
          skipped content deep (ok (end_tag tag) ∷ events_of more rest) (omega arith) (omega arith))

    empty_step :
        (tag : Text) (attrs : Attributes) (more : Nodes) (names : List Text) (rest : Stream)
        → (strict && not (declares fields (local_name is_utf8 tag))) ≡ false
        → run names (events_of (empty_element tag attrs more) rest)
          ≡ run (local_name is_utf8 tag ∷ names) (events_of more rest)
    unfolding walk_events
    empty_step tag attrs more names rest good =
        rw (child_admitted (ascii "/>") (local_name is_utf8 tag) names good) refl

    pub children_run :
        (nodes : Nodes) (names : List Text) (rest : Stream)
        → 2 + elements nodes < 2 ^ 32
        → IsAdmitted (child_names nodes)
        → run names (events_of nodes rest) ≡ run (pushed (child_names nodes) names) rest
    unfolding walk_events
    children_run no_nodes names rest fits good = refl
    children_run (element tag attrs content more) names rest fits good =
        element_step tag attrs content more names rest (omega arith) good.0
        ∙ children_run more (local_name is_utf8 tag ∷ names) rest (omega arith) good.1
    children_run (empty_element tag attrs more) names rest fits good =
        empty_step tag attrs more names rest good.0
        ∙ children_run more (local_name is_utf8 tag ∷ names) rest (omega arith) good.1
    children_run (characters t more) names rest fits good = children_run more names rest fits good
    children_run (other_node more) names rest fits good = children_run more names rest fits good

    pub children_admitted :
        (nodes : Nodes) (names : List Text) (rest : Stream) (walk : Walk)
        → 2 + elements nodes < 2 ^ 32
        → run names (events_of nodes rest) ≡ ok walk
        → IsAdmitted (child_names nodes)
    unfolding walk_events
    children_admitted no_nodes names rest walk fits h = tt
    children_admitted (element tag attrs content more) names rest walk fits h =
        let n = local_name is_utf8 tag in
        elim (Bool-cases (strict && not (declares fields n))) [
          | inl bad ↦
              let (w, e, _) =
                >>=-eq-ok (opened fields root strict (ascii ">") n (inside names)) _ h in
              absurd (child_refused (ascii ">") n names w bad e)
          | inr good ↦ (
            good,
            children_admitted more (n ∷ names) rest walk (omega arith)
                (sym (element_step tag attrs content more names rest (omega arith) good) ∙ h),
          )
        ]
    children_admitted (empty_element tag attrs more) names rest walk fits h =
        let n = local_name is_utf8 tag in
        elim (Bool-cases (strict && not (declares fields n))) [
          | inl bad ↦
              let (w, e, _) =
                >>=-eq-ok (opened fields root strict (ascii "/>") n (inside names)) _ h in
              absurd (child_refused (ascii "/>") n names w bad e)
          | inr good ↦ (
            good,
            children_admitted more (n ∷ names) rest walk (omega arith)
                (sym (empty_step tag attrs more names rest good) ∙ h),
          )
        ]
    children_admitted (characters t more) names rest walk fits h =
        children_admitted more names rest walk fits h
    children_admitted (other_node more) names rest walk fits h =
        children_admitted more names rest walk fits h

    pub contains-pushed :
        (ns names : List Text) (n : Text)
        → contains (pushed ns names) n ≡ contains names n || contains ns n
    unfolding contains
    contains-pushed [] names n = ground arith
    contains-pushed (m ∷ ns) names n = ground (arith, contains-pushed ns (m ∷ names) n)
