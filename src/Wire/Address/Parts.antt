-- ===== src/Wire/Address/Parts.antt =====
-- The parts of an address: namespace, organism, instance key, buffer, node.
use rust_pipeline.Base.{
  ℕ, zero, suc, ◌+◌, Text, Option, none, some, List, [], ◌∷◌, ltb, ◌≡◌, ◌≢◌, refl, arith,
  if◌then◌else◌, get_elem?, take, last?, inl, inr, Option-cases, get_elem?-take,
  get_elem?-take_self, take-take,
}
use rust_pipeline.Base.Split.{split}
use rust_pipeline.Wire.Address.{Segment, Address}

-- `iter().position(|s| s.key.is_some())`.
abbrev keyed_position : List Segment → Option ℕ
keyed_position [] = none
keyed_position (s ∷ r) =
    let rest = keyed_position r in
    elim s.key [ some k ↦ some 0 | none ↦ elim rest [ none ↦ none | some i ↦ some (suc i) ] ]

abbrev pub unwrap_or {ℓ} : {A : Type ℓ} → Option A → A → A
unwrap_or none d = d
unwrap_or (some a) d = a

abbrev pub and_then {ℓ κ} : {A : Type ℓ} {B : Type κ} → Option A → (A → Option B) → Option B
and_then none f = none
and_then (some a) f = f a

unfoldable pub target : Address → Option Text
target a = and_then (last? a.segments) λ s. some s.name

organism_index : Address → ℕ
organism_index a = unwrap_or (keyed_position a.segments) 0

unfoldable pub organism : Address → Option Text
unfolding organism_index
organism a = and_then (get_elem? a.segments (organism_index a)) λ s. some s.name

-- `self.segments[0]` does not panic here: an index above 0 was found in the list.
unfoldable pub namespace : Address → Option Text
unfolding organism_index
namespace a =
    if ltb 0 (organism_index a) then and_then (get_elem? a.segments 0) (λ s. some s.name) else none

-- The leading segment: the node, in the addressing of federation.
unfoldable pub node : Address → Option Text
node a = and_then (get_elem? a.segments 0) λ s. some s.name

unfoldable pub instance_key : Address → Option Text
unfolding organism_index
instance_key a = and_then (get_elem? a.segments (organism_index a)) λ s. s.key

unfoldable pub buffer : Address → Option Segment
unfolding organism_index
buffer a = get_elem? a.segments (organism_index a + 1)

-- `&self.segments[..=i]`: a panic, `none`, on an address with no segment.
unfoldable pub instance_address : Address → Option Address
unfolding organism_index
instance_address a =
    and_then (get_elem? a.segments (organism_index a))
      λ s. some (record { segments = take (organism_index a + 1) a.segments })

-- `filter(|s| !s.is_empty())`.
abbrev non_empty : List Text → List Text
non_empty [] = []
non_empty ([] ∷ r) = non_empty r
non_empty ((c ∷ s) ∷ r) = (c ∷ s) ∷ non_empty r

-- `Segment::cache_keys`.
unfoldable pub segment_cache_keys : Segment → List Text
unfolding split
segment_cache_keys s = elim s.key [ none ↦ [] | some k ↦ non_empty (split b'+' k) ]

-- `Address::cache_keys`.
unfoldable pub cache_keys : Address → List Text
unfolding organism_index segment_cache_keys
cache_keys a =
    unwrap_or
      (and_then (get_elem? a.segments (organism_index a)) (λ s. some (segment_cache_keys s))) []

keyed_position-some :
    (l : List Segment) (i : ℕ)
    → keyed_position l ≡ some i
    → (keyed_position (take (suc i) l) ≡ some i) × ((s : Segment) × (get_elem? l i ≡ some s))
keyed_position-some [] i h = cc
keyed_position-some (s ∷ r) zero h = (ground arith, (s, refl))
keyed_position-some (s ∷ r) (suc i) h =
    let (p, (t, q)) = keyed_position-some r i (ground arith) in (ground (arith, p), (t, q))

keyed_position-none :
    (n : ℕ) (l : List Segment) → keyed_position l ≡ none → keyed_position (take n l) ≡ none
keyed_position-none zero l h = refl
keyed_position-none (suc n) [] h = refl
keyed_position-none (suc n) (s ∷ r) h = ground (arith, keyed_position-none n r)

head_of : (l : List Segment) → l ≢ [] → (s : Segment) × (get_elem? l 0 ≡ some s)
head_of [] ne = absurd (ne refl)
head_of (s ∷ r) ne = (s, refl)

-- The organism is a segment of the address, and cutting behind it keeps its place.
organism_index_lem :
    (l : List Segment)
    → l ≢ []
    → let i = unwrap_or (keyed_position l) 0 in
      (unwrap_or (keyed_position (take (i + 1) l)) 0 ≡ i)
      × ((s : Segment) × (get_elem? l i ≡ some s))
organism_index_lem l ne = elim (Option-cases (keyed_position l)) [
  | inl e ↦ rw (e, keyed_position-none 1 l e) (refl, head_of l ne)
  | inr (i, e) ↦
      let (kept, found) = keyed_position-some l i e in
      let next : i + 1 ≡ suc i = omega arith in rw (e, next, kept) (refl, found)
]

-- The addresses name the same instance: what routing reads of them agrees.
pub record SameInstance (a b : Address) : Type 0 where
  pub organism : organism b ≡ organism a
  pub namespace : namespace b ≡ namespace a
  pub node : node b ≡ node a
  pub instance_key : instance_key b ≡ instance_key a
  pub cache_keys : cache_keys b ≡ cache_keys a

SameInstance-take :
    (a : Address)
    → a.segments ≢ []
    → let b : Address = record { segments = take (organism_index a + 1) a.segments } in
      SameInstance a b × (buffer b ≡ none) × (instance_address b ≡ some b)
unfolding organism namespace node instance_key cache_keys buffer instance_address organism_index
SameInstance-take a ne =
    let l = a.segments in
    let (same, (s, found)) = organism_index_lem l ne in
    let i = unwrap_or (keyed_position l) 0 in
    let at_index = get_elem?-take (i + 1) i l (omega arith) in
    let at_front = get_elem?-take (i + 1) 0 l (omega arith) in
    (
      record {
        organism = rw (same, at_index) refl;
        namespace = rw (same, at_front) refl;
        node = rw at_front refl;
        instance_key = rw (same, at_index) refl;
        cache_keys = rw (same, at_index) refl;
      },
      rw (same, get_elem?-take_self (i + 1) l) refl,
      rw (same, at_index, found, take-take (i + 1) l) refl,
    )

-- The instance address of an address with a segment exists. It names the same instance, has no
-- buffer, and is its own instance address.
pub instance_address-SameInstance :
    (a : Address)
    → a.segments ≢ []
    → (b : Address) × (instance_address a ≡ some b)
      × SameInstance a b
      × (buffer b ≡ none)
      × (instance_address b ≡ some b)
unfolding instance_address
instance_address-SameInstance a ne =
    let (same, (s, found)) = organism_index_lem a.segments ne in
    let (p, q, r) = SameInstance-take a ne in
    (record { segments = take (organism_index a + 1) a.segments }, rw found refl, p, q, r)
