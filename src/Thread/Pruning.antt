-- ===== src/Thread/Pruning.antt =====
-- `extend_chain` and `prune_for_response` are call and return: a reply goes to the caller.
use rust_pipeline.Base.{
  ℕ, ◌-◌, Text, text_eq_iff, none, some, List, [], ◌∷◌, ◌++◌, ◌≡◌, ◌≢◌, refl, ap, ◌∙◌, inl, inr,
  arith, length, last?, leb, false, Option-cases, length-append, take-length-append,
}
use rust_pipeline.Base.HashMap
use rust_pipeline.Base.HashMap.{HashMap, get-insert, get-insert_self}
use rust_pipeline.Base.Split.{
  split, join, Free, split_parts, split-Free, join-split, split-append_last,
}
use rust_pipeline.Thread.{
  ThreadRegistry, add, get_or_create, extend_chain, extended, lookup, cleanup, prune_parts,
  prune_for_response, but_last, dot,
}
use rust_pipeline.Thread.Consistency.{IsConsistent, IsFresh}

but_last-snoc : (l : List Text) (w : Text) → but_last (l ++ (w ∷ [])) ≡ l
but_last-snoc l w =
    let e : length (l ++ (w ∷ [])) - 1 ≡ length l = omega (arith, length-append l (w ∷ [])) in
    rw e (take-length-append l (w ∷ []))

-- The thread that `get_or_create` returns has the chain that was asked for.
pub lookup-get_or_create :
    (reg : ThreadRegistry) (chain fresh : Text)
    → IsConsistent reg
    → lookup (get_or_create reg chain fresh).1 (get_or_create reg chain fresh).0 ≡ some chain
unfolding lookup get_or_create add
lookup-get_or_create reg chain fresh h = elim (Option-cases (HashMap.get reg.chain_to_uuid chain)) [
  | inl e ↦ rw (e, get_or_create) (get-insert_self reg.uuid_to_chain fresh chain)
  | inr (u, e) ↦ rw (e, get_or_create) (h.forward chain u e)
]

-- A chain that has a thread keeps it: asking again changes nothing.
pub get_or_create_known :
    (reg : ThreadRegistry) (chain uuid fresh : Text)
    → HashMap.get reg.chain_to_uuid chain ≡ some uuid
    → get_or_create reg chain fresh ≡ (uuid, reg)
unfolding get_or_create
get_or_create_known reg chain uuid fresh e = rw (e, get_or_create) refl

-- Other threads keep their chains, and other chains their threads.
get_or_create_keeps :
    (reg : ThreadRegistry) (chain fresh t c : Text)
    → IsConsistent reg
    → IsFresh reg fresh
    → lookup reg t ≡ some c
    → HashMap.get (get_or_create reg chain fresh).1.chain_to_uuid c ≡ some t
unfolding lookup get_or_create add
get_or_create_keeps reg chain fresh t c h f e =
    elim (Option-cases (HashMap.get reg.chain_to_uuid chain)) [
      | inl miss ↦
          rw (miss, get_or_create)
            (simp get-insert (ground (arith, text_eq_iff chain c, h.backward c t e)))
      | inr (u, hit) ↦ rw (hit, get_or_create) (h.backward c t e)
    ]

prune_parts_lem :
    (reg : ThreadRegistry) (pruned : List Text) (fresh target : Text)
    → last? pruned ≡ some target
    → let made = get_or_create reg (join b'.' pruned) fresh in
      prune_parts reg pruned fresh ≡ (some (record { target = target; thread_id = made.0 }), made.1)
unfolding prune_parts
prune_parts_lem reg pruned fresh target e = rw (e, prune_parts) refl

prune_long :
    (reg : ThreadRegistry) (t chain fresh : Text)
    → lookup reg t ≡ some chain
    → leb (length (split b'.' chain)) 1 ≡ false
    → prune_for_response reg t fresh ≡ prune_parts reg (but_last (split b'.' chain)) fresh
unfolding prune_for_response lookup
prune_long reg t chain fresh e long = rw (e, prune_for_response, long) refl

-- A reply on a known thread of `prefix.responder`, where no dot stands in the responder, is routed
-- to the last name of the prefix, on the prefix's own thread, which is entered if it is new.
pub prune_for_response_lem :
    (reg : ThreadRegistry) (thread_id prefix responder fresh target : Text)
    → lookup reg thread_id ≡ some (dot prefix responder)
    → Free b'.' responder
    → last? (split b'.' prefix) ≡ some target
    → let made = get_or_create reg prefix fresh in
      prune_for_response reg thread_id fresh
      ≡ (some (record { target = target; thread_id = made.0 }), made.1)
prune_for_response_lem reg t prefix responder fresh target e free last =
    let (w, ws, parts) = split_parts b'.' prefix in
    let cut = split-append_last b'.' prefix responder free in
    let long : leb (length (split b'.' (dot prefix responder))) 1 ≡ false =
      rw (cut, parts) (ground (arith, length-append ws (responder ∷ []))) in
    prune_long reg t (dot prefix responder) fresh e long
    ∙ ap (λ (l : List Text). prune_parts reg (but_last l) fresh) cut
    ∙ ap (λ (l : List Text). prune_parts reg l fresh) (but_last-snoc (split b'.' prefix) responder)
    ∙ prune_parts_lem reg (split b'.' prefix) fresh target last
    ∙ ap
        (λ (p : Text).
          let made = get_or_create reg p fresh in
          (some (record { target = target; thread_id = made.0 }), made.1))
        (join-split b'.' prefix)

extend_chain_known :
    (reg : ThreadRegistry) (t : Text) (c : ℕ) (cs hop fresh : Text)
    → lookup reg t ≡ some (c ∷ cs)
    → extend_chain reg t hop fresh ≡ get_or_create reg (dot (c ∷ cs) hop) fresh
unfolding extend_chain extended lookup
extend_chain_known reg t c cs hop fresh e = rw (e, extended) refl

-- A call and its reply: in a consistent registry, extend a known thread with a non-empty chain by
-- a hop without a dot, with a uuid that is new, then reply on the thread that this gives. The
-- reply goes to the last name of the caller's chain, on the caller's own thread, and draws no
-- uuid.
pub prune-extend_chain :
    (reg : ThreadRegistry) (t chain hop fresh fresh' target : Text)
    → IsConsistent reg
    → IsFresh reg fresh
    → lookup reg t ≡ some chain
    → chain ≢ []
    → Free b'.' hop
    → last? (split b'.' chain) ≡ some target
    → let sent = extend_chain reg t hop fresh in
      prune_for_response sent.1 sent.0 fresh'
      ≡ (some (record { target = target; thread_id = t }), sent.1)
prune-extend_chain reg t [] hop fresh fresh' target h f e ne free last = absurd (ne refl)
prune-extend_chain reg t (c ∷ cs) hop fresh fresh' target h f e ne free last =
    let chain : Text = c ∷ cs in
    let longer = dot chain hop in
    let made = get_or_create reg longer fresh in
    let kept = get_or_create_keeps reg longer fresh t chain h f e in
    rw (extend_chain_known reg t c cs hop fresh e) (
      prune_for_response_lem made.1 made.0 chain hop fresh' target
        (lookup-get_or_create reg longer fresh h) free last
      ∙ ap
          (λ (back : Text × ThreadRegistry).
            (some (record { target = target; thread_id = back.0 }), back.1))
          (get_or_create_known made.1 chain t fresh' kept))

-- A reply on a known thread whose chain has no dot has no target, and removes the thread.
pub prune_exhausted :
    (reg : ThreadRegistry) (t chain fresh : Text)
    → lookup reg t ≡ some chain
    → Free b'.' chain
    → prune_for_response reg t fresh ≡ (none, cleanup reg t)
unfolding prune_for_response lookup
prune_exhausted reg t chain fresh e free =
    rw (e, prune_for_response, split-Free b'.' chain free) refl
