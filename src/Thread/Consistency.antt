-- ===== src/Thread/Consistency.antt =====
-- The two maps of the thread registry are inverse to one another.
use rust_pipeline.Base.{
  Text, text_eq_iff, text_eq_refl, none, some, ◌≡◌, inl, inr, arith, Option-cases, Bool-cases, List,
  length, last?, leb, ascii,
}
use rust_pipeline.Base.HashMap
use rust_pipeline.Base.HashMap.{HashMap, map_laws, get-empty, get-insert, get-remove}
use rust_pipeline.Base.Split.{split, join}
use rust_pipeline.Thread.{
  ThreadRegistry, new, add, initialize_root, get_or_create, register_thread, external_chain,
  cleanup, prune_parts, prune_for_response, dot, but_last,
}

pub record IsConsistent (reg : ThreadRegistry) : Type 0 where
  pub forward :
      (c u : Text)
      → HashMap.get reg.chain_to_uuid c ≡ some u
      → HashMap.get reg.uuid_to_chain u ≡ some c
  pub backward :
      (c u : Text)
      → HashMap.get reg.uuid_to_chain u ≡ some c
      → HashMap.get reg.chain_to_uuid c ≡ some u

-- A uuid that names no thread.
abbrev pub IsFresh : ThreadRegistry → Text → Type 0
IsFresh reg u = HashMap.get reg.uuid_to_chain u ≡ none

pub new-IsConsistent : IsConsistent new
unfolding new
new-IsConsistent = record {
  forward = λ c u h. cc (get-empty {V = Text} c);
  backward = λ c u h. cc (get-empty {V = Text} u);
}

pub add-IsConsistent :
    (reg : ThreadRegistry) (chain uuid : Text)
    → IsConsistent reg
    → HashMap.get reg.chain_to_uuid chain ≡ none
    → IsFresh reg uuid
    → IsConsistent (add reg chain uuid)
unfolding add
add-IsConsistent reg chain uuid h unused fresh = record {
  forward = λ c u.
      simp get-insert
        (ground (arith, text_eq_iff chain c, text_eq_iff uuid u, text_eq_refl uuid, h.forward c u));
  backward = λ c u.
      simp get-insert (
        ground
          (arith, text_eq_iff chain c, text_eq_iff uuid u, text_eq_refl chain, h.backward c u));
}

pub cleanup-IsConsistent :
    (reg : ThreadRegistry) (u : Text) → IsConsistent reg → IsConsistent (cleanup reg u)
unfolding cleanup
cleanup-IsConsistent reg u h = elim (Option-cases (HashMap.get reg.uuid_to_chain u)) [
  | inl e ↦ rw (e, cleanup) h
  | inr (chain, e) ↦
      rw (e, cleanup)
        (record {
          forward = λ c v. simp get-remove (
              ground
                (arith, text_eq_iff chain c, text_eq_iff u v, h.forward c v, h.backward chain u));
          backward = λ c v. simp get-remove (
              ground
                (arith, text_eq_iff chain c, text_eq_iff u v, h.backward c v, h.backward chain u));
        })
]

pub get_or_create-IsConsistent :
    (reg : ThreadRegistry) (chain fresh : Text)
    → IsConsistent reg
    → IsFresh reg fresh
    → IsConsistent (get_or_create reg chain fresh).1
unfolding get_or_create
get_or_create-IsConsistent reg chain fresh h f =
    elim (Option-cases (HashMap.get reg.chain_to_uuid chain)) [
      | inl e ↦ rw (e, get_or_create) (add-IsConsistent reg chain fresh h e f)
      | inr (u, e) ↦ rw (e, get_or_create) h
    ]

pub register_thread-IsConsistent :
    (reg : ThreadRegistry) (thread_id initiator target : Text)
    → IsConsistent reg
    → IsConsistent (register_thread reg thread_id initiator target).1
unfolding register_thread
register_thread-IsConsistent reg t i g h = elim (Option-cases (HashMap.get reg.uuid_to_chain t)) [
  | inr (c, e) ↦ rw (e, register_thread) h
  | inl e ↦ elim (Option-cases (HashMap.get reg.chain_to_uuid (external_chain reg i g))) [
    | inr (u, e') ↦ rw (e, register_thread, e') h
    | inl e' ↦ rw (e, register_thread, e') (add-IsConsistent reg (external_chain reg i g) t h e' e)
  ]
]

prune_parts-IsConsistent :
    (reg : ThreadRegistry) (pruned : List Text) (fresh : Text)
    → IsConsistent reg
    → IsFresh reg fresh
    → IsConsistent (prune_parts reg pruned fresh).1
unfolding prune_parts
prune_parts-IsConsistent reg pruned fresh h f = elim (Option-cases (last? pruned)) [
  | inl e ↦ rw (e, prune_parts) h
  | inr (w, e) ↦ rw (e, prune_parts) (get_or_create-IsConsistent reg (join b'.' pruned) fresh h f)
]

pub prune_for_response-IsConsistent :
    (reg : ThreadRegistry) (thread_id fresh : Text)
    → IsConsistent reg
    → IsFresh reg fresh
    → IsConsistent (prune_for_response reg thread_id fresh).1
unfolding prune_for_response
prune_for_response-IsConsistent reg t fresh h f =
    elim (Option-cases (HashMap.get reg.uuid_to_chain t)) [
      | inl e ↦ rw (e, prune_for_response) h
      | inr (chain, e) ↦ elim (Bool-cases (leb (length (split b'.' chain)) 1)) [
        | inl short ↦ rw (e, prune_for_response, short) (cleanup-IsConsistent reg t h)
        | inr long ↦
            rw (e, prune_for_response, long)
              (prune_parts-IsConsistent reg (but_last (split b'.' chain)) fresh h f)
      ]
    ]

-- The root chain is not in use yet: `initialize_root` runs "once at startup".
abbrev pub RootIsUnused : ThreadRegistry → Text → Type 0
RootIsUnused reg name = HashMap.get reg.chain_to_uuid (dot (ascii "system") name) ≡ none

pub initialize_root-IsConsistent :
    (reg : ThreadRegistry) (name fresh : Text)
    → IsConsistent reg
    → RootIsUnused reg name
    → IsFresh reg fresh
    → IsConsistent (initialize_root reg name fresh).1
unfolding initialize_root
initialize_root-IsConsistent reg name fresh h unused f = elim (Option-cases reg.root_uuid) [
  | inr (u, e) ↦ rw (e, initialize_root) h
  | inl e ↦
      let added = add-IsConsistent reg (dot (ascii "system") name) fresh h unused f in
      rw (e, initialize_root) (record { forward = added.forward; backward = added.backward })
]
