-- ===== src/Thread/Calls.antt =====
-- Histories of the thread registry: any sequence of its operations, from the new registry on.
use rust_pipeline.Base.{
  Text, text_eq_iff, ascii, none, some, ◌≡◌, sym, ◌∙◌, inl, inr, arith, ◌↔◌, Option-cases,
}
use rust_pipeline.Base.HashMap
use rust_pipeline.Base.HashMap.{HashMap, get-insert, get-insert_self}
use rust_pipeline.Thread.{
  ThreadRegistry, new, add, initialize_root, get_or_create, start_chain, register_thread,
  extend_chain, extended, cleanup, prune_for_response, clear, dot,
}
use rust_pipeline.Thread.Consistency.{
  IsConsistent, IsFresh, RootIsUnused, new-IsConsistent, get_or_create-IsConsistent,
  register_thread-IsConsistent, cleanup-IsConsistent, prune_for_response-IsConsistent,
  initialize_root-IsConsistent,
}

pub data Call : Type 0 where
  initializes creates prunes cleans : Text → Call
  starts extends : Text → Text → Call
  registers : Text → Text → Text → Call
  clears : Call

-- The registry after a call that draws the uuid `fresh` if it draws one.
unfoldable pub step : ThreadRegistry → Text → Call → ThreadRegistry
step reg fresh (initializes name) = (initialize_root reg name fresh).1
step reg fresh (creates chain) = (get_or_create reg chain fresh).1
step reg fresh (prunes t) = (prune_for_response reg t fresh).1
step reg fresh (cleans t) = cleanup reg t
step reg fresh (starts i t) = (start_chain reg i t fresh).1
step reg fresh (extends t hop) = (extend_chain reg t hop fresh).1
step reg fresh (registers t i g) = (register_thread reg t i g).1
step reg fresh clears = clear reg

-- `initialize_root` is called before its chain is in use; the rest may be called at any time.
abbrev pub IsAllowed : ThreadRegistry → Call → Type 0
IsAllowed reg (initializes name) = RootIsUnused reg name
IsAllowed reg _ = Unit

pub data Reached : ThreadRegistry → Type 0 where
  start : Reached new
  call :
      {reg : ThreadRegistry} (c : Call) (fresh : Text)
      → Reached reg
      → IsFresh reg fresh
      → IsAllowed reg c
      → Reached (step reg fresh c)

step-IsConsistent :
    (reg : ThreadRegistry) (fresh : Text) (c : Call)
    → IsConsistent reg
    → IsFresh reg fresh
    → IsAllowed reg c
    → IsConsistent (step reg fresh c)
unfolding step start_chain extend_chain clear new
step-IsConsistent reg fresh (initializes name) h f a =
    initialize_root-IsConsistent reg name fresh h a f
step-IsConsistent reg fresh (creates chain) h f a = get_or_create-IsConsistent reg chain fresh h f
step-IsConsistent reg fresh (prunes t) h f a = prune_for_response-IsConsistent reg t fresh h f
step-IsConsistent reg fresh (cleans t) h f a = cleanup-IsConsistent reg t h
step-IsConsistent reg fresh (starts i t) h f a = get_or_create-IsConsistent reg (dot i t) fresh h f
step-IsConsistent reg fresh (extends t hop) h f a =
    get_or_create-IsConsistent reg (extended reg t hop) fresh h f
step-IsConsistent reg fresh (registers t i g) h f a = register_thread-IsConsistent reg t i g h
step-IsConsistent reg fresh clears h f a = record {
  forward = new-IsConsistent.forward;
  backward = new-IsConsistent.backward;
}

-- Whatever operations have been called, as long as each drawn uuid is new and the root is
-- initialized before its chain is in use: the two maps are inverse to one another.
pub Reached-IsConsistent : {reg : ThreadRegistry} → Reached reg → IsConsistent reg
Reached-IsConsistent start = new-IsConsistent
Reached-IsConsistent (call {reg} c fresh r f a) =
    step-IsConsistent reg fresh c (Reached-IsConsistent r) f a

-- In a consistent registry with no root yet, and with a uuid that is new, `initialize_root` keeps
-- the maps inverse to one another exactly if the root's chain is not in use.
pub initialize_root_needs_unused :
    (reg : ThreadRegistry) (name fresh : Text)
    → IsConsistent reg
    → IsFresh reg fresh
    → reg.root_uuid ≡ none
    → IsConsistent (initialize_root reg name fresh).1 ↔ RootIsUnused reg name
unfolding initialize_root add
initialize_root_needs_unused reg name fresh h f no_root =
    (needs, λ unused. initialize_root-IsConsistent reg name fresh h unused f)
  where
    root : Text
    root = dot (ascii "system") name

    needs : IsConsistent (initialize_root reg name fresh).1 → RootIsUnused reg name
    needs after = elim (Option-cases (HashMap.get reg.chain_to_uuid root)) [
      | inl e ↦ e
      | inr (u, e) ↦
          let named = h.forward root u e in
          let left : HashMap.get (HashMap.insert reg.uuid_to_chain fresh root) u ≡ some root =
            simp get-insert (ground (arith, text_eq_iff fresh u)) in
          let after' : IsConsistent
              (record (add reg root fresh) { root_uuid = some fresh; root_chain = root }) =
            rw (no_root, initialize_root) at after in
          let same =
            sym (get-insert_self reg.chain_to_uuid root fresh) ∙ after'.backward root u left in
          absurd (cc (same, named))
    ]
