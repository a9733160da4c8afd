-- ===== src/Tests/Threads.antt =====
-- The results on thread.rs at a small registry: a root, and a user who talks to bob.
use rust_pipeline.Base.{Text, ascii, some, ◌≡◌, ◌↔◌, refl, arith}
use rust_pipeline.Base.HashMap
use rust_pipeline.Base.Split.{split}
use rust_pipeline.Thread.{
  ThreadRegistry, new, initialize_root, get_or_create, lookup, extend_chain, prune_for_response,
}
use rust_pipeline.Thread.Consistency.{IsConsistent, RootIsUnused}
use rust_pipeline.Thread.Calls.{
  Reached, start, call, step, initializes, creates, Reached-IsConsistent,
  initialize_root_needs_unused,
}
use rust_pipeline.Thread.Pruning.{prune-extend_chain, lookup-get_or_create}

abbrev pub t1 : Text
t1 = ascii "uuid-1"

abbrev pub t2 : Text
t2 = ascii "uuid-2"

abbrev pub t3 : Text
t3 = ascii "uuid-3"

abbrev pub user_bob : Text
user_bob = ascii "system.org.user.bob"

-- The root is `uuid-1`; the chain of `uuid-2` is `user_bob`.
unfoldable pub threads : ThreadRegistry
unfolding step
threads = step (step new t1 (initializes (ascii "org"))) t2 (creates user_bob)

threads-Reached : Reached threads
unfolding threads step initialize_root HashMap.get HashMap.insert new
threads-Reached =
    call (creates user_bob) t2 (call (initializes (ascii "org")) t1 start refl refl) refl tt

Reached-IsConsistent_example : IsConsistent threads
Reached-IsConsistent_example = Reached-IsConsistent threads-Reached

pub threads_good : IsConsistent threads
threads_good = Reached-IsConsistent threads-Reached

pub bob_known : lookup threads t2 ≡ some user_bob
unfolding threads step lookup HashMap.insert HashMap.get new get_or_create initialize_root
bob_known = refl

prune-extend_chain_example :
    prune_for_response
      (extend_chain threads t2 (ascii "alice") t3).1
      (extend_chain threads t2 (ascii "alice") t3).0
      t1
    ≡ (
      some (record { target = ascii "bob"; thread_id = t2 }),
      (extend_chain threads t2 (ascii "alice") t3).1,
    )
unfolding threads step lookup HashMap.insert HashMap.get new get_or_create initialize_root split
prune-extend_chain_example =
    prune-extend_chain threads t2 user_bob (ascii "alice") t3 t1 (ascii "bob") threads_good refl
      bob_known (λ e. cc) (omega arith) refl

-- A chain of one name.
abbrev alone : ThreadRegistry
alone = (get_or_create new (ascii "bob") t1).1

lookup-get_or_create_example :
    lookup (get_or_create threads (ascii "a.b") t3).1 (get_or_create threads (ascii "a.b") t3).0
    ≡ some (ascii "a.b")
lookup-get_or_create_example = lookup-get_or_create threads (ascii "a.b") t3 threads_good

-- A registry in which the root's chain is in use, and has no root.
abbrev early : ThreadRegistry
early = step new t1 (creates (ascii "system.org"))

initialize_root_needs_unused_example :
    IsConsistent (initialize_root early (ascii "org") t2).1 ↔ RootIsUnused early (ascii "org")
unfolding step lookup HashMap.insert HashMap.get new get_or_create
initialize_root_needs_unused_example =
    initialize_root_needs_unused early (ascii "org") t2
      (Reached-IsConsistent (call (creates (ascii "system.org")) t1 start refl tt)) refl refl
