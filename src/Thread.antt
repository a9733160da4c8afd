-- ===== src/Thread.antt =====
-- thread.rs: the registry of threads, opaque uuids for dot-separated call chains. `Uuid::new_v4` is
-- not modelled: each operation takes the uuid that it would draw, `fresh`, as an argument. An
-- operation returns the registry that it leaves beside its result.
pub mod Consistency
pub mod Calls
pub mod Pruning
use rust_pipeline.Base.{
  ℕ, ◌-◌, ◌+◌, Text, ascii, Option, none, some, List, [], ◌∷◌, ◌++◌, ◌≡◌, refl, length, take, last?,
  leb, if◌then◌else◌,
}
use rust_pipeline.Base.HashMap
use rust_pipeline.Base.HashMap.{HashMap}
use rust_pipeline.Base.Split.{split, join}

pub record ThreadRegistry : Type 0 where
  pub chain_to_uuid : HashMap Text
  pub uuid_to_chain : HashMap Text
  pub root_uuid : Option Text
  pub root_chain : Text

pub record PruneResult : Type 0 where
  pub target : Text
  pub thread_id : Text

unfoldable pub new : ThreadRegistry
new = record {
  chain_to_uuid = HashMap.empty;
  uuid_to_chain = HashMap.empty;
  root_uuid = none;
  root_chain = ascii "system";
}

-- `format!("{a}.{b}")`.
abbrev pub dot : Text → Text → Text
dot a b = a ++ (b'.' ∷ b)

-- The two insertions by which every operation enters a pair.
unfoldable pub add : ThreadRegistry → Text → Text → ThreadRegistry
add reg chain uuid = record reg {
  chain_to_uuid = HashMap.insert reg.chain_to_uuid chain uuid;
  uuid_to_chain = HashMap.insert reg.uuid_to_chain uuid chain;
}

unfoldable pub initialize_root : ThreadRegistry → Text → Text → Text × ThreadRegistry
unfolding add
initialize_root reg organism_name fresh = elim reg.root_uuid [
  | some uuid ↦ (uuid, reg)
  | none ↦
      let root = dot (ascii "system") organism_name in
      (fresh, record (add reg root fresh) { root_uuid = some fresh; root_chain = root })
]

unfoldable pub lookup : ThreadRegistry → Text → Option Text
lookup reg thread_id = HashMap.get reg.uuid_to_chain thread_id

unfoldable pub get_or_create : ThreadRegistry → Text → Text → Text × ThreadRegistry
unfolding add
get_or_create reg chain fresh = elim (HashMap.get reg.chain_to_uuid chain) [
  | some uuid ↦ (uuid, reg)
  | none ↦ (fresh, add reg chain fresh)
]

unfoldable pub start_chain : ThreadRegistry → Text → Text → Text → Text × ThreadRegistry
unfolding get_or_create
start_chain reg initiator target fresh = get_or_create reg (dot initiator target) fresh

-- The chain under which `register_thread` enters a thread from outside.
unfoldable pub external_chain : ThreadRegistry → Text → Text → Text
external_chain reg initiator target = elim reg.root_uuid [
  | some _ ↦ dot (dot reg.root_chain initiator) target
  | none ↦ dot initiator target
]

unfoldable pub register_thread : ThreadRegistry → Text → Text → Text → Text × ThreadRegistry
unfolding add external_chain
register_thread reg thread_id initiator target = elim (HashMap.get reg.uuid_to_chain thread_id) [
  | some _ ↦ (thread_id, reg)
  | none ↦
      let chain = external_chain reg initiator target in
      elim (HashMap.get reg.chain_to_uuid chain) [
        | some existing ↦ (existing, reg)
        | none ↦ (thread_id, add reg chain thread_id)
      ]
]

-- The chain of a thread with one more hop. An unknown thread counts as the empty chain.
unfoldable pub extended : ThreadRegistry → Text → Text → Text
extended reg current_uuid next_hop = elim (HashMap.get reg.uuid_to_chain current_uuid) [
  | none ↦ next_hop
  | some [] ↦ next_hop
  | some (c ∷ cs) ↦ dot (c ∷ cs) next_hop
]

unfoldable pub extend_chain : ThreadRegistry → Text → Text → Text → Text × ThreadRegistry
unfolding get_or_create extended
extend_chain reg current_uuid next_hop fresh =
    get_or_create reg (extended reg current_uuid next_hop) fresh

unfoldable pub cleanup : ThreadRegistry → Text → ThreadRegistry
cleanup reg thread_id = elim (HashMap.get reg.uuid_to_chain thread_id) [
  | none ↦ reg
  | some chain ↦ record reg {
    uuid_to_chain = HashMap.remove reg.uuid_to_chain thread_id;
    chain_to_uuid = HashMap.remove reg.chain_to_uuid chain;
  }
]

-- `&parts[..parts.len() - 1]`.
abbrev pub but_last : List Text → List Text
but_last parts = take (length parts - 1) parts

-- The part of `prune_for_response` behind the length test. `last().unwrap()` would panic on no
-- parts; that case is `none` here, and Thread/Pruning.antt shows that it is not reached.
unfoldable pub prune_parts : ThreadRegistry → List Text → Text → Option PruneResult × ThreadRegistry
unfolding get_or_create
prune_parts reg pruned fresh = elim (last? pruned) [
  | none ↦ (none, reg)
  | some target ↦
      let (uuid, reg') = get_or_create reg (join b'.' pruned) fresh in
      (some (record { target = target; thread_id = uuid }), reg')
]

unfoldable pub prune_for_response :
    ThreadRegistry → Text → Text → Option PruneResult × ThreadRegistry
unfolding cleanup prune_parts
prune_for_response reg thread_id fresh = elim (HashMap.get reg.uuid_to_chain thread_id) [
  | none ↦ (none, reg)
  | some chain ↦
      let parts = split b'.' chain in
      if leb (length parts) 1
      then (none, cleanup reg thread_id)
      else prune_parts reg (but_last parts) fresh
]

unfoldable pub clear : ThreadRegistry → ThreadRegistry
clear reg = record {
  chain_to_uuid = HashMap.empty;
  uuid_to_chain = HashMap.empty;
  root_uuid = none;
  root_chain = ascii "system";
}
