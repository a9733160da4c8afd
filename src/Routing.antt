-- ===== src/Routing.antt =====
-- routing.rs: the routing table and the peer constraints. `str::to_lowercase` is Unicode's, and is
-- the parameter `lower`.
pub mod History
use rust_pipeline.Base.{
  Text, contains, Bool, true, false, Option, none, some, List, [], ◌∷◌, ◌++◌, if◌then◌else◌,
}
use rust_pipeline.Base.HashMap
use rust_pipeline.Base.HashMap.{HashMap}
use rust_pipeline.Base.Result.{ok, err}
use rust_pipeline.Error.{PipelineResult, no_route, peer_violation}
use rust_pipeline.Thread.{dot}

-- `into_iter().collect()` into a `HashSet`: each text once. The set gives no order of iteration; the
-- model's list has the last occurrences' order.
unfoldable pub collect_set : List Text → List Text
unfolding contains
collect_set [] = []
collect_set (t ∷ ts) = let rest = collect_set ts in if contains rest t then rest else t ∷ rest

pub record ListenerEntry : Type 0 where
  pub name : Text
  pub is_agent : Bool
  pub peers : List Text
  pub route_key : Text
  pub description : Text

pub record RoutingTable : Type 0 where
  pub routes : HashMap (List ListenerEntry)
  pub by_name : HashMap ListenerEntry

unfoldable pub new : RoutingTable
new = record { routes = HashMap.empty; by_name = HashMap.empty }

abbrev pub or_default : Option (List ListenerEntry) → List ListenerEntry
or_default none = []
or_default (some l) = l

-- The arguments of `register`.
pub record Registration : Type 0 where
  pub name : Text
  pub payload_tag : Text
  pub is_agent : Bool
  pub peers : List Text
  pub description : Text

module _ (lower : Text → Text) where
  abbrev pub route_key_of : Text → Text → Text
  route_key_of name payload_tag = dot (lower name) (lower payload_tag)

  abbrev pub entry_of : Registration → ListenerEntry
  entry_of r = record {
    name = r.name;
    is_agent = r.is_agent;
    peers = collect_set r.peers;
    route_key = route_key_of r.name r.payload_tag;
    description = r.description;
  }

  -- `entry(key).or_default().push(entry)`, and the entry by name.
  unfoldable pub register : RoutingTable → Registration → RoutingTable
  register table r =
      let key = route_key_of r.name r.payload_tag in
      let before = or_default (HashMap.get table.routes key) in
      record {
        routes = HashMap.insert table.routes key (before ++ (entry_of r ∷ []));
        by_name = HashMap.insert table.by_name r.name (entry_of r);
      }

  -- The key that `resolve` looks up.
  abbrev pub wanted_key : Option Text → Text → Text
  wanted_key none payload_tag = lower payload_tag
  wanted_key (some to) payload_tag = route_key_of to payload_tag

  unfoldable pub resolve : RoutingTable → Option Text → Text → PipelineResult (List ListenerEntry)
  resolve table to_id payload_tag =
      let key = wanted_key to_id payload_tag in
      elim (HashMap.get table.routes key) [
        | none ↦ err (no_route key)
        | some [] ↦ err (no_route key)
        | some (e ∷ es) ↦ ok (e ∷ es)
      ]

unfoldable pub get_by_name : RoutingTable → Text → Option ListenerEntry
get_by_name table name = HashMap.get table.by_name name

unfoldable pub enforce_peers : RoutingTable → Text → Text → PipelineResult (Unit {0})
enforce_peers table from_agent to_agent = elim (HashMap.get table.by_name from_agent) [
  | none ↦ ok tt
  | some sender ↦
      if sender.is_agent
      then (if contains sender.peers to_agent
          then ok tt
          else err (peer_violation from_agent to_agent sender.peers))
      else ok tt
]
