-- ===== src/Registry.antt =====
-- registry.rs: handlers, routes, schemas and metadata by listener.
pub mod Complete
use rust_pipeline.Base.{
  Text, text_eq, text_eq_iff, text_eq_refl, Bool, true, false, Option, none, some, List, [], ◌∷◌,
  ◌++◌, ◌≡◌, ◌≢◌, refl, arith, if◌then◌else◌, All, All-append, Option-cases, ◌⊎◌, inl, inr,
}
use rust_pipeline.Base.HashMap
use rust_pipeline.Base.HashMap.{HashMap, get-insert, get-empty}
use rust_pipeline.Handler.{Handler}
use rust_pipeline.Routing
use rust_pipeline.Routing.{
  RoutingTable, Registration, ListenerEntry, or_default, entry_of, route_key_of,
}
use rust_pipeline.Validation
use rust_pipeline.Validation.{PayloadSchema, SchemaRegistry}

pub record ListenerMeta : Type 0 where
  pub name : Text
  pub payload_tag : Text
  pub is_agent : Bool
  pub peers : List Text
  pub description : Text

pub record ListenerRegistry : Type 0 where
  pub handlers : HashMap Handler
  pub routing : RoutingTable
  pub schemas : SchemaRegistry
  pub listeners : HashMap ListenerMeta

unfoldable pub new : ListenerRegistry
unfolding Routing.new
new = record {
  handlers = HashMap.empty;
  routing = Routing.new;
  schemas = Validation.new;
  listeners = HashMap.empty;
}

abbrev with_schema : SchemaRegistry → Option PayloadSchema → SchemaRegistry
with_schema reg none = reg
with_schema reg (some s) = Validation.register reg s

unfoldable pub register :
    (Text → Text)
    → ListenerRegistry
    → Registration
    → Handler
    → Option PayloadSchema
    → ListenerRegistry
unfolding Routing.register Validation.register
register lower reg r handler schema = record {
  handlers = HashMap.insert reg.handlers r.name handler;
  routing = Routing.register lower reg.routing r;
  schemas = with_schema reg.schemas schema;
  listeners = HashMap.insert reg.listeners r.name (record {
    name = r.name;
    payload_tag = r.payload_tag;
    is_agent = r.is_agent;
    peers = r.peers;
    description = r.description;
  });
}

unfoldable pub get_handler : ListenerRegistry → Text → Option Handler
get_handler reg name = HashMap.get reg.handlers name

unfoldable pub has_listener : ListenerRegistry → Text → Bool
has_listener reg name = HashMap.contains_key reg.listeners name

unfoldable pub listener_info : ListenerRegistry → Text → Option (Text × Bool × List Text)
listener_info reg name = elim (HashMap.get reg.listeners name) [
  | none ↦ none
  | some m ↦ some (m.payload_tag, m.is_agent, m.peers)
]
