-- ===== src/Config.antt =====
-- config.rs: the configuration of an organism. serde_yaml is a parameter, the record `Yaml`: it gives
-- the keys that the file has, those of the structs' fields; a key that is not there is `none`. What
-- the attributes of `#[serde(default)]` make of that is written out.
use rust_pipeline.Base.{
  ℕ, Text, ascii, Bool, false, Option, none, some, List, [], ◌∷◌, ◌++◌, ◌≡◌, ◌⊎◌, inl, inr, refl,
  Option-cases,
}
use rust_pipeline.Base.Result.{Result, ok, ok_or, map_err, ◌>>=◌}
use rust_pipeline.Base.Split.{after_last, after_last-eq-none, after_last-eq-some, Free}
use rust_pipeline.Error.{PipelineResult, config}
use rust_pipeline.Wire.Address.Parts.{unwrap_or}

pub record OrganismConfig : Type 0 where
  pub name : Text
  pub port : ℕ

pub record ListenerConfig : Type 0 where
  pub name : Text
  pub payload_class : Text
  pub handler : Text
  pub description : Text
  pub agent : Bool
  pub peers : List Text
  pub broadcast : Bool
  pub prompt : Text

pub record PipelineConfig : Type 0 where
  pub organism : OrganismConfig
  pub max_concurrent_pipelines : ℕ
  pub max_concurrent_handlers : ℕ
  pub max_concurrent_per_agent : ℕ
  pub thread_scheduling : Text
  pub listeners : List ListenerConfig

-- The keys of the file.
pub record OrganismKeys : Type 0 where
  pub name : Option Text
  pub port : Option ℕ

pub record ListenerKeys : Type 0 where
  pub name : Option Text
  pub payload_class : Option Text
  pub handler : Option Text
  pub description : Option Text
  pub agent : Option Bool
  pub peers : Option (List Text)
  pub broadcast : Option Bool
  pub prompt : Option Text

pub record ConfigKeys : Type 0 where
  pub organism : Option OrganismKeys
  pub max_concurrent_pipelines : Option ℕ
  pub max_concurrent_handlers : Option ℕ
  pub max_concurrent_per_agent : Option ℕ
  pub thread_scheduling : Option Text
  pub listeners : Option (List ListenerKeys)

pub record Yaml : Type 0 where
  pub read : Text → Result Text ConfigKeys
  -- the message for a key that has to be there
  pub missing_field : Text → Text

abbrev default_max_concurrent_pipelines : ℕ
default_max_concurrent_pipelines = 50

abbrev default_max_concurrent_handlers : ℕ
default_max_concurrent_handlers = 20

abbrev default_max_concurrent_per_agent : ℕ
default_max_concurrent_per_agent = 5

abbrev default_thread_scheduling : Text
default_thread_scheduling = ascii "breadth-first"

abbrev default_organism_name : Text
default_organism_name = ascii "unnamed"

abbrev default_port : ℕ
default_port = 8765

-- A file with no organism section has `OrganismConfig::default()`, which the derived `Default` gives:
-- the empty name and the port 0, not the two functions above.
unfoldable pub organism_of : Option OrganismKeys → OrganismConfig
organism_of none = record { name = []; port = 0 }
organism_of (some keys) = record {
  name = unwrap_or keys.name default_organism_name;
  port = unwrap_or keys.port default_port;
}

unfoldable pub listener_of : Yaml → ListenerKeys → Result Text ListenerConfig
listener_of yaml keys = ok_or keys.name (yaml.missing_field (ascii "name")) >>= λ name.
    ok_or keys.payload_class (yaml.missing_field (ascii "payload_class")) >>= λ payload_class.
    ok_or keys.handler (yaml.missing_field (ascii "handler")) >>= λ handler.
    ok_or keys.description (yaml.missing_field (ascii "description")) >>= λ description.
    ok (record {
      name = name;
      payload_class = payload_class;
      handler = handler;
      description = description;
      agent = unwrap_or keys.agent false;
      peers = unwrap_or keys.peers [];
      broadcast = unwrap_or keys.broadcast false;
      prompt = unwrap_or keys.prompt [];
    })

unfoldable pub listeners_of : Yaml → List ListenerKeys → Result Text (List ListenerConfig)
unfolding listener_of
listeners_of yaml [] = ok []
listeners_of yaml (keys ∷ more) = listener_of yaml keys >>= λ listener.
    listeners_of yaml more >>= λ listeners. ok (listener ∷ listeners)

unfoldable pub config_of : Yaml → ConfigKeys → Result Text PipelineConfig
unfolding organism_of listeners_of
config_of yaml keys = listeners_of yaml (unwrap_or keys.listeners []) >>= λ listeners. ok (record {
  organism = organism_of keys.organism;
  max_concurrent_pipelines =
      unwrap_or keys.max_concurrent_pipelines default_max_concurrent_pipelines;
  max_concurrent_handlers = unwrap_or keys.max_concurrent_handlers default_max_concurrent_handlers;
  max_concurrent_per_agent =
      unwrap_or keys.max_concurrent_per_agent default_max_concurrent_per_agent;
  thread_scheduling = unwrap_or keys.thread_scheduling default_thread_scheduling;
  listeners = listeners;
})

unfoldable pub parse_config : Yaml → Text → PipelineResult PipelineConfig
unfolding config_of
parse_config yaml text =
    map_err (λ e. config (ascii "YAML parse error: " ++ e)) (yaml.read text >>= config_of yaml)

-- `std::fs::read_to_string` and the path's text are arguments.
unfoldable pub load_config : Yaml → (Text → Result Text Text) → Text → PipelineResult PipelineConfig
unfolding parse_config
load_config yaml read_to_string path =
    map_err (λ e. config (ascii "failed to read " ++ (path ++ (ascii ": " ++ e))))
      (read_to_string path)
    >>= λ contents. parse_config yaml contents

-- `s.rsplit('.').next()`.
unfoldable pub last_part : Text → Text
unfolding after_last
last_part s = elim (after_last b'.' s) [ some t ↦ t | none ↦ s ]

unfoldable pub payload_tag : ListenerConfig → Text
unfolding last_part
payload_tag listener = last_part listener.payload_class

unfoldable pub handler_name : ListenerConfig → Text
unfolding last_part
handler_name listener = last_part listener.handler

-- The name is what follows the last dot of the path: it has no dot, and it is the whole path, if
-- this has none, or stands behind a dot at its end.
abbrev pub IsLastPart : Text → Text → Type 0
IsLastPart path name =
    Free b'.' name × ((path ≡ name) ⊎ ((front : Text) × (path ≡ front ++ (b'.' ∷ name))))

last_part-IsLastPart : (s : Text) → IsLastPart s (last_part s)
unfolding last_part
last_part-IsLastPart s = elim (Option-cases (after_last b'.' s)) [
  | inl e ↦ rw (e, last_part) (after_last-eq-none b'.' s e, inl refl)
  | inr (t, e) ↦
      let (free, cut) = after_last-eq-some b'.' s t e in rw (e, last_part) (free, inr cut)
]

-- The payload tag and the handler name of a listener are what follows the last dot of the two paths in
-- the file, or the whole path if it has no dot.
pub names-IsLastPart :
    (listener : ListenerConfig)
    → IsLastPart listener.payload_class (payload_tag listener)
      × IsLastPart listener.handler (handler_name listener)
unfolding payload_tag handler_name
names-IsLastPart listener =
    (last_part-IsLastPart listener.payload_class, last_part-IsLastPart listener.handler)
