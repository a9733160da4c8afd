-- ===== src/Tests/Config.antt =====
-- The results on config.rs for the listener of its own tests.
use rust_pipeline.Base.{ascii, true, false, none, some, [], ◌∷◌, ◌≡◌, refl}
use rust_pipeline.Config.{
  ListenerConfig, payload_tag, handler_name, IsLastPart, names-IsLastPart, organism_of,
}

abbrev greeter : ListenerConfig
greeter = record {
  name = ascii "greeter";
  payload_class = ascii "handlers.hello.Greeting";
  handler = ascii "handlers.hello.handle_greeting";
  description = ascii "Greeting agent";
  agent = true;
  peers = ascii "shouter" ∷ [];
  broadcast = false;
  prompt = [];
}

names-IsLastPart_example :
    IsLastPart (ascii "handlers.hello.Greeting") (payload_tag greeter)
    × IsLastPart (ascii "handlers.hello.handle_greeting") (handler_name greeter)
names-IsLastPart_example = names-IsLastPart greeter

greeter_tag : payload_tag greeter ≡ ascii "Greeting"
unfolding payload_tag
greeter_tag = refl

-- A file with an empty section has the defaults, and a file with none has not.
organism_default :
    (organism_of (some (record { name = none; port = none }))
      ≡ record { name = ascii "unnamed"; port = 8765 })
    × (organism_of none ≡ record { name = []; port = 0 })
unfolding organism_of
organism_default = (refl, refl)
