-- ===== src/Lib.antt =====
-- rust-pipeline: a message pipeline for agents. Raw bytes enter at ingress, are decoded, validated
-- against a schema and routed to a listener; the listener's handler answers, and what the answer
-- makes the pipeline send goes back to ingress as raw bytes, so that it passes the same gates.
-- Conversations are threads: opaque uuids that stand for chains of listener names, dotted texts.
--
-- The parts, the files that model them, and the code (paths from the repository's root):
--   Base        texts as lists of bytes, Rust's HashMap, split and join, results, bits
--   Error       src/error.rs: PipelineError
--   Wire        src/wire.rs: addresses (Address), the label set of an envelope's origins
--               (Provenance), values, payloads and envelopes (Payload)
--   Thread      src/thread.rs: ThreadRegistry, every operation that changes it
--   Routing     src/routing.rs: RoutingTable::register, resolve, enforce_peers
--   Validation  src/validation.rs: schemas, validate_payload_value, SchemaRegistry, and the check of a
--               payload's XML (Xml)
--   Config      src/config.rs: defaults, and the names of a listener
--   Handler     src/handler.rs, src/middleware.rs: what handlers and middleware take and answer
--   Registry    src/registry.rs: ListenerRegistry
--   Federation  src/federation.rs: the peer directory (Directory), frames (Frame), send, receive and
--               run_egress (Server)
--   Codec       src/codec.rs: what the encoder writes (Write) and the decoder makes of the reader's
--               events (Read, Decode), with numbers and hexadecimal text (Decimal, Hex)
--   Switchboard src/switchboard.rs: route, the way into the pipeline for addressed instances
--   Pipeline    src/pipeline.rs: the stages (Stages), process_message (Dispatch), dispatch_stage and
--               serial_worker as steps on the worker map (Workers), the stage tasks and their channels
--               from run to shutdown (System), the setters of the host (Setup), the
--               middleware around a handler (Onion)
--   Tests       every result at a concrete input
--
-- A struct is a record with the fields of the source; an enum is a data type with its variants. A
-- method that changes `self` returns the new `self`, beside its result. The pipeline's stages use the
-- registries as the code does: `route_stage` and `process_message` take the thread registry and
-- return it, and what they send is in the result: the bytes that go back to ingress, and the calls
-- of the `DispatchObserver` in order. `Result` and `?` are `Result` and `>>=`.
--
-- What is not in the repository is a parameter: a uuid that `Uuid::new_v4` draws is an argument,
-- `fresh`, and a result that needs it to be new says so; a cipher's nonce is one too; `to_lowercase` is the function `lower`;
-- handlers, middleware and the hooks of federation and switchboard are functions, and so is the
-- cipher of the federation frames. The library quick_xml is the record `Xml`:
-- a writer of events, a reader that turns bytes into events, and its texts; what its documentation
-- promises is the record `IsLawful`, and where a result needs more of it, that is a hypothesis. The
-- pipeline and the federation take the two functions of src/codec.rs as the record `Codec`, and no
-- result assumes a law of them, only what they return for the bytes or the envelope in question. On
-- which bytes the decoder panics is a field of `Codec` too: the parse stage then ends (System/Panics
-- puts src/codec.rs in its place). The federation server is modelled for calls that return.
--
-- Bounds: the words of a provenance are below 2 ^ 64, which `IsValid` says; shifts wrap. The bracket
-- depth of the address parser is an `i32` in the code and a natural number here, the same for texts
-- below 2 GiB. Every loop is structural recursion on the list that the code walks, but for the decoder, whose
-- values nest: it takes fuel, twice the number of events and one, and the outcome `exhausted`, which
-- stands for too little of it, is shown not to occur. The depth of the XML check is a `u32` that wraps. A slice that ends inside a character is the
-- outcome `panicked`. A decimal number is printed with fuel above the number itself.
-- `HashMap` and `HashSet` give no order of iteration; where the code iterates over one, the model takes the order
-- of its list, and the results do not depend on it.
--
-- A run of the pipeline's tasks is a list of turns, and any list is a run. The channel of the federation
-- server is taken to have room. Where a result asks for a fair order, it is in rounds: each kind of
-- turn comes in each round, and the number of rounds is a bound on the work left. What workers send back is a turn `sends` with any bytes.
--
-- Not modelled: the waiting of a sender for room in the ingress, the YAML of the
-- configuration file, whose keys are given, and the Python peer.
pub mod Base
pub mod Error
pub mod Wire
pub mod Thread
pub mod Routing
pub mod Validation
pub mod Handler
pub mod Registry
pub mod Federation
pub mod Codec
pub mod Config
pub mod Switchboard
pub mod Pipeline
pub mod Tests
