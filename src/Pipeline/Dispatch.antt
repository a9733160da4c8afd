-- ===== src/Pipeline/Dispatch.antt =====
-- `process_message` of pipeline.rs: middleware, handler, and what the response makes the pipeline do.
-- One message draws at most one uuid, `fresh`. The result of a send on the channel to ingress is
-- ignored by the code; what is sent there is the list `reinjected`. `events` is what a
-- `DispatchObserver` is told, in order, if one is installed.
use mathlib.Core.List.{reverse}
use rust_pipeline.Base.{ℕ, Text, ascii, Bool, true, false, Option, none, some, List, [], ◌∷◌, ◌++◌}
use rust_pipeline.Base.Result.{ok, err}
use rust_pipeline.Error.{handler}
use rust_pipeline.Wire.Address.{Address, flat}
use rust_pipeline.Wire.Address.Parts.{organism, unwrap_or}
use rust_pipeline.Wire.Payload.{Envelope, Payload, record_of, boolean, text}
use rust_pipeline.Handler.{
  ValidatedPayload, HandlerContext, HandlerResponse, HandlerResult, send, spawn, reply,
  DispatchMeta, Middleware, continue, transform, short_circuit, pass_through, replace,
}
use rust_pipeline.Routing.{enforce_peers}
use rust_pipeline.Registry.{ListenerRegistry, get_handler}
use rust_pipeline.Thread.{ThreadRegistry, PruneResult, prune_for_response, extend_chain}
use rust_pipeline.Pipeline.Stages.{Codec, RoutedMsg, from_name}

pub data CallKind : Type 0 where
  sync async : CallKind

pub data CallEvent : Type 0 where
  -- caller, callee, thread, kind
  on_open : Text → Text → Text → CallKind → CallEvent
  on_close : Text → CallEvent

pub record Effects : Type 0 where
  pub threads : ThreadRegistry
  pub reinjected : List (List ℕ)
  pub events : List CallEvent

abbrev pub quiet : ThreadRegistry → Effects
quiet threads = record { threads = threads; reinjected = []; events = [] }

-- The envelope that the pipeline builds: its sender and its provenance are not the handler's.
abbrev pub stamped : RoutedMsg → Address → Address → Text → Payload → Envelope
stamped msg from to thread payload = record {
  meta = record {
    from = from;
    to = some to;
    thread = thread;
    provenance = msg.envelope.meta.provenance;
  };
  payload = payload;
}

-- The loop of the pre-dispatch hooks: the payload at its end, and the result if one cut it short.
unfoldable pub pre_dispatch_all :
    List Middleware → DispatchMeta → ValidatedPayload → ValidatedPayload × Option HandlerResult
pre_dispatch_all [] meta payload = (payload, none)
pre_dispatch_all (mw ∷ mws) meta payload = elim (mw.pre_dispatch meta payload) [
  | ok continue ↦ pre_dispatch_all mws meta payload
  | ok (transform new_payload) ↦ pre_dispatch_all mws meta new_payload
  | ok (short_circuit response) ↦ (payload, some (ok response))
  | err e ↦ (payload, some (err e))
]

-- The loop of the post-dispatch hooks, over the middleware in reverse.
unfoldable pub post_dispatch_all :
    List Middleware → DispatchMeta → ValidatedPayload → HandlerResponse → HandlerResult
post_dispatch_all [] meta payload response = ok response
post_dispatch_all (mw ∷ mws) meta payload response = elim (mw.post_dispatch meta payload response) [
  | ok (pass_through r) ↦ post_dispatch_all mws meta payload r
  | ok (replace r) ↦ post_dispatch_all mws meta payload r
  | err e ↦ err (handler (ascii "middleware post-dispatch error"))
]

abbrev pub meta_of : RoutedMsg → DispatchMeta
meta_of msg = record {
  from = from_name msg.envelope;
  to = msg.target_name;
  thread_id = msg.envelope.meta.thread;
  payload_tag = msg.payload.tag;
}

abbrev pub context_of : RoutedMsg → HandlerContext
context_of msg = record {
  thread_id = msg.envelope.meta.thread;
  from = msg.envelope.meta.from;
  own_name = flat msg.target_name;
  provenance = msg.envelope.meta.provenance;
}

-- The handler runs unless a hook cut the dispatch short; an error passes by the post-dispatch hooks.
unfoldable pub handle :
    List Middleware
    → (ValidatedPayload → HandlerContext → HandlerResult)
    → RoutedMsg
    → HandlerResult
unfolding pre_dispatch_all post_dispatch_all
handle middleware run msg =
    let (payload, cut) = pre_dispatch_all middleware (meta_of msg) msg.payload in
    let result : HandlerResult = elim cut [ some r ↦ r | none ↦ run payload (context_of msg) ] in
    elim result [
      | ok response ↦ post_dispatch_all (reverse middleware) (meta_of msg) payload response
      | err e ↦ err e
    ]

abbrev pub ack : Payload
ack = record {
  tag = ascii "ToolResponse";
  value = record_of ((ascii "success", boolean true) ∷ (ascii "result", text (ascii "ack")) ∷ []);
}

abbrev pub spawn_ack : Bool → Payload
spawn_ack accepted = record {
  tag = ascii "SpawnAck";
  value = record_of ((ascii "accepted", boolean accepted) ∷ []);
}

module _ (codec : Codec) where
  -- `encode_envelope` and the send to ingress; an envelope that cannot be encoded is not sent.
  unfoldable pub reinject : Effects → Envelope → Effects
  reinject eff env = elim (codec.encode_envelope env) [
    | ok raw ↦ record eff { reinjected = eff.reinjected ++ (raw ∷ []) }
    | err _ ↦ eff
  ]

  -- The answer to the caller, if the chain has one.
  unfoldable pub answer : RoutedMsg → Option PruneResult × ThreadRegistry → Payload → Effects
  unfolding reinject
  answer msg (prune, threads) payload =
      let closed : Effects = record (quiet threads) {
        events = on_close msg.envelope.meta.thread ∷ [];
      } in
      elim prune [
        | none ↦ closed
        | some p ↦
            reinject closed (stamped msg (flat msg.target_name) (flat p.target) p.thread_id payload)
      ]

  unfoldable pub respond_reply : ThreadRegistry → Text → RoutedMsg → Payload → Effects
  unfolding answer
  respond_reply threads fresh msg payload =
      answer msg (prune_for_response threads msg.envelope.meta.thread fresh) payload

  unfoldable pub respond_none : ThreadRegistry → Text → RoutedMsg → Effects
  unfolding answer
  respond_none threads fresh msg =
      answer msg (prune_for_response threads msg.envelope.meta.thread fresh) ack

  -- A call of `to` on the extended chain, and whether it was accepted.
  unfoldable pub call :
      ListenerRegistry
      → ThreadRegistry
      → Text
      → RoutedMsg
      → CallKind
      → Address
      → Payload
      → Effects × Bool
  call registry threads fresh msg kind to payload =
      let to_name = unwrap_or (organism to) [] in
      elim (enforce_peers registry.routing msg.target_name to_name) [
        | err _ ↦ (quiet threads, false)
        | ok _ ↦
            let (thread, threads') = extend_chain threads msg.envelope.meta.thread to_name fresh in
            elim (codec.encode_envelope (stamped msg (flat msg.target_name) to thread payload)) [
              | err _ ↦ (quiet threads', false)
              | ok raw ↦ (
                record {
                  threads = threads';
                  reinjected = raw ∷ [];
                  events = on_open msg.target_name to_name thread kind ∷ [];
                },
                true,
              )
            ]
      ]

  unfoldable pub respond_send :
      ListenerRegistry → ThreadRegistry → Text → RoutedMsg → Address → Payload → Effects
  unfolding call
  respond_send registry threads fresh msg to payload =
      (call registry threads fresh msg CallKind.sync to payload).0

  unfoldable pub respond_spawn :
      ListenerRegistry → ThreadRegistry → Text → RoutedMsg → Address → Payload → Effects
  unfolding call reinject
  respond_spawn registry threads fresh msg to payload =
      let (eff, accepted) = call registry threads fresh msg CallKind.async to payload in
      reinject eff (
        stamped msg (flat (unwrap_or (organism to) [])) (flat msg.target_name)
          msg.envelope.meta.thread (spawn_ack accepted))

  unfoldable pub respond :
      ListenerRegistry → ThreadRegistry → Text → RoutedMsg → HandlerResult → Effects
  unfolding respond_none respond_reply respond_send respond_spawn
  respond registry threads fresh msg (ok HandlerResponse.none) = respond_none threads fresh msg
  respond registry threads fresh msg (ok (reply payload)) = respond_reply threads fresh msg payload
  respond registry threads fresh msg (ok (spawn to payload)) =
      respond_spawn registry threads fresh msg to payload
  respond registry threads fresh msg (ok (send to payload)) =
      respond_send registry threads fresh msg to payload
  respond registry threads fresh msg (err e) = quiet threads

  unfoldable pub process_message :
      ListenerRegistry → List Middleware → ThreadRegistry → Text → RoutedMsg → Effects
  unfolding handle respond
  process_message registry middleware threads fresh msg =
      elim (get_handler registry msg.target_name) [
        | none ↦ quiet threads
        | some run ↦ respond registry threads fresh msg (handle middleware run msg)
      ]
