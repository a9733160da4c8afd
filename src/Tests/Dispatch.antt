-- ===== src/Tests/Dispatch.antt =====
-- The results on pipeline.rs at concrete messages.
use rust_pipeline.Base.{
  ℕ, Text, ascii, contains, Bool, true, false, none, some, List, [], ◌∷◌, ◌++◌, ◌≡◌, refl, arith,
  All, ◌⊎◌,
}
use rust_pipeline.Base.HashMap
use rust_pipeline.Base.Result.{ok}
use rust_pipeline.Base.Split.{split}
use rust_pipeline.Wire.Address.{Address, flat}
use rust_pipeline.Wire.Address.Parts.{organism}
use rust_pipeline.Wire.Provenance.{from_bit}
use rust_pipeline.Wire.Payload.{Envelope, Payload, text}
use rust_pipeline.Handler.{Handler}
use rust_pipeline.Routing.{enforce_peers}
use rust_pipeline.Routing
use rust_pipeline.Validation
use rust_pipeline.Registry
use rust_pipeline.Registry.{ListenerRegistry, get_handler}
use rust_pipeline.Thread.{ThreadRegistry, lookup, initialize_root, get_or_create}
use rust_pipeline.Thread
use rust_pipeline.Thread.Calls.{step}
use rust_pipeline.Pipeline.Stages.{Codec, ValidatedMsg, RoutedMsg, routed, route_stage}
use rust_pipeline.Pipeline.Dispatch.{
  Effects, CallKind, on_close, on_open, stamped, process_message, call, respond_reply,
  respond_spawn, reinject, spawn_ack,
}
use rust_pipeline.Pipeline.Outcomes.{listener, extension, call_envelope}
use rust_pipeline.Pipeline.Gates.{HasPassed, through_stages, through_stages-HasPassed}
use rust_pipeline.Pipeline.Stamps.{IsStamped, process_message-IsStamped}
use rust_pipeline.Pipeline.Replies.{replied, reply-call}
use rust_pipeline.Pipeline.Spawns.{respond_spawn_lem}
use rust_pipeline.Pipeline.External.{entered, sender_thread, reply_external, reply_taken}
use rust_pipeline.Pipeline.Peers.{routed_from_agent, reply_from_peerless}
use rust_pipeline.Pipeline.Handled
use rust_pipeline.Pipeline.Handled.{routed_has_handler}
use rust_pipeline.Thread.Consistency.{IsConsistent}
use rust_pipeline.Pipeline.Threads.{process_message-IsConsistent}
use rust_pipeline.Pipeline.Workers.{
  busy, WorkerEvent, dispatches, receives, times_out, rechecks, finishes, empty_pool, worker_run,
}
use rust_pipeline.Pipeline.Workers.Serial.{for_key, held, dispatched}
use rust_pipeline.Pipeline.Workers.Runs.{done-held, one_worker}
use rust_pipeline.Tests.Threads.{t1, t2, t3, user_bob, threads, threads_good, bob_known}
use rust_pipeline.Tests.Listeners.{agent, bob, silent}

abbrev hello : Payload
hello = record { tag = ascii "Say"; value = text (ascii "hello") }

-- From the agent to bob, on `thread`.
abbrev note : Text → Envelope
note thread = record {
  meta = record {
    from = flat (ascii "agent");
    to = some (flat (ascii "bob"));
    thread = thread;
    provenance = from_bit 3;
  };
  payload = hello;
}

-- Every envelope encodes as its tag, and all bytes decode to the note on `uuid-2`.
abbrev pub wire : Codec
wire = record {
  encode_envelope = λ env. ok env.payload.tag;
  decode_envelope = λ raw. ok (note t2);
  decode_panics = λ raw. false;
}

abbrev pub at_bob : Text → RoutedMsg
at_bob thread = record {
  envelope = note thread;
  payload = record { tag = hello.tag; value = hello.value };
  target_name = ascii "bob";
}

abbrev pub listeners : ListenerRegistry
listeners = Handled.build (λ t. t) Registry.new ((agent, silent, none) ∷ (bob, silent, none) ∷ [])

process_message-IsStamped_example :
    All
      (IsStamped wire (at_bob t2))
      (process_message wire listeners [] threads t3 (at_bob t2)).reinjected
process_message-IsStamped_example =
    process_message-IsStamped wire (at_bob t2) listeners threads t3 []

-- Bob calls alice on `uuid-3`, and alice replies there.
abbrev at_alice : RoutedMsg
at_alice = record (at_bob t3) { target_name = ascii "alice" }

abbrev alice : Address
alice = flat (ascii "alice")

reply-call_example :
    ((call wire Registry.new threads t3 (at_bob t2) CallKind.sync alice hello).0.events
      ≡ on_open (ascii "bob") (listener alice) t3 CallKind.sync ∷ [])
    × (respond_reply wire
          (call wire Registry.new threads t3 (at_bob t2) CallKind.sync alice hello).0.threads
          t1
          at_alice
          hello
        ≡ replied wire
            (call wire Registry.new threads t3 (at_bob t2) CallKind.sync alice hello).0.threads
            at_alice
            (ascii "Say"))
unfolding call enforce_peers Registry.new Routing.new HashMap.get HashMap.insert threads step lookup
    get_or_create initialize_root Thread.new organism flat split Thread.extend_chain
reply-call_example =
    reply-call wire Registry.new threads t3 t1 user_bob (ascii "bob") (at_bob t2) at_alice
      CallKind.sync alice hello hello (ascii "Say") threads_good refl bob_known (λ e. cc) refl
      (omega arith) refl refl refl

respond_spawn_lem_example :
    (eff : Effects) × (accepted : Bool) × (respond_spawn wire listeners threads t3
        (at_bob t2)
        alice
        hello
      ≡ reinject wire eff (
          stamped (at_bob t2) (flat (listener alice)) (flat (ascii "bob")) t2 (spawn_ack accepted)))
    × (((accepted ≡ true)
          × (raw : List ℕ) × (wire.encode_envelope
                (call_envelope wire listeners threads t3 (at_bob t2) CallKind.async alice hello)
              ≡ ok raw)
          × (eff.reinjected ≡ raw ∷ [])
          × (eff.events
              ≡ on_open
                  (ascii "bob")
                  (listener alice)
                  (extension wire listeners threads t3 (at_bob t2) CallKind.async alice hello).0
                  CallKind.async
                ∷ []))
        ⊎ ((accepted ≡ false) × (eff.reinjected ≡ []) × (eff.events ≡ [])))
respond_spawn_lem_example = respond_spawn_lem wire listeners threads t3 (at_bob t2) alice hello

-- The agent is the sender, on a thread that is not known.
abbrev new_thread : Text
new_thread = ascii "uuid-9"

reply_external_example :
    respond_reply wire
      (entered (λ t. t) threads (ascii "agent") (at_bob new_thread))
      t3
      (at_bob new_thread)
      hello
    ≡ replied wire
        (sender_thread (λ t. t) threads t3 (ascii "agent") (at_bob new_thread)).1
        (at_bob new_thread)
        (ascii "Say")
unfolding threads step lookup HashMap.insert HashMap.get Thread.new get_or_create initialize_root
    Thread.external_chain
reply_external_example =
    reply_external wire (λ t. t) threads t3 (ascii "agent") (at_bob new_thread) hello (ascii "Say")
      refl refl (omega arith) (omega arith) refl

-- The thread of the root, the agent and bob is `uuid-3`; then a message comes in on another one.
unfoldable crowded : ThreadRegistry
unfolding step
crowded = step threads t3 (Thread.Calls.creates (ascii "system.org.agent.bob"))

reply_taken_example :
    (entered (λ t. t) crowded (ascii "agent") (at_bob new_thread) ≡ crowded)
    × (respond_reply wire
          (entered (λ t. t) crowded (ascii "agent") (at_bob new_thread))
          t1
          (at_bob new_thread)
          hello
        ≡ record { threads = crowded; reinjected = []; events = on_close new_thread ∷ [] })
unfolding crowded threads step lookup HashMap.insert HashMap.get Thread.new get_or_create
    initialize_root Thread.external_chain
reply_taken_example =
    reply_taken wire (λ t. t) crowded t1 (ascii "agent") t3 (at_bob new_thread) hello refl refl

passes : through_stages (λ t. t) wire listeners none threads [] ≡ some (routed (at_bob t2), threads)
unfolding through_stages Handled.build Registry.register Registry.new Routing.new Routing.register
    HashMap.get HashMap.insert threads step lookup get_or_create initialize_root Thread.new organism
    flat enforce_peers contains Validation.validate_value Validation.register Routing.resolve
    route_stage Routing.collect_set
passes = refl

through_stages-HasPassed_example : HasPassed (λ t. t) wire listeners none [] (at_bob t2)
through_stages-HasPassed_example =
    through_stages-HasPassed (λ t. t) wire listeners none threads [] (at_bob t2) threads passes

agent_known :
    Routing.get_by_name listeners.routing (ascii "agent") ≡ some (Routing.entry_of (λ t. t) agent)
unfolding Handled.build Registry.register Registry.new Routing.new Routing.register HashMap.get
    HashMap.insert Routing.get_by_name
agent_known = refl

routed_from_agent_example : contains (ascii "bob" ∷ []) (ascii "bob") ≡ true
unfolding organism flat Routing.collect_set contains
routed_from_agent_example =
    routed_from_agent (λ t. t) wire listeners none threads threads [] (note t2) (at_bob t2)
      (Routing.entry_of (λ t. t) agent) refl agent_known refl passes

routed_has_handler_example : (run : Handler) × (get_handler listeners (ascii "bob") ≡ some run)
routed_has_handler_example =
    routed_has_handler (λ t. t) ((agent, silent, none) ∷ (bob, silent, none) ∷ []) wire none threads
      threads [] (at_bob t2) passes

-- Bob as an agent with no peers, and the wire when his reply to the agent comes back.
abbrev mute_bob : Routing.Registration
mute_bob = record bob { is_agent = true }

abbrev returning : Codec
returning = record {
  encode_envelope = λ env. ok env.payload.tag;
  decode_envelope =
      λ raw. ok (stamped (at_bob t2) (flat (ascii "bob")) (flat (ascii "agent")) t1 hello);
  decode_panics = λ raw. false;
}

abbrev muted : ListenerRegistry
muted = Handled.build (λ t. t) Registry.new ((agent, silent, none) ∷ (mute_bob, silent, none) ∷ [])

bob_muted :
    Routing.get_by_name muted.routing (ascii "bob") ≡ some (Routing.entry_of (λ t. t) mute_bob)
unfolding Handled.build Registry.register Registry.new Routing.new Routing.register HashMap.get
    HashMap.insert Routing.get_by_name
bob_muted = refl

reply_from_peerless_example : ¬ (
    through_stages (λ t. t) returning muted none threads []
    ≡ some (routed (record (at_bob t1) { target_name = ascii "agent" }), threads))
unfolding Routing.collect_set
reply_from_peerless_example =
    reply_from_peerless (λ t. t) returning muted none threads threads [] (at_bob t2)
      (record (at_bob t1) { target_name = ascii "agent" }) (ascii "agent") t1 hello
      (Routing.entry_of (λ t. t) mute_bob) refl bob_muted refl refl

-- Two messages on one thread, with a timeout between them that finds the second, and one on another.
abbrev turns : List WorkerEvent
turns =
    dispatches (at_bob t2)
    ∷ receives 0
    ∷ finishes 0
    ∷ times_out 0
    ∷ dispatches at_alice
    ∷ dispatches (at_bob t2)
    ∷ rechecks 0
    ∷ receives 1
    ∷ []

done-held_example :
    for_key t2 (worker_run empty_pool turns).done ++ held (worker_run empty_pool turns) t2
    ≡ for_key t2 (dispatched turns)
done-held_example = done-held turns t2

one_worker_example : (◌≡◌ {A = ℕ} 0 0) × (HashMap.get (worker_run empty_pool turns).map t2 ≡ some 0)
unfolding worker_run HashMap.get HashMap.insert
one_worker_example =
    one_worker turns 0 0 (record { key = t2; queue = []; mode = busy (at_bob t2) })
      (record { key = t2; queue = []; mode = busy (at_bob t2) }) refl refl refl

process_message-IsConsistent_example :
    IsConsistent (process_message wire listeners [] threads t3 (at_bob t2)).threads
unfolding threads step HashMap.get HashMap.insert Thread.new get_or_create initialize_root
process_message-IsConsistent_example =
    process_message-IsConsistent wire (at_bob t2) listeners threads t3 threads_good refl []

abbrev incoming : ValidatedMsg
incoming = record { envelope = note new_thread; payload = (at_bob t2).payload }
