-- ===== src/Pipeline/Peers.antt =====
-- The peer rule at the route stage, for whatever comes out of the dispatcher as well.
use rust_pipeline.Base.{ℕ, arith, Text, contains, true, false, Option, some, List, [], ◌≡◌, refl}
use rust_pipeline.Base.Result.{ok}
use rust_pipeline.Wire.Address.{flat}
use rust_pipeline.Wire.Address.Parts.{organism}
use rust_pipeline.Wire.Payload.{Envelope, Payload}
use rust_pipeline.Routing.{ListenerEntry, RoutingTable, get_by_name, enforce_peers}
use rust_pipeline.Registry.{ListenerRegistry}
use rust_pipeline.Thread.{ThreadRegistry}
use rust_pipeline.Federation.Directory.{PeerDirectory}
use rust_pipeline.Pipeline.Stages.{Codec, RoutedMsg, routed, from_name}
use rust_pipeline.Pipeline.Dispatch.{stamped}
use rust_pipeline.Pipeline.Gates.{through_stages, through_stages-HasPassed}

enforce_peers-agent :
    (table : RoutingTable) (from to : Text) (e : ListenerEntry)
    → get_by_name table from ≡ some e
    → e.is_agent ≡ true
    → enforce_peers table from to ≡ ok tt
    → contains e.peers to ≡ true
unfolding enforce_peers get_by_name
enforce_peers-agent table from to e known agent may = ground arith

module _ (lower : Text → Text) (codec : Codec) (registry : ListenerRegistry)
    (federation : Option PeerDirectory) where
  -- What a registered agent sends reaches a listener only if that listener is one of the agent's
  -- declared peers. This holds of any bytes that decode to an envelope from it, and so of its
  -- replies, which come back to ingress as bytes.
  pub routed_from_agent :
      (threads threads' : ThreadRegistry) (raw : List ℕ) (env : Envelope) (m : RoutedMsg)
      (e : ListenerEntry)
      → codec.decode_envelope raw ≡ ok env
      → get_by_name registry.routing (from_name env) ≡ some e
      → e.is_agent ≡ true
      → through_stages lower codec registry federation threads raw ≡ some (routed m, threads')
      → contains e.peers m.target_name ≡ true
  routed_from_agent threads threads' raw env m e decoded known agent h =
      let passed =
        through_stages-HasPassed lower codec registry federation threads raw m threads' h in
      let same : env ≡ m.envelope = cc (decoded, passed.decoded) in
      enforce_peers-agent registry.routing (from_name env) m.target_name e known agent
        (rw same passed.permitted)

  -- The reply of a listener that is registered as an agent with no peers is handed to no listener,
  -- its caller included, when it comes back as bytes that decode to it.
  pub reply_from_peerless :
      (threads threads' : ThreadRegistry) (raw : List ℕ) (msg m : RoutedMsg) (caller thread : Text)
      (payload : Payload) (e : ListenerEntry)
      → codec.decode_envelope raw
        ≡ ok (stamped msg (flat msg.target_name) (flat caller) thread payload)
      → get_by_name registry.routing msg.target_name ≡ some e
      → e.is_agent ≡ true
      → e.peers ≡ []
      → ¬ (through_stages lower codec registry federation threads raw ≡ some (routed m, threads'))
  unfolding organism flat contains
  reply_from_peerless threads threads' raw msg m caller thread payload e decoded known agent alone
        h =
      let may =
        routed_from_agent threads threads' raw
          (stamped msg (flat msg.target_name) (flat caller) thread payload) m e decoded known agent
          h in
      let none_listed : contains e.peers m.target_name ≡ false = rw alone refl in
      absurd (cc (may, none_listed))
