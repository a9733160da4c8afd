-- ===== src/Federation/Server.antt =====
-- `FederationServer` of federation.rs: `send`, `receive` and `run_egress`. The hooks `Transport`, `LocalDelivery` and
-- `Authorizer` are functions. What a call hands to the transport or to local delivery stands beside
-- its result.
pub mod Origin
pub mod Links
use rust_pipeline.Base.{
  ℕ, Text, text_eq, Bool, true, false, ◌&&◌, Option, none, some, List, [], ◌∷◌, ◌++◌, ltb, length,
  get_elem?, drop, if◌then◌else◌,
}
use rust_pipeline.Base.Result.{Result, ok, err, ok_or, map_err, ◌>>=◌, ◌>>◌}
use rust_pipeline.Wire.Address.{Segment, Address}
use rust_pipeline.Wire.Address.Parts.{and_then, unwrap_or}
use rust_pipeline.Wire.Provenance
use rust_pipeline.Wire.Provenance.{Provenance, union_with}
use rust_pipeline.Wire.Payload.{Meta, Envelope}
use rust_pipeline.Federation.Directory.{Peer, PeerDirectory, get}
use rust_pipeline.Federation.Frame.{
  FederationError, FederationResult, Cipher, no_destination, not_remote, transport, delivery,
  unauthorized, seal, open_frame,
}
use rust_pipeline.Pipeline.Stages.{Codec}

-- The claimed namespace is replaced by the authenticated one; a bare name gets it as a prefix.
unfoldable pub reroot_origin : Address → Text → Address
reroot_origin from namespace = record {
  segments =
      record { name = namespace; key = none }
      ∷ (if ltb (length from.segments) 2 then from.segments else drop 1 from.segments);
}

-- `authorize` of the host's `Authorizer`.
abbrev pub Authorizer : Type 0
Authorizer = Address → Address → Result Text (Unit {0})

-- The node's own prefix, taken off if something is left.
abbrev pub strip_node : Text → Address → Address
strip_node node to = elim (get_elem? to.segments 0) [
  | none ↦ to
  | some s ↦
      if ltb 1 (length to.segments) && text_eq s.name node
      then record { segments = drop 1 to.segments }
      else to
]

abbrev pub map_to : (Address → Address) → Option Address → Option Address
map_to f none = none
map_to f (some a) = some (f a)

-- The check of an envelope's origin against its destination, if it has one.
abbrev pub check_crossing : Authorizer → Address → Option Address → FederationResult (Unit {0})
check_crossing authorize from none = ok tt
check_crossing authorize from (some to) = map_err unauthorized (authorize from to)

module _ (wire : Codec) (cipher : Cipher) (is_utf8 : List ℕ → Bool) (node : Text)
    (directory : PeerDirectory) (authorize : Authorizer) where
  -- The edge stamp of the sender.
  abbrev pub edge : Text → Provenance
  edge sender =
      unwrap_or (and_then (get directory sender) λ p. some p.inbound_provenance) Provenance.empty

  -- The stamps on an opened envelope.
  unfoldable pub stamp_origin : Envelope → Text → Envelope
  unfolding reroot_origin
  stamp_origin env sender = record env {
    meta = record env.meta {
      from = reroot_origin env.meta.from sender;
      provenance = union_with env.meta.provenance (edge sender);
    };
  }

  -- `receive` up to local delivery: the envelope to deliver.
  unfoldable pub admit : List ℕ → FederationResult Envelope
  unfolding stamp_origin open_frame
  admit frame = do
    (env, sender) ← open_frame wire cipher is_utf8 frame directory
    check_crossing authorize (stamp_origin env sender).meta.from env.meta.to
    ok (record (stamp_origin env sender) {
      meta = record (stamp_origin env sender).meta { to = map_to (strip_node node) env.meta.to };
    })

  -- `receive`: what it hands to local delivery, and its result.
  unfoldable pub receive :
      (Envelope → Result Text (Unit {0})) → List ℕ → List Envelope × FederationResult (Unit {0})
  unfolding admit
  receive deliver frame = elim (admit frame) [
    | err e ↦ ([], err e)
    | ok env ↦ (env ∷ [], map_err delivery (deliver env))
  ]

  -- `send` up to the transport: the endpoint and the frame.
  unfoldable pub egress_frame : Option (List ℕ) → Envelope → FederationResult (Text × List ℕ)
  unfolding seal
  egress_frame drawn env = do
    to ← ok_or env.meta.to no_destination
    first ← ok_or (get_elem? to.segments 0) no_destination
    peer ← ok_or (get directory first.name) (not_remote first.name)
    frame ← seal wire cipher drawn env node peer.key
    ok (peer.endpoint, frame)

  unfoldable pub send :
      (Text → List ℕ → Result Text (Unit {0}))
      → Option (List ℕ)
      → Envelope
      → List (Text × List ℕ) × FederationResult (Unit {0})
  unfolding egress_frame
  send carry drawn env = elim (egress_frame drawn env) [
    | err e ↦ ([], err e)
    | ok (endpoint, frame) ↦ ((endpoint, frame) ∷ [], map_err transport (carry endpoint frame))
  ]

  -- What is logged of a result.
  abbrev pub warned : FederationResult (Unit {0}) → List FederationError
  warned (ok _) = []
  warned (err e) = e ∷ []

  -- `run_egress` on the envelopes of its channel, each with the nonce that `seal` draws: what it hands to
  -- the transport, and the errors that it logs.
  unfoldable pub run_egress :
      (Text → List ℕ → Result Text (Unit {0}))
      → List (Option (List ℕ) × Envelope)
      → List (Text × List ℕ) × List FederationError
  unfolding send
  run_egress carry [] = ([], [])
  run_egress carry ((drawn, env) ∷ more) =
      let out = send carry drawn env in
      let rest = run_egress carry more in (out.0 ++ rest.0, warned out.1 ++ rest.1)
