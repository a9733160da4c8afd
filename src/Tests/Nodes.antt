-- ===== src/Tests/Nodes.antt =====
-- The results on federation.rs and switchboard.rs at concrete frames and envelopes.
use rust_pipeline.Base.{
  ℕ, Text, ascii, true, false, none, some, List, [], ◌∷◌, ◌++◌, get_elem?, ◌≡◌, ◌⊎◌, refl, arith,
}
use rust_pipeline.Base.HashMap
use rust_pipeline.Base.Result.{ok, err}
use rust_pipeline.Wire.Address.{Address, flat}
use rust_pipeline.Wire.Provenance.{empty, from_bit, union, union_with}
use rust_pipeline.Wire.Payload.{Envelope, text}
use rust_pipeline.Federation.Directory
use rust_pipeline.Federation.Directory.{Peer, PeerDirectory}
use rust_pipeline.Federation.Frame.{Cipher, encode_header, seal, open_frame}
use rust_pipeline.Federation.Frame.RoundTrip.{open_frame-seal}
use rust_pipeline.Federation.Server.{admit, egress_frame, Authorizer, map_to, strip_node, receive}
use rust_pipeline.Federation.Server.Links.{HasCrossed, admit-egress_frame}
use rust_pipeline.Federation.Server.Origin.{IsAuthentic, IsAuthorized, receive-IsAuthentic}
use rust_pipeline.Pipeline.Stages.{Codec}
use rust_pipeline.Switchboard.{SwitchboardError, Injects, route, route-Injects}

-- From `root` to bob at the node agentos.
abbrev forged : Envelope
forged = record {
  meta = record {
    from = record {
      segments =
          record { name = ascii "root"; key = none }
          ∷ record { name = ascii "eve"; key = none }
          ∷ [];
    };
    to = some (record {
      segments =
          record { name = ascii "agentos"; key = none }
          ∷ record { name = ascii "bob"; key = none }
          ∷ [];
    });
    thread = ascii "t";
    provenance = empty;
  };
  payload = record { tag = ascii "Say"; value = text (ascii "hello") };
}

abbrev plain_codec : Codec
plain_codec = record {
  encode_envelope = λ env. ok env.payload.tag;
  decode_envelope = λ raw. ok forged;
  decode_panics = λ raw. false;
}

-- A cipher that hides nothing, and so opens what it sealed.
abbrev plain_cipher : Cipher
plain_cipher = record { encrypt = λ key nonce t aad. some t; decrypt = λ key nonce t aad. some t }

abbrev ringhub : Peer
ringhub = record {
  namespace = ascii "ringhub";
  endpoint = ascii "host";
  key = [];
  inbound_provenance = from_bit 5;
}

abbrev peers : PeerDirectory
peers = Directory.register Directory.new ringhub

abbrev zeros : List ℕ
zeros =
    0 ∷ 0 ∷ 0 ∷ 0 ∷ 0 ∷ 0 ∷ 0 ∷ 0 ∷ 0 ∷ 0 ∷ 0 ∷ 0 ∷ 0 ∷ 0 ∷ 0 ∷ 0 ∷ 0 ∷ 0 ∷ 0 ∷ 0 ∷ 0 ∷ 0 ∷ 0 ∷ 0
    ∷ []

peer_known : Directory.get peers (ascii "ringhub") ≡ some ringhub
unfolding Directory.register Directory.new Directory.get HashMap.get HashMap.insert
peer_known = refl

open_frame-seal_example :
    (frame : List ℕ) × (seal plain_codec plain_cipher (some zeros) forged (ascii "ringhub") []
      ≡ ok frame)
    × (open_frame plain_codec plain_cipher (λ t. true) frame peers ≡ ok (forged, ascii "ringhub"))
open_frame-seal_example =
    open_frame-seal plain_codec plain_cipher (λ t. true) peers forged (ascii "ringhub") ringhub
      zeros (ascii "Say") (ascii "Say") refl (omega arith) refl peer_known refl refl refl refl

-- The frame of the forged envelope, and what the node agentos delivers for it.
unfoldable letter : List ℕ
unfolding encode_header
letter = encode_header (ascii "ringhub") ++ (zeros ++ ascii "Say")

abbrev permits : Authorizer
permits from to = ok tt

abbrev delivered : Envelope
delivered = record forged {
  meta = record forged.meta {
    from = record {
      segments =
          record { name = ascii "ringhub"; key = none }
          ∷ record { name = ascii "eve"; key = none }
          ∷ [];
    };
    to = some (flat (ascii "bob"));
    provenance = union empty (from_bit 5);
  };
}

arrives :
    (receive plain_codec plain_cipher
      (λ t. true)
      (ascii "agentos")
      peers
      permits
      (λ env. ok tt)
      letter).0
    ≡ delivered ∷ []
unfolding receive letter Directory.register Directory.new Directory.get HashMap.get HashMap.insert
    union union_with flat
arrives = refl

receive-IsAuthentic_example :
    (env : Envelope) × (sender : Text) × (peer : Peer) × IsAuthentic plain_codec plain_cipher
      (λ t. true)
      (ascii "agentos")
      peers
      permits
      letter
      env
      sender
      peer
    × (get_elem? delivered.meta.from.segments 0 ≡ some (record { name = sender; key = none }))
    × (delivered.meta.provenance ≡ union env.meta.provenance peer.inbound_provenance)
    × IsAuthorized permits delivered.meta.from env.meta.to
    × (delivered.meta.to ≡ map_to (strip_node (ascii "agentos")) env.meta.to)
    × (delivered.meta.thread ≡ env.meta.thread)
    × (delivered.payload ≡ env.payload)
receive-IsAuthentic_example =
    receive-IsAuthentic plain_codec plain_cipher (λ t. true) (ascii "agentos") peers permits
      (λ env. ok tt) letter delivered arrives

route-Injects_example :
    ((raw : List ℕ) × (route plain_codec (λ to. ok (ascii "t9")) true forged ≡ (raw ∷ [], ok tt))
      × (true ≡ true)
      × Injects plain_codec (λ to. ok (ascii "t9")) forged raw)
    ⊎ ((e : SwitchboardError) × (route plain_codec (λ to. ok (ascii "t9")) true forged
          ≡ ([], err e))
        × ((true ≡ false)
            ⊎ ((raw : List ℕ) → ¬ Injects plain_codec (λ to. ok (ascii "t9")) forged raw)))
route-Injects_example = route-Injects plain_codec (λ to. ok (ascii "t9")) true forged

-- What ringhub knows of agentos.
abbrev agentos : Peer
agentos = record {
  namespace = ascii "agentos";
  endpoint = ascii "wss";
  key = ringhub.key;
  inbound_provenance = empty;
}

abbrev known_at_ringhub : PeerDirectory
known_at_ringhub = Directory.register Directory.new agentos

agentos_known : Directory.get known_at_ringhub (ascii "agentos") ≡ some agentos
unfolding Directory.register Directory.new Directory.get HashMap.get HashMap.insert
agentos_known = refl

abbrev bob_there : Address
bob_there = record {
  segments =
      record { name = ascii "agentos"; key = none }
      ∷ record { name = ascii "bob"; key = none }
      ∷ [];
}

admit-egress_frame_example :
    (frame : List ℕ) × (out : Envelope) × (egress_frame plain_codec plain_cipher
        (λ t. true)
        (ascii "ringhub")
        known_at_ringhub
        permits
        (some zeros)
        forged
      ≡ ok (ascii "wss", frame))
    × (admit plain_codec plain_cipher (λ t. true) (ascii "agentos") peers permits frame ≡ ok out)
    × HasCrossed
        (ascii "ringhub")
        (record { name = ascii "bob"; key = none } ∷ [])
        ringhub
        forged
        out
admit-egress_frame_example =
    admit-egress_frame plain_codec plain_cipher (λ t. true) (ascii "ringhub") (ascii "agentos")
      known_at_ringhub peers permits permits forged none (record { name = ascii "bob"; key = none })
      [] agentos ringhub zeros (ascii "Say") (ascii "Say") refl agentos_known peer_known refl refl
      (omega arith) refl refl refl refl refl refl
