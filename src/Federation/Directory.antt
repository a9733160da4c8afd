-- ===== src/Federation/Directory.antt =====
-- `Peer` and `PeerDirectory` of federation.rs.
use rust_pipeline.Base.{ℕ, Text, Bool, Option, List}
use rust_pipeline.Base.HashMap
use rust_pipeline.Base.HashMap.{HashMap}
use rust_pipeline.Wire.Provenance.{Provenance}

-- `PeerKey`: 32 bytes.
abbrev pub PeerKey : Type 0
PeerKey = List ℕ

pub record Peer : Type 0 where
  pub namespace : Text
  pub endpoint : Text
  pub key : PeerKey
  pub inbound_provenance : Provenance

pub record PeerDirectory : Type 0 where
  pub peers : HashMap Peer

unfoldable pub new : PeerDirectory
new = record { peers = HashMap.empty }

unfoldable pub register : PeerDirectory → Peer → PeerDirectory
register d peer = record { peers = HashMap.insert d.peers peer.namespace peer }

unfoldable pub get : PeerDirectory → Text → Option Peer
get d namespace = HashMap.get d.peers namespace

unfoldable pub is_remote : PeerDirectory → Text → Bool
is_remote d namespace = HashMap.contains_key d.peers namespace
