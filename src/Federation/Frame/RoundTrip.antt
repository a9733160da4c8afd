-- ===== src/Federation/Frame/RoundTrip.antt =====
-- A sealed frame, opened by a node that has the sender's key, gives envelope and sender back.
use rust_pipeline.Base.{
  ℕ, suc, ◌+◌, ◌*◌, ◌/◌, ◌%◌, ◌<◌, Text, Bool, true, false, some, List, ◌++◌, length, take, drop,
  ltb, ◌≡◌, refl, arith, take-length-append, drop-length-append, length-append,
}
use rust_pipeline.Base.Result.{ok}
use rust_pipeline.Wire.Payload.{Envelope}
use rust_pipeline.Federation.Directory.{Peer, PeerDirectory, get}
use rust_pipeline.Pipeline.Stages.{Codec}
use rust_pipeline.Federation.Frame.{Cipher, encode_header, parse_header, seal, open_frame}

-- The header that a node writes for itself is read back, whatever follows it, if its name is UTF-8
-- and shorter than 65536 bytes.
pub parse_header-encode_header :
    (is_utf8 : List ℕ → Bool) (sender : Text) (body : List ℕ)
    → is_utf8 sender ≡ true
    → length sender < 65536
    → parse_header is_utf8 (encode_header sender ++ body)
      ≡ ok (encode_header sender, sender, length (encode_header sender))
unfolding parse_header encode_header
parse_header-encode_header is_utf8 sender body valid short =
    let n = length sender in
    let len : ((n % 65536) / 256) * 256 + n % 256 ≡ n = omega arith in
    let fits : ltb (4 + length (sender ++ body)) (4 + n) ≡ false =
      ground (arith, length-append sender body) in
    let four : 4 + n ≡ suc (suc (suc (suc n))) = omega arith in
    rw (len, take-length-append sender body, valid, fits, four, take-length-append sender body) refl

-- What a node seals for a peer, that peer opens: it gets the envelope and the node's name, if it has
-- the node registered with the same key. Asked of the parts: the name is UTF-8 and shorter than
-- 65536 bytes, the nonce has its 24 bytes, the codec decodes what it encoded for this envelope,
-- and the cipher opens what it sealed with this key, nonce and header.
pub open_frame-seal :
    (wire : Codec) (cipher : Cipher) (is_utf8 : List ℕ → Bool) (directory : PeerDirectory)
    (env : Envelope) (sender : Text) (peer : Peer) (nonce plaintext ct : List ℕ)
    → is_utf8 sender ≡ true
    → length sender < 65536
    → length nonce ≡ 24
    → get directory sender ≡ some peer
    → wire.encode_envelope env ≡ ok plaintext
    → wire.decode_envelope plaintext ≡ ok env
    → cipher.encrypt peer.key nonce plaintext (encode_header sender) ≡ some ct
    → cipher.decrypt peer.key nonce ct (encode_header sender) ≡ some plaintext
    → (frame : List ℕ) × (seal wire cipher (some nonce) env sender peer.key ≡ ok frame)
      × (open_frame wire cipher is_utf8 frame directory ≡ ok (env, sender))
unfolding seal open_frame
open_frame-seal wire cipher is_utf8 directory env sender peer nonce plaintext ct valid short size
      known encoded decoded sealed opens =
    let body : drop (length (encode_header sender)) (encode_header sender ++ (nonce ++ ct))
        ≡ nonce ++ ct =
      drop-length-append (encode_header sender) (nonce ++ ct) in
    let front : take 24 (nonce ++ ct) ≡ nonce = rw (← size) (take-length-append nonce ct) in
    let back : drop 24 (nonce ++ ct) ≡ ct = rw (← size) (drop-length-append nonce ct) in
    let long : ltb (length (nonce ++ ct)) 24 ≡ false = ground (arith, length-append nonce ct) in
    (
      encode_header sender ++ (nonce ++ ct),
      rw (encoded, sealed) refl,
      rw
          (
            parse_header-encode_header is_utf8 sender (nonce ++ ct) valid short,
            known,
            body,
            long,
            front,
            back,
            opens,
            decoded,
          )
          refl,
    )
