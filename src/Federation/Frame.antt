-- ===== src/Federation/Frame.antt =====
-- The frame of federation.rs: the header, `seal` and `open`. The cipher (XChaCha20Poly1305) is a
-- parameter, and so are the nonce that `getrandom` draws and the UTF-8 test of the standard library.
pub mod RoundTrip
use rust_pipeline.Base.{
  ℕ, ◌+◌, ◌*◌, ◌/◌, ◌%◌, Text, Bool, true, false, not, Option, none, some, List, [], ◌∷◌, ◌++◌,
  length, take, drop, ltb, ◌==◌, if◌then◌else◌,
}
use rust_pipeline.Base.Result.{Result, ok, err, ok_or, map_err, ◌>>=◌, ◌>>◌}
use rust_pipeline.Error.{PipelineError}
use rust_pipeline.Wire.Payload.{Envelope}
use rust_pipeline.Federation.Directory.{PeerKey, PeerDirectory, get}
use rust_pipeline.Pipeline.Stages.{Codec}

pub data FederationError : Type 0 where
  unknown_peer : Text → FederationError
  malformed_frame : FederationError
  unsupported_version unsupported_auth : ℕ → FederationError
  open_failed nonce_failed no_destination : FederationError
  not_remote transport delivery unauthorized : Text → FederationError
  codec : PipelineError → FederationError

abbrev pub FederationResult {ℓ} : Type ℓ → Type ℓ
FederationResult A = Result FederationError A

-- Key, nonce, text and associated data; `none` where the call fails.
pub record Cipher : Type 0 where
  pub encrypt : PeerKey → List ℕ → List ℕ → List ℕ → Option (List ℕ)
  pub decrypt : PeerKey → List ℕ → List ℕ → List ℕ → Option (List ℕ)

abbrev pub version : ℕ
version = 1

abbrev pub auth_psk : ℕ
auth_psk = 0

abbrev pub nonce_len : ℕ
nonce_len = 24

-- `n as u16`, big endian.
abbrev pub u16_bytes : ℕ → List ℕ
u16_bytes n = (n % 65536) / 256 ∷ (n % 256) ∷ []

unfoldable pub encode_header : Text → List ℕ
encode_header sender = version ∷ auth_psk ∷ (u16_bytes (length sender) ++ sender)

-- The header, the sender that it claims, and where the body begins.
unfoldable pub parse_header : (List ℕ → Bool) → List ℕ → FederationResult (List ℕ × Text × ℕ)
parse_header is_utf8 (v ∷ a ∷ hi ∷ lo ∷ rest) =
    let len = hi * 256 + lo in
    if not (v == version)
    then err (unsupported_version v)
    else if not (a == auth_psk)
    then err (unsupported_auth a)
    else if ltb (4 + length rest) (4 + len)
    then err malformed_frame
    else if is_utf8 (take len rest)
    then ok (take (4 + len) (v ∷ a ∷ hi ∷ lo ∷ rest), take len rest, 4 + len)
    else err malformed_frame
parse_header is_utf8 _ = err malformed_frame

module _ (wire : Codec) (cipher : Cipher) where
  unfoldable pub seal : Option (List ℕ) → Envelope → Text → PeerKey → FederationResult (List ℕ)
  unfolding encode_header
  seal drawn env sender key = do
    plaintext ← map_err FederationError.codec (wire.encode_envelope env)
    nonce ← ok_or drawn nonce_failed
    ct ← ok_or (cipher.encrypt key nonce plaintext (encode_header sender)) open_failed
    ok (encode_header sender ++ (nonce ++ ct))

  unfoldable pub open_frame :
      (List ℕ → Bool) → List ℕ → PeerDirectory → FederationResult (Envelope × Text)
  unfolding parse_header
  open_frame is_utf8 frame directory = do
    (header, sender, body_off) ← parse_header is_utf8 frame
    peer ← ok_or (get directory sender) (unknown_peer sender)
    if ltb (length (drop body_off frame)) nonce_len then err malformed_frame else ok tt
    plaintext ←
        ok_or
          (cipher.decrypt peer.key (take nonce_len (drop body_off frame))
            (drop nonce_len (drop body_off frame)) header)
          open_failed
    env ← map_err FederationError.codec (wire.decode_envelope plaintext)
    ok (env, sender)
