-- ===== src/Federation/Server/Links.antt =====
-- Two nodes that know one another: what one sends, the other delivers.
use mathlib.Core.List.{append_assoc}
use rust_pipeline.Base.{
  ℕ, suc, ltb, arith, ◌<◌, get_elem?, Text, text_eq_refl, Bool, true, Option, none, some, List, [],
  ◌∷◌, ◌++◌, length, ◌≡◌, refl,
}
use rust_pipeline.Base.Result.{Result, ok}
use rust_pipeline.Wire.Address.{Segment, Address}
use rust_pipeline.Wire.Provenance.{union, union_with}
use rust_pipeline.Wire.Payload.{Envelope}
use rust_pipeline.Federation.Directory.{Peer, PeerDirectory, get}
use rust_pipeline.Federation.Frame.{Cipher, encode_header, seal}
use rust_pipeline.Federation.Frame.RoundTrip.{open_frame-seal}
use rust_pipeline.Federation.Server.{
  reroot_origin, Authorizer, stamp_origin, admit, egress_frame, send, run_egress,
}
use rust_pipeline.Pipeline.Stages.{Codec}

-- What the second node delivers of an envelope that the first, `here`, sent to `to`.
pub record HasCrossed (here : Text) (rest : List Segment) (sender : Peer) (env out : Envelope)
    : Type 0 where
  pub named : get_elem? out.meta.from.segments 0 ≡ some (record { name = here; key = none })
  -- An origin of two segments or more loses its claimed node; a bare one keeps its name.
  pub rerooted :
      (claimed s : Segment) (more : List Segment)
      → env.meta.from.segments ≡ claimed ∷ s ∷ more
      → out.meta.from.segments ≡ record { name = here; key = none } ∷ s ∷ more
  pub bare :
      (s : Segment)
      → env.meta.from.segments ≡ s ∷ []
      → out.meta.from.segments ≡ record { name = here; key = none } ∷ s ∷ []
  pub stripped : out.meta.to ≡ some (record { segments = rest })
  pub labels : out.meta.provenance ≡ union env.meta.provenance sender.inbound_provenance
  pub thread : out.meta.thread ≡ env.meta.thread
  pub payload : out.payload ≡ env.payload

-- Two nodes that have registered one another with one key: what the first sends to an address of two
-- segments or more that begins with the second's name, the second delivers. The origin begins with the
-- first one's name, which stands in place of a claimed node, or before a bare name; the destination
-- has lost the second's name; the labels are the envelope's and those that the second puts on the
-- first; thread and payload are unchanged. The frame goes to the endpoint that the first has
-- registered. Asked of the parts: the first one's name is UTF-8 and shorter than 65536 bytes, the
-- nonce has its 24 bytes, the codec decodes what it encoded for this envelope, the cipher opens what
-- it sealed, and the second node's host allows the crossing.
pub admit-egress_frame :
    (wire : Codec) (cipher : Cipher) (is_utf8 : List ℕ → Bool) (here there : Text)
    (known_here known_there : PeerDirectory) (authorize_here authorize : Authorizer)
    (env : Envelope) (key : Option Text) (second : Segment) (more : List Segment)
    (receiver sender : Peer) (nonce plaintext ct : List ℕ)
    → let to : Address = record { segments = record { name = there; key = key } ∷ second ∷ more } in
      env.meta.to ≡ some to
      → get known_here there ≡ some receiver
      → get known_there here ≡ some sender
      → sender.key ≡ receiver.key
      → is_utf8 here ≡ true
      → length here < 65536
      → length nonce ≡ 24
      → wire.encode_envelope env ≡ ok plaintext
      → wire.decode_envelope plaintext ≡ ok env
      → cipher.encrypt receiver.key nonce plaintext (encode_header here) ≡ some ct
      → cipher.decrypt receiver.key nonce ct (encode_header here) ≡ some plaintext
      → authorize (reroot_origin env.meta.from here) to ≡ ok tt
      → (frame : List ℕ) × (out : Envelope) × (egress_frame wire cipher is_utf8 here known_here
            authorize_here
            (some nonce)
            env
          ≡ ok (receiver.endpoint, frame))
        × (admit wire cipher is_utf8 there known_there authorize frame ≡ ok out)
        × HasCrossed here (second ∷ more) sender env out
unfolding admit egress_frame stamp_origin reroot_origin union union_with
admit-egress_frame wire cipher is_utf8 here there known_here known_there authorize_here authorize
      env key second more receiver sender nonce plaintext ct addressed receiving sending shared
      valid short size encoded decoded sealed opens allowed =
    let (frame, made, opened) =
      open_frame-seal wire cipher is_utf8 known_there env here sender nonce plaintext ct valid short
        size sending encoded decoded (rw shared sealed) (rw shared opens) in
    let made' : seal wire cipher (some nonce) env here receiver.key ≡ ok frame =
      rw (← shared) made in
    let two : ltb 1 (suc (suc (length more))) ≡ true = ground arith in
    let out : Envelope = record env {
      meta = record env.meta {
        from = reroot_origin env.meta.from here;
        to = some (record { segments = second ∷ more });
        provenance = union_with env.meta.provenance sender.inbound_provenance;
      };
    } in
    (
      frame,
      out,
      simp (addressed, receiving, made') refl,
      simp (opened, addressed, allowed, sending, text_eq_refl there, two) refl,
      record {
        named = refl;
        rerooted = λ claimed s rest e. rw e (ground arith);
        bare = λ s e. rw e refl;
        stripped = refl;
        labels = refl;
        thread = refl;
        payload = refl;
      },
    )

-- One envelope that cannot be sent does not stop the link: the frames handed to the transport are
-- those of the envelopes before it, its own, if it has one, and those of the envelopes after it.
pub run_egress-append :
    (wire : Codec) (cipher : Cipher) (is_utf8 : List ℕ → Bool) (node : Text) (known : PeerDirectory)
    (authorize : Authorizer) (carry : Text → List ℕ → Result Text (Unit {0}))
    (before after : List (Option (List ℕ) × Envelope)) (drawn : Option (List ℕ)) (env : Envelope)
    → (run_egress wire cipher is_utf8 node known authorize carry
        (before ++ ((drawn, env) ∷ after))).0
      ≡ (run_egress wire cipher is_utf8 node known authorize carry before).0
        ++ ((send wire cipher is_utf8 node known authorize carry drawn env).0
            ++ (run_egress wire cipher is_utf8 node known authorize carry after).0)
unfolding run_egress
run_egress-append wire cipher is_utf8 node known authorize carry [] after drawn env = refl
run_egress-append wire cipher is_utf8 node known authorize carry ((d, e) ∷ before) after drawn env =
    simp (
      run_egress-append wire cipher is_utf8 node known authorize carry before after drawn env,
      append_assoc,
    )
