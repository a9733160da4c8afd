-- ===== src/Federation/Server/Origin.antt =====
-- What a node may conclude from an envelope that came in from a peer.
use rust_pipeline.Base.{
  ℕ, take, drop, length, ltb, get_elem?, if◌then◌else◌, Text, Bool, Option, none, some, List, [],
  ◌∷◌, ◌≡◌, refl, sym, ap, ◌∙◌, inl, inr, arith,
}
use rust_pipeline.Base.Result.{Result, ok, err, ok_or, map_err, >>=-eq-ok, Result-cases}
use rust_pipeline.Error.{PipelineError}
use rust_pipeline.Wire.Address.{Address}
use rust_pipeline.Wire.Provenance.{union, union_with}
use rust_pipeline.Wire.Payload.{Envelope}
use rust_pipeline.Federation.Directory.{Peer, PeerDirectory, get}
use rust_pipeline.Federation.Frame.{
  FederationError, Cipher, unknown_peer, open_failed, malformed_frame, nonce_len, open_frame,
  parse_header,
}
use rust_pipeline.Federation.Server.{
  reroot_origin, Authorizer, strip_node, map_to, check_crossing, stamp_origin, admit, receive,
}
use rust_pipeline.Pipeline.Stages.{Codec}

-- The host lets the origin reach the destination.
abbrev pub IsAuthorized : Authorizer → Address → Option Address → Type 0
IsAuthorized authorize from none = Unit
IsAuthorized authorize from (some to) = authorize from to ≡ ok tt

check_crossing-IsAuthorized :
    (authorize : Authorizer) (from : Address) (to : Option Address)
    → check_crossing authorize from to ≡ ok tt
    → IsAuthorized authorize from to
check_crossing-IsAuthorized authorize from none h = tt
check_crossing-IsAuthorized authorize from (some to) h = ground arith

ok_or-eq-ok :
    {A : Type 0} (o : Option A) (e : FederationError) {a : A} → ok_or o e ≡ ok a → o ≡ some a
ok_or-eq-ok none e h = cc
ok_or-eq-ok (some b) e h = cc

map_err-eq-ok :
    {A : Type 0} (r : Result PipelineError A) {a : A}
    → map_err FederationError.codec r ≡ ok a
    → r ≡ ok a
map_err-eq-ok (ok b) h = cc
map_err-eq-ok (err e) h = cc

module _ (wire : Codec) (cipher : Cipher) (is_utf8 : List ℕ → Bool) (node : Text)
    (directory : PeerDirectory) (authorize : Authorizer) where
  -- The bytes open under the key that this node has registered for the sender.
  pub record IsAuthentic (frame : List ℕ) (env : Envelope) (sender : Text) (peer : Peer)
      : Type 0 where
    pub header : List ℕ
    pub off : ℕ
    pub plaintext : List ℕ
    pub claimed : parse_header is_utf8 frame ≡ ok (header, sender, off)
    pub registered : get directory sender ≡ some peer
    pub opens :
        cipher.decrypt peer.key
          (take nonce_len (drop off frame))
          (drop nonce_len (drop off frame))
          header
        ≡ some plaintext
    pub decodes : wire.decode_envelope plaintext ≡ ok env

  open_frame-IsAuthentic :
      (frame : List ℕ) (env : Envelope) (sender : Text)
      → open_frame wire cipher is_utf8 frame directory ≡ ok (env, sender)
      → (peer : Peer) × IsAuthentic frame env sender peer
  unfolding open_frame
  open_frame-IsAuthentic frame env sender h =
      let ((header, claimed, off), p, then_peer) = >>=-eq-ok (parse_header is_utf8 frame) _ h in
      let (peer, q, then_length) =
        >>=-eq-ok (ok_or (get directory claimed) (unknown_peer claimed)) _ then_peer in
      let (u, long, then_open) =
        >>=-eq-ok (if ltb (length (drop off frame)) nonce_len then err malformed_frame else ok tt) _
          then_length in
      let sealed =
        cipher.decrypt peer.key (take nonce_len (drop off frame)) (drop nonce_len (drop off frame))
          header in
      let (plaintext, r, then_decode) = >>=-eq-ok (ok_or sealed open_failed) _ then_open in
      let (got, d, last) =
        >>=-eq-ok (map_err FederationError.codec (wire.decode_envelope plaintext)) _ then_decode in
      let same_env : got ≡ env = cc last in
      let same_sender : claimed ≡ sender = cc last in
      (
        peer,
        record {
          header = header;
          off = off;
          plaintext = plaintext;
          claimed = p ∙ ap (λ (t : Text). ok (header, t, off)) same_sender;
          registered =
              ap (get directory) (sym same_sender)
              ∙ ok_or-eq-ok (get directory claimed) (unknown_peer claimed) q;
          opens = ok_or-eq-ok sealed open_failed r;
          decodes =
              map_err-eq-ok (wire.decode_envelope plaintext) d
              ∙ ap (λ (e : Envelope). ok e) same_env;
        },
      )

  -- Whatever bytes come in, what they make this node deliver is an envelope that one of its peers
  -- sealed: the frame opens under the key registered for the sender that it names. The origin of the
  -- delivered envelope begins with that sender's name, whatever the envelope claimed; its
  -- provenance is the envelope's, with the labels that the host put on this peer; the host has
  -- allowed the crossing from that origin to the destination; this node's own name is stripped from the
  -- destination; thread and payload are unchanged.
  pub receive-IsAuthentic :
      (deliver : Envelope → Result Text (Unit {0})) (frame : List ℕ) (out : Envelope)
      → (receive wire cipher is_utf8 node directory authorize deliver frame).0 ≡ out ∷ []
      → (env : Envelope) × (sender : Text) × (peer : Peer) × IsAuthentic frame env sender peer
        × (get_elem? out.meta.from.segments 0 ≡ some (record { name = sender; key = none }))
        × (out.meta.provenance ≡ union env.meta.provenance peer.inbound_provenance)
        × IsAuthorized authorize out.meta.from env.meta.to
        × (out.meta.to ≡ map_to (strip_node node) env.meta.to)
        × (out.meta.thread ≡ env.meta.thread)
        × (out.payload ≡ env.payload)
  unfolding receive admit stamp_origin reroot_origin union union_with
  receive-IsAuthentic deliver frame out h =
      elim (Result-cases (admit wire cipher is_utf8 node directory authorize frame)) [
        | inr (x, e) ↦ absurd (cc (rw (e, receive) at h))
        | inl (got, e) ↦
            let same : got ≡ out = cc (rw (e, receive) at h) in
            let ((env, sender), opened, rest) =
              >>=-eq-ok (open_frame wire cipher is_utf8 frame directory) _ e in
            let from = reroot_origin env.meta.from sender in
            let (u, allowed, made) = >>=-eq-ok (check_crossing authorize from env.meta.to) _ rest in
            let (peer, authentic) = open_frame-IsAuthentic frame env sender opened in
            let is : record (stamp_origin wire cipher is_utf8 node directory authorize env sender) {
              meta =
                  record (stamp_origin wire cipher is_utf8 node directory authorize env
                    sender).meta { to = map_to (strip_node node) env.meta.to };
            }
                ≡ out =
              cc (made, same) in
            (
              env,
              sender,
              peer,
              authentic,
              rw (← is) refl,
              rw (← is, authentic.registered) refl,
              rw (← is) (check_crossing-IsAuthorized authorize from env.meta.to (cc allowed)),
              rw (← is) refl,
              rw (← is) refl,
              rw (← is) refl,
            )
      ]
