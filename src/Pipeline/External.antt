-- ===== src/Pipeline/External.antt =====
-- Messages on a thread that is not known: what the route stage enters, and where a reply goes.
use rust_pipeline.Base.{
  ℕ, Text, none, some, List, [], ◌∷◌, ◌++◌, ◌≡◌, refl, ap, ◌∙◌, inl, inr, last?, Option-cases,
}
use rust_pipeline.Base.HashMap
use rust_pipeline.Base.HashMap.{HashMap, get-insert_self}
use rust_pipeline.Base.Result.{ok}
use rust_pipeline.Base.Split.{split, Free, split-Free, split-append_last}
use rust_pipeline.Wire.Address.{flat}
use rust_pipeline.Wire.Payload.{Payload}
use rust_pipeline.Thread.{
  ThreadRegistry, add, lookup, get_or_create, register_thread, external_chain, prune_for_response,
  dot,
}
use rust_pipeline.Thread.Pruning.{prune_for_response_lem}
use rust_pipeline.Pipeline.Stages.{Codec, RoutedMsg, ensure_registered}
use rust_pipeline.Pipeline.Dispatch.{on_close, stamped, answer, respond_reply}
use rust_pipeline.Pipeline.Replies.{replied, answer_sent}

-- The chain of a thread that came from outside, without its last name.
abbrev pub external_prefix : ThreadRegistry → Text → Text
external_prefix threads from = elim threads.root_uuid [
  | some _ ↦ dot threads.root_chain from
  | none ↦ from
]

last-snoc : (l : List Text) (w : Text) → last? (l ++ (w ∷ [])) ≡ some w
last-snoc [] w = refl
last-snoc (x ∷ []) w = refl
last-snoc (x ∷ y ∷ r) w = last-snoc (y ∷ r) w

external_chain_lem :
    (threads : ThreadRegistry) (from target : Text)
    → external_chain threads from target ≡ dot (external_prefix threads from) target
unfolding external_chain
external_chain_lem threads from target = elim (Option-cases threads.root_uuid) [
  | inl e ↦ rw (e, external_chain) refl
  | inr (u, e) ↦ rw (e, external_chain) refl
]

external_prefix-last :
    (threads : ThreadRegistry) (from : Text)
    → Free b'.' from
    → last? (split b'.' (external_prefix threads from)) ≡ some from
external_prefix-last threads from free = elim (Option-cases threads.root_uuid) [
  | inl e ↦ rw (e, split-Free b'.' from free) refl
  | inr (u, e) ↦
      rw (e, split-append_last b'.' threads.root_chain from free)
        (last-snoc (split b'.' threads.root_chain) from)
]

get_insert_chain :
    (threads : ThreadRegistry) (thread chain : Text)
    → lookup (add threads chain thread) thread ≡ some chain
unfolding lookup add
get_insert_chain threads thread chain = get-insert_self threads.uuid_to_chain thread chain

ensure_registered_new :
    (lower : Text → Text) (threads : ThreadRegistry) (thread from target : Text)
    → lookup threads thread ≡ none
    → HashMap.get threads.chain_to_uuid (external_chain threads from target) ≡ none
    → ensure_registered lower threads thread from target
      ≡ add threads (external_chain threads from target) thread
unfolding ensure_registered register_thread lookup
ensure_registered_new lower threads thread from target e e' =
    rw (e, ensure_registered, e, register_thread, e') refl

ensure_registered_taken :
    (lower : Text → Text) (threads : ThreadRegistry) (thread from target u : Text)
    → lookup threads thread ≡ none
    → HashMap.get threads.chain_to_uuid (external_chain threads from target) ≡ some u
    → ensure_registered lower threads thread from target ≡ threads
unfolding ensure_registered register_thread lookup
ensure_registered_taken lower threads thread from target u e e' =
    rw (e, ensure_registered, e, register_thread, e') refl

-- The threads after the route stage has let a message pass.
abbrev pub entered : (Text → Text) → ThreadRegistry → Text → RoutedMsg → ThreadRegistry
entered lower threads from msg =
    ensure_registered lower threads msg.envelope.meta.thread from msg.target_name

-- The thread of the chain up to the sender, and the threads that have it.
abbrev pub sender_thread :
    (Text → Text) → ThreadRegistry → Text → Text → RoutedMsg → Text × ThreadRegistry
sender_thread lower threads fresh from msg =
    get_or_create (entered lower threads from msg) (external_prefix threads from) fresh

module _ (codec : Codec) where
  -- A message from outside, on a thread that is not known and with a chain that is not in use,
  -- from and to names without a dot: the route stage enters its thread, and a reply that can be
  -- encoded goes to the sender's listener. It does not travel on the thread of the message but on
  -- that of the chain up to the sender, which is entered if it is new.
  pub reply_external :
      (lower : Text → Text) (threads : ThreadRegistry) (fresh from : Text) (msg : RoutedMsg)
      (payload : Payload) (raw : List ℕ)
      → lookup threads msg.envelope.meta.thread ≡ none
      → HashMap.get threads.chain_to_uuid (external_chain threads from msg.target_name) ≡ none
      → Free b'.' from
      → Free b'.' msg.target_name
      → codec.encode_envelope (
          stamped msg
            (flat msg.target_name)
            (flat from)
            (sender_thread lower threads fresh from msg).0
            payload)
        ≡ ok raw
      → respond_reply codec (entered lower threads from msg) fresh msg payload
        ≡ replied codec (sender_thread lower threads fresh from msg).1 msg raw
  unfolding respond_reply lookup add
  reply_external lower threads fresh from msg payload raw unknown unused free free' sent =
      let thread = msg.envelope.meta.thread in
      let now = ensure_registered_new lower threads thread from msg.target_name unknown unused in
      let known : lookup (entered lower threads from msg) thread
          ≡ some (dot (external_prefix threads from) msg.target_name) =
        rw now (get_insert_chain threads thread (external_chain threads from msg.target_name))
        ∙ ap some (external_chain_lem threads from msg.target_name) in
      answer_sent codec msg _ _ _ payload raw
        (prune_for_response_lem (entered lower threads from msg) thread
          (external_prefix threads from) msg.target_name fresh from known free'
          (external_prefix-last threads from free))
        sent

  -- On a thread that is not known, whose chain belongs to another uuid, the route stage enters
  -- nothing, and a reply closes an edge and sends nothing.
  pub reply_taken :
      (lower : Text → Text) (threads : ThreadRegistry) (fresh from u : Text) (msg : RoutedMsg)
      (payload : Payload)
      → lookup threads msg.envelope.meta.thread ≡ none
      → HashMap.get threads.chain_to_uuid (external_chain threads from msg.target_name) ≡ some u
      → (entered lower threads from msg ≡ threads)
        × (respond_reply codec (entered lower threads from msg) fresh msg payload ≡ record {
          threads = threads;
          reinjected = [];
          events = on_close msg.envelope.meta.thread ∷ [];
        })
  unfolding respond_reply answer prune_for_response lookup
  reply_taken lower threads fresh from u msg payload unknown taken =
      let same =
        ensure_registered_taken lower threads msg.envelope.meta.thread from msg.target_name u
          unknown taken in
      (same, rw same (rw (unknown, prune_for_response) refl))
