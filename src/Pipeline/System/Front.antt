-- ===== src/Pipeline/System/Front.antt =====
-- The parser of pipeline.rs and the ingress, which the other stages leave alone: what holds of them as
-- long as the parser runs, and once it has returned.
use mathlib.Core.Path.{subst}
use rust_pipeline.Base.{
  ℕ, Text, Bool, true, false, Option, none, some, List, [], ◌∷◌, length, ltb, ◌≡◌, refl, sym, ap,
  inl, inr, All, Bool-cases,
}
use rust_pipeline.Wire.Payload.{Envelope}
use rust_pipeline.Registry.{ListenerRegistry}
use rust_pipeline.Federation.Directory.{PeerDirectory}
use rust_pipeline.Pipeline.Stages.{
  Codec, ValidatedMsg, RoutedMsg, RouteOutcome, escalated, dropped, routed, parse_stage,
  route_stage,
}
use rust_pipeline.Pipeline.System.{
  Stage, waiting, holding, ended, holds, System, give, sent, is_ended, parser_took, validator_took,
  after_routing, router_took, dispatcher_took, SystemEvent, sends, shuts_down, worker_receives,
  worker_times_out, worker_rechecks, worker_finishes, changes_threads, parser_takes, parser_gives,
  validator_takes, validator_gives, validator_ends, router_takes, router_gives, router_ends,
  dispatcher_takes, dispatcher_ends, system_step, channel_buffer,
}
use rust_pipeline.Pipeline.System.Order.{IsOrdered}
use rust_pipeline.Pipeline.System.Follows.{closed_by}
use rust_pipeline.Pipeline.System.Fates.{IsTurn, NoPanic}

give-open :
    {A : Type 0} (stage : Stage A) (gone : Bool) (queue : List A)
    → (gone ≡ true → is_ended stage ≡ true)
    → is_ended stage ≡ false
    → is_ended (give stage gone queue).0 ≡ false
give-open (holding a) true queue closed h = cc (closed refl)
give-open (holding a) false queue closed h = elim (Bool-cases (ltb (length queue) channel_buffer)) [
  | inl room ↦ rw room refl
  | inr full ↦ rw full refl
]
give-open waiting gone queue closed h = refl
give-open ended gone queue closed h = cc

holds-open : {A : Type 0} (o : Option A) → is_ended (holds o) ≡ false
holds-open none = refl
holds-open (some a) = refl

-- What the stages behind the parser leave alone.
abbrev front : System → Stage Envelope × List (List ℕ)
front s = (s.parser, s.ingress)

after_routing-front : (s : System) (out : RouteOutcome) → front (after_routing s out) ≡ front s
after_routing-front s (escalated env) = refl
after_routing-front s (dropped e) = refl
after_routing-front s (routed m) = refl

dispatcher_took-front :
    (s : System) (stage : Stage RoutedMsg) (queue : List RoutedMsg)
    → front (dispatcher_took s stage queue) ≡ front s
dispatcher_took-front s waiting [] = refl
dispatcher_took-front s waiting (m ∷ rest) = refl
dispatcher_took-front s (holding _) queue = refl
dispatcher_took-front s ended queue = refl

module _ (lower : Text → Text) (codec : Codec) (registry : ListenerRegistry)
    (federation : Option PeerDirectory) where
  validator_took-front :
      (s : System) (stage : Stage ValidatedMsg) (queue : List Envelope)
      → front (validator_took lower codec registry federation s stage queue) ≡ front s
  validator_took-front s waiting [] = refl
  validator_took-front s waiting (env ∷ rest) = refl
  validator_took-front s (holding _) queue = refl
  validator_took-front s ended queue = refl

  router_took-front :
      (s : System) (stage : Stage RoutedMsg) (queue : List ValidatedMsg)
      → front (router_took lower codec registry federation s stage queue) ≡ front s
  router_took-front s waiting [] = refl
  router_took-front s waiting (msg ∷ rest) =
      let out = route_stage lower registry federation s.threads msg in
      after_routing-front (record s { validated = rest; threads = out.1 }) out.0
  router_took-front s (holding _) queue = refl
  router_took-front s ended queue = refl

  abbrev OpenAt : Stage Envelope × List (List ℕ) → Type 0
  OpenAt f = (is_ended f.0 ≡ false) × All (NoPanic lower codec registry federation) f.1

  -- The parser runs, and the decoder panics on nothing in the ingress.
  abbrev pub IsOpen : System → Type 0
  IsOpen s = (is_ended s.parser ≡ false) × All (NoPanic lower codec registry federation) s.ingress

  parser_took-IsOpen :
      (s : System) (stage : Stage Envelope) (queue : List (List ℕ))
      → s.ingress ≡ queue
      → All (NoPanic lower codec registry federation) queue
      → IsOpen s
      → IsOpen (parser_took lower codec registry federation s stage queue)
  parser_took-IsOpen s waiting [] e calm h = h
  parser_took-IsOpen s waiting (raw ∷ rest) e calm h =
      (rw calm.0 (holds-open (parse_stage codec raw)), calm.1)
  parser_took-IsOpen s (holding _) queue e calm h = h
  parser_took-IsOpen s ended queue e calm h = h

  pub turn-IsOpen :
      (s : System) (e : SystemEvent)
      → IsTurn e
      → IsOrdered s
      → IsOpen s
      → IsOpen (system_step lower codec registry federation s e)
  unfolding system_step
  turn-IsOpen s parser_takes turn o h = parser_took-IsOpen s s.parser s.ingress refl h.1 h
  turn-IsOpen s parser_gives turn o h = (
    give-open s.parser (is_ended s.validator) s.parsed (closed_by s.validator s.parser s.parsed o.0)
        h.0,
    h.1,
  )
  turn-IsOpen s validator_takes turn o h =
      subst OpenAt (sym (validator_took-front s s.validator s.parsed)) h
  turn-IsOpen s validator_gives turn o h = h
  turn-IsOpen s validator_ends turn o h = h
  turn-IsOpen s router_takes turn o h =
      subst OpenAt (sym (router_took-front s s.router s.validated)) h
  turn-IsOpen s router_gives turn o h = h
  turn-IsOpen s router_ends turn o h = h
  turn-IsOpen s dispatcher_takes turn o h =
      subst OpenAt (sym (dispatcher_took-front s s.dispatcher s.routed_msgs)) h
  turn-IsOpen s dispatcher_ends turn o h = h
  turn-IsOpen s (sends _) turn o h = elim turn [ ]
  turn-IsOpen s shuts_down turn o h = elim turn [ ]
  turn-IsOpen s (worker_receives _) turn o h = elim turn [ ]
  turn-IsOpen s (worker_times_out _) turn o h = elim turn [ ]
  turn-IsOpen s (worker_rechecks _) turn o h = elim turn [ ]
  turn-IsOpen s (worker_finishes _) turn o h = elim turn [ ]
  turn-IsOpen s (changes_threads _) turn o h = elim turn [ ]

  -- The parser has returned, and leaves these bytes in the ingress.
  abbrev pub IsShut : List (List ℕ) → System → Type 0
  IsShut raws s = (s.parser ≡ ended) × (s.ingress ≡ raws)

  abbrev ShutAt : List (List ℕ) → Stage Envelope × List (List ℕ) → Type 0
  ShutAt raws f = (f.0 ≡ ended) × (f.1 ≡ raws)

  ended_took-front :
      (s : System) (stage : Stage Envelope) (queue : List (List ℕ))
      → stage ≡ ended
      → front (parser_took lower codec registry federation s stage queue) ≡ front s
  ended_took-front s ended queue e = refl
  ended_took-front s waiting queue e = cc
  ended_took-front s (holding _) queue e = cc

  ended_sent-front :
      (s : System) (raw : List ℕ)
      → s.parser ≡ ended
      → front (sent s raw (is_ended s.parser)) ≡ front s
  ended_sent-front s raw e = ap (λ stage. front (sent s raw (is_ended stage))) e

  pub step-IsShut :
      (raws : List (List ℕ)) (s : System) (e : SystemEvent)
      → IsShut raws s
      → IsShut raws (system_step lower codec registry federation s e)
  unfolding system_step
  step-IsShut raws s (sends raw) h = subst (ShutAt raws) (sym (ended_sent-front s raw h.0)) h
  step-IsShut raws s parser_takes h =
      subst (ShutAt raws) (sym (ended_took-front s s.parser s.ingress h.0)) h
  step-IsShut raws s parser_gives h = (rw h.0 refl, h.1)
  step-IsShut raws s shuts_down h = (rw h.0 refl, h.1)
  step-IsShut raws s validator_takes h =
      subst (ShutAt raws) (sym (validator_took-front s s.validator s.parsed)) h
  step-IsShut raws s router_takes h =
      subst (ShutAt raws) (sym (router_took-front s s.router s.validated)) h
  step-IsShut raws s dispatcher_takes h =
      subst (ShutAt raws) (sym (dispatcher_took-front s s.dispatcher s.routed_msgs)) h
  step-IsShut raws s validator_gives h = h
  step-IsShut raws s validator_ends h = h
  step-IsShut raws s router_gives h = h
  step-IsShut raws s router_ends h = h
  step-IsShut raws s dispatcher_ends h = h
  step-IsShut raws s (worker_receives c) h = h
  step-IsShut raws s (worker_times_out c) h = h
  step-IsShut raws s (worker_rechecks c) h = h
  step-IsShut raws s (worker_finishes c) h = h
  step-IsShut raws s (changes_threads threads) h = h
