-- ===== src/Pipeline/System/Settling.antt =====
-- The turns of the stage tasks of pipeline.rs as steps towards a state in which no turn is left.
use rust_pipeline.Base.{
  ℕ, suc, ◌+◌, ◌*◌, ◌≤◌, ◌<◌, Text, Bool, true, false, Option, none, some, List, [], ◌∷◌, length,
  length-append, ltb, ◌≡◌, refl, ap, ◌⊎◌, inl, inr, arith, Bool-cases, if◌then◌else◌,
}
use rust_pipeline.Wire.Payload.{Envelope}
use rust_pipeline.Registry.{ListenerRegistry}
use rust_pipeline.Federation.Directory.{PeerDirectory}
use rust_pipeline.Pipeline.Stages.{
  Codec, ValidatedMsg, RoutedMsg, RouteOutcome, escalated, dropped, routed, parse_stage,
  validate_stage, route_stage,
}
use rust_pipeline.Pipeline.System.{
  Stage, waiting, holding, ended, holds, System, give, close, is_ended, parser_took, validator_took,
  after_routing, router_took, dispatcher_took, SystemEvent, sends, shuts_down, worker_receives,
  worker_times_out, worker_rechecks, worker_finishes, changes_threads, parser_takes, parser_gives,
  validator_takes, validator_gives, validator_ends, router_takes, router_gives, router_ends,
  dispatcher_takes, dispatcher_ends, system_step, channel_buffer,
}
use rust_pipeline.Pipeline.System.Order.{IsOrdered}
use rust_pipeline.Pipeline.System.Follows.{closed_by}
use rust_pipeline.Pipeline.System.Fates.{IsTurn}

abbrev pub held : {A : Type 0} → Stage A → ℕ
held (holding a) = 1
held waiting = 0
held ended = 0

abbrev pub alive : {A : Type 0} → Stage A → ℕ
alive (holding a) = 1
alive waiting = 1
alive ended = 0

-- The turns that the messages on their way need at most, and those in which the tasks return.
abbrev pub turns_left : System → ℕ
turns_left s =
    7 * length s.ingress
    + 6 * held s.parser
    + 5 * length s.parsed
    + 4 * held s.validator
    + 3 * length s.validated
    + 2 * held s.router
    + length s.routed_msgs
    + alive s.parser
    + alive s.validator
    + alive s.router
    + alive s.dispatcher

abbrev pub AllEnded : System → Type 0
AllEnded s =
    (s.parser ≡ ended) × (s.validator ≡ ended) × (s.router ≡ ended) × (s.dispatcher ≡ ended)

abbrev pub AllWaiting : System → Type 0
AllWaiting s =
    (s.ingress ≡ [])
    × (s.parser ≡ waiting)
    × (s.validator ≡ waiting)
    × (s.router ≡ waiting)
    × (s.dispatcher ≡ waiting)

-- Nothing is on its way behind the parser, and all tasks wait for what is sent, or have returned.
abbrev pub IsSettled : System → Type 0
IsSettled s =
    (s.parsed ≡ []) × (s.validated ≡ []) × (s.routed_msgs ≡ []) × (AllWaiting s ⊎ AllEnded s)

-- A turn leaves everything as it is, or some work is done.
abbrev Advances : System → System → Type 0
Advances s s' = (s' ≡ s) ⊎ (turns_left s' < turns_left s)

pub holds-le : {A : Type 0} (o : Option A) → (held (holds o) ≤ 1) × (alive (holds o) ≡ 1)
holds-le none = (omega arith, refl)
holds-le (some a) = (omega arith, refl)

give-moves :
    {A : Type 0} (stage : Stage A) (gone : Bool) (queue : List A)
    → (gone ≡ true → is_ended stage ≡ true)
    → (give stage gone queue ≡ (stage, queue))
      ⊎ ((held stage ≡ 1)
          × (held (give stage gone queue).0 ≡ 0)
          × (length (give stage gone queue).1 ≡ suc (length queue))
          × (alive (give stage gone queue).0 ≡ alive stage))
give-moves (holding a) true queue closed = cc (closed refl)
give-moves (holding a) false queue closed = elim (Bool-cases (ltb (length queue) channel_buffer)) [
  | inl room ↦ rw room (inr (refl, refl, omega (arith, length-append queue (a ∷ [])), refl))
  | inr full ↦ rw full (inl refl)
]
give-moves waiting gone queue closed = inl refl
give-moves ended gone queue closed = inl refl

close-moves :
    {A B : Type 0} (stage : Stage A) (gone : Bool) (queue : List B)
    → (close stage gone queue ≡ stage)
      ⊎ ((held (close stage gone queue) ≡ held stage)
          × (alive (close stage gone queue) < alive stage))
close-moves waiting true [] = inr (refl, omega arith)
close-moves waiting true (_ ∷ _) = inl refl
close-moves waiting false queue = inl refl
close-moves (holding a) gone queue = inl refl
close-moves ended gone queue = inl refl

dispatcher_took-Advances :
    (s : System) (stage : Stage RoutedMsg) (queue : List RoutedMsg)
    → s.routed_msgs ≡ queue
    → Advances s (dispatcher_took s stage queue)
dispatcher_took-Advances s waiting [] e = inl refl
dispatcher_took-Advances s waiting (m ∷ rest) e = let size = ap length e in inr (omega arith)
dispatcher_took-Advances s (holding _) queue e = inl refl
dispatcher_took-Advances s ended queue e = inl refl

pub after_routing-le :
    (s : System) (out : RouteOutcome)
    → s.router ≡ waiting
    → turns_left (after_routing s out) ≤ turns_left s + 2
after_routing-le s (escalated env) e = omega arith
after_routing-le s (dropped x) e = omega arith
after_routing-le s (routed m) e = let free = ap held e in let running = ap alive e in omega arith

pub decoded-le :
    (panics : Bool) (o : Option Envelope)
    → let stage = if panics then ended else holds o in (held stage ≤ 1) × (alive stage ≤ 1)
decoded-le true o = (omega arith, omega arith)
decoded-le false none = (omega arith, omega arith)
decoded-le false (some env) = (omega arith, omega arith)

module _ (lower : Text → Text) (codec : Codec) (registry : ListenerRegistry)
    (federation : Option PeerDirectory) where
  abbrev step : System → SystemEvent → System
  step s e = system_step lower codec registry federation s e

  parser_took-Advances :
      (s : System) (stage : Stage Envelope) (queue : List (List ℕ))
      → s.parser ≡ stage
      → s.ingress ≡ queue
      → Advances s (parser_took lower codec registry federation s stage queue)
  parser_took-Advances s waiting [] e e' = inl refl
  parser_took-Advances s waiting (raw ∷ rest) e e' =
      let size = ap length e' in
      let running = ap alive e in
      let (le, le') = decoded-le (codec.decode_panics raw) (parse_stage codec raw) in
      inr (omega arith)
  parser_took-Advances s (holding _) queue e e' = inl refl
  parser_took-Advances s ended queue e e' = inl refl

  validator_took-Advances :
      (s : System) (stage : Stage ValidatedMsg) (queue : List Envelope)
      → s.validator ≡ stage
      → s.parsed ≡ queue
      → Advances s (validator_took lower codec registry federation s stage queue)
  validator_took-Advances s waiting [] e e' = inl refl
  validator_took-Advances s waiting (env ∷ rest) e e' =
      let size = ap length e' in
      let running = ap alive e in
      let (le, same) = holds-le (validate_stage registry env) in inr (omega arith)
  validator_took-Advances s (holding _) queue e e' = inl refl
  validator_took-Advances s ended queue e e' = inl refl

  router_took-Advances :
      (s : System) (stage : Stage RoutedMsg) (queue : List ValidatedMsg)
      → s.router ≡ stage
      → s.validated ≡ queue
      → Advances s (router_took lower codec registry federation s stage queue)
  router_took-Advances s waiting [] e e' = inl refl
  router_took-Advances s waiting (msg ∷ rest) e e' =
      let size = ap length e' in
      let out = route_stage lower registry federation s.threads msg in
      let le = after_routing-le (record s { validated = rest; threads = out.1 }) out.0 e in
      inr (omega arith)
  router_took-Advances s (holding _) queue e e' = inl refl
  router_took-Advances s ended queue e e' = inl refl

  pub turn-Advances :
      (s : System) (e : SystemEvent) → IsTurn e → IsOrdered s → Advances s (step s e)
  unfolding system_step
  turn-Advances s parser_takes turn h = parser_took-Advances s s.parser s.ingress refl refl
  turn-Advances s parser_gives turn h =
      elim (give-moves s.parser (is_ended s.validator) s.parsed
        (closed_by s.validator s.parser s.parsed h.0)) [
          | inl e ↦ inl (ap (λ out. record s { parser = out.0; parsed = out.1 }) e)
          | inr (a, b, c, d) ↦ inr (omega arith)
        ]
  turn-Advances s validator_takes turn h = validator_took-Advances s s.validator s.parsed refl refl
  turn-Advances s validator_gives turn h =
      elim (give-moves s.validator (is_ended s.router) s.validated
        (closed_by s.router s.validator s.validated h.1)) [
          | inl e ↦ inl (ap (λ out. record s { validator = out.0; validated = out.1 }) e)
          | inr (a, b, c, d) ↦ inr (omega arith)
        ]
  turn-Advances s validator_ends turn h =
      elim (close-moves s.validator (is_ended s.parser) s.parsed) [
        | inl e ↦ inl (ap (λ stage. record s { validator = stage }) e)
        | inr (a, b) ↦ inr (omega arith)
      ]
  turn-Advances s router_takes turn h = router_took-Advances s s.router s.validated refl refl
  turn-Advances s router_gives turn h =
      elim (give-moves s.router (is_ended s.dispatcher) s.routed_msgs
        (closed_by s.dispatcher s.router s.routed_msgs h.2)) [
          | inl e ↦ inl (ap (λ out. record s { router = out.0; routed_msgs = out.1 }) e)
          | inr (a, b, c, d) ↦ inr (omega arith)
        ]
  turn-Advances s router_ends turn h =
      elim (close-moves s.router (is_ended s.validator) s.validated) [
        | inl e ↦ inl (ap (λ stage. record s { router = stage }) e)
        | inr (a, b) ↦ inr (omega arith)
      ]
  turn-Advances s dispatcher_takes turn h =
      dispatcher_took-Advances s s.dispatcher s.routed_msgs refl
  turn-Advances s dispatcher_ends turn h =
      elim (close-moves s.dispatcher (is_ended s.router) s.routed_msgs) [
        | inl e ↦ inl (ap (λ stage. record s { dispatcher = stage }) e)
        | inr (a, b) ↦ inr (omega arith)
      ]
  turn-Advances s (sends _) turn h = elim turn [ ]
  turn-Advances s shuts_down turn h = elim turn [ ]
  turn-Advances s (worker_receives _) turn h = elim turn [ ]
  turn-Advances s (worker_times_out _) turn h = elim turn [ ]
  turn-Advances s (worker_rechecks _) turn h = elim turn [ ]
  turn-Advances s (worker_finishes _) turn h = elim turn [ ]
  turn-Advances s (changes_threads _) turn h = elim turn [ ]
