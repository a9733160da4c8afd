-- ===== src/Pipeline/System/Delivery.antt =====
-- What becomes of the messages that are on their way through the stages of pipeline.rs, when no worker
-- and no sender moves.
use mathlib.Core.List.{append_assoc, append-nil}
use rust_pipeline.Base.{
  ℕ, Text, Bool, true, false, Option, List, [], ◌∷◌, ◌++◌, length, ltb, ◌≡◌, refl, sym, ap, ◌∙◌,
  arith, Bool-cases, inl, inr, All,
}
use rust_pipeline.Wire.Payload.{Envelope}
use rust_pipeline.Registry.{ListenerRegistry}
use rust_pipeline.Thread
use rust_pipeline.Thread.{ThreadRegistry}
use rust_pipeline.Federation.Directory.{PeerDirectory}
use rust_pipeline.Pipeline.Stages.{
  Codec, ValidatedMsg, RoutedMsg, RouteOutcome, escalated, dropped, routed, parse_stage,
  validate_stage, route_stage,
}
use rust_pipeline.Pipeline.System.{
  Stage, waiting, holding, ended, holds, System, give, close, is_ended, parser_took, validator_took,
  after_routing, router_took, dispatcher_took, SystemEvent, sends, shuts_down, worker_receives,
  worker_times_out, worker_rechecks, worker_finishes, changes_threads, parser_takes, parser_gives,
  validator_takes, validator_gives, validator_ends, router_takes, router_gives, router_ends,
  dispatcher_takes, dispatcher_ends, system_step, channel_buffer,
}
use rust_pipeline.Pipeline.System.Order.{IsOrdered}
use rust_pipeline.Pipeline.System.Follows.{closed_by}
use rust_pipeline.Pipeline.System.Fates.{
  in_hand, readable, readable-holds, dispatch_all, for_dispatch, for_federation, IsTurn, outcomes,
  validated_of, parsed_of, unvalidated, unrouted, to_dispatch, to_escalate, Delivers, IsCalm,
  NoPanic,
}

module _ (lower : Text → Text) (codec : Codec) (registry : ListenerRegistry)
    (federation : Option PeerDirectory) where
  same-Delivers :
      (s s' : System)
      → s'.pool ≡ s.pool
      → s'.escalated_msgs ≡ s.escalated_msgs
      → s'.routed_msgs ++ in_hand s'.router ≡ s.routed_msgs ++ in_hand s.router
      → unrouted lower codec registry federation s' ≡ unrouted lower codec registry federation s
      → Delivers lower codec registry federation s s'
  same-Delivers s s' e e' f g = (
    rw (e, f)
        (ap
          (λ l. dispatch_all s.pool (
            (s.routed_msgs ++ in_hand s.router)
            ++ for_dispatch (outcomes lower codec registry federation l)))
          g),
    rw e' (
        ap (λ l. s.escalated_msgs ++ for_federation (outcomes lower codec registry federation l))
          g),
  )

  give-keeps :
      {A : Type 0} (stage : Stage A) (gone : Bool) (queue : List A)
      → (gone ≡ true → is_ended stage ≡ true)
      → (give stage gone queue).1 ++ in_hand (give stage gone queue).0 ≡ queue ++ in_hand stage
  give-keeps (holding a) true queue closed = cc (closed refl)
  give-keeps (holding a) false queue closed =
      elim (Bool-cases (ltb (length queue) channel_buffer)) [
        | inl room ↦ rw room (append-nil (queue ++ (a ∷ [])))
        | inr full ↦ rw full refl
      ]
  give-keeps waiting gone queue closed = refl
  give-keeps ended gone queue closed = refl

  close-keeps :
      {A B : Type 0} (stage : Stage A) (gone : Bool) (queue : List B)
      → in_hand (close stage gone queue) ≡ in_hand stage
  close-keeps waiting true [] = refl
  close-keeps waiting true (_ ∷ _) = refl
  close-keeps waiting false queue = refl
  close-keeps (holding a) gone queue = refl
  close-keeps ended gone queue = refl

  route_stage-threads :
      (threads threads' : ThreadRegistry) (msg : ValidatedMsg)
      → (route_stage lower registry federation threads msg).0
        ≡ (route_stage lower registry federation threads' msg).0
  unfolding route_stage
  route_stage-threads threads threads' msg = ground arith

  -- A message whose outcome is decided leaves the head of what is on its way.
  decided-Delivers :
      (s : System) (out : RouteOutcome)
      → s.router ≡ waiting
      → let s' = after_routing s out in
        (dispatch_all s'.pool (to_dispatch lower codec registry federation s')
          ≡ dispatch_all s.pool (
              (s.routed_msgs ++ [])
              ++ for_dispatch (
                  out
                  ∷ outcomes lower codec registry federation
                      (unrouted lower codec registry federation s))))
        × (s'.escalated_msgs ++ to_escalate lower codec registry federation s'
            ≡ s.escalated_msgs
              ++ for_federation (
                  out
                  ∷ outcomes lower codec registry federation
                      (unrouted lower codec registry federation s)))
  decided-Delivers s (dropped x) e = (rw e refl, refl)
  decided-Delivers s (escalated env) e = (
    rw e refl,
    append_assoc s.escalated_msgs (env ∷ []) (to_escalate lower codec registry federation s),
  )
  decided-Delivers s (routed m) e = (
    rw (append-nil s.routed_msgs) (
        ap (dispatch_all s.pool) (
          append_assoc s.routed_msgs (m ∷ []) (
            for_dispatch (
              outcomes lower codec registry federation
                (unrouted lower codec registry federation s))))),
    refl,
  )

  router_took-Delivers :
      (s : System) (stage : Stage RoutedMsg) (queue : List ValidatedMsg)
      → s.router ≡ stage
      → s.validated ≡ queue
      → Delivers lower codec registry federation s
          (router_took lower codec registry federation s stage queue)
  router_took-Delivers s waiting [] e e' = (refl, refl)
  router_took-Delivers s waiting (msg ∷ rest) e e' =
      let out = route_stage lower registry federation s.threads msg in
      let (sent_on, given) =
        decided-Delivers (record s { validated = rest; threads = out.1 }) out.0 e in
      let head : outcomes lower codec registry federation
            (unrouted lower codec registry federation s)
          ≡ out.0
            ∷ outcomes lower codec registry federation (
                (rest ++ in_hand s.validator)
                ++ validated_of lower codec registry federation
                    (unvalidated lower codec registry federation s)) =
        rw (e', route_stage-threads Thread.new s.threads msg) refl in
      (
        sent_on
            ∙ ap (λ l. dispatch_all s.pool ((s.routed_msgs ++ []) ++ for_dispatch l)) (sym head)
            ∙ rw e refl,
        given ∙ ap (λ l. s.escalated_msgs ++ for_federation l) (sym head),
      )
  router_took-Delivers s (holding _) queue e e' = (refl, refl)
  router_took-Delivers s ended queue e e' = (refl, refl)

  validator_took-Delivers :
      (s : System) (stage : Stage ValidatedMsg) (queue : List Envelope)
      → s.validator ≡ stage
      → s.parsed ≡ queue
      → Delivers lower codec registry federation s
          (validator_took lower codec registry federation s stage queue)
  validator_took-Delivers s waiting [] e e' = (refl, refl)
  validator_took-Delivers s waiting (env ∷ rest) e e' =
      let valid = in_hand (holds (validate_stage registry env)) in
      same-Delivers s (validator_took lower codec registry federation s waiting (env ∷ rest)) refl
        refl refl
        (rw (e, e', append-nil s.validated)
          (append_assoc s.validated valid (
            validated_of lower codec registry federation (
              (rest ++ in_hand s.parser)
              ++ parsed_of lower codec registry federation (readable s.parser s.ingress)))))
  validator_took-Delivers s (holding _) queue e e' = (refl, refl)
  validator_took-Delivers s ended queue e e' = (refl, refl)

  parser_took-Delivers :
      (s : System) (stage : Stage Envelope) (queue : List (List ℕ))
      → s.parser ≡ stage
      → s.ingress ≡ queue
      → (is_ended stage ≡ false → All (NoPanic lower codec registry federation) queue)
      → Delivers lower codec registry federation s
          (parser_took lower codec registry federation s stage queue)
  parser_took-Delivers s waiting [] e e' calm = (refl, refl)
  parser_took-Delivers s waiting (raw ∷ rest) e e' calm =
      let parsed = in_hand (holds (parse_stage codec raw)) in
      same-Delivers s (parser_took lower codec registry federation s waiting (raw ∷ rest)) refl refl
        refl
        (ap
          (λ (l : List Envelope).
            (s.validated ++ in_hand s.validator) ++ validated_of lower codec registry federation l)
          (rw ((calm refl).0, readable-holds (parse_stage codec raw) rest)
            (append_assoc s.parsed parsed (parsed_of lower codec registry federation rest)
              ∙ rw (e, e')
                  (ap (λ l. l ++ (parsed ++ parsed_of lower codec registry federation rest))
                    (sym (append-nil s.parsed))))))
  parser_took-Delivers s (holding _) queue e e' calm = (refl, refl)
  parser_took-Delivers s ended queue e e' calm = (refl, refl)

  readable-give :
      (stage : Stage Envelope) (gone : Bool) (queue : List Envelope) (raws : List (List ℕ))
      → (gone ≡ true → is_ended stage ≡ true)
      → readable (give stage gone queue).0 raws ≡ readable stage raws
  readable-give (holding a) true queue raws closed = cc (closed refl)
  readable-give (holding a) false queue raws closed =
      elim (Bool-cases (ltb (length queue) channel_buffer)) [
        | inl room ↦ rw room refl
        | inr full ↦ rw full refl
      ]
  readable-give waiting gone queue raws closed = refl
  readable-give ended gone queue raws closed = refl

  calm_ingress :
      (s : System)
      → IsCalm lower codec registry federation s
      → is_ended s.parser ≡ false
      → All (NoPanic lower codec registry federation) s.ingress
  calm_ingress s (inl e) alive = absurd (cc (rw e at alive))
  calm_ingress s (inr (h, calm)) alive = calm

  dispatcher_took-Delivers :
      (s : System) (stage : Stage RoutedMsg) (queue : List RoutedMsg)
      → s.routed_msgs ≡ queue
      → Delivers lower codec registry federation s (dispatcher_took s stage queue)
  dispatcher_took-Delivers s waiting [] e = (refl, refl)
  dispatcher_took-Delivers s waiting (m ∷ rest) e = (rw e refl, refl)
  dispatcher_took-Delivers s (holding _) queue e = (refl, refl)
  dispatcher_took-Delivers s ended queue e = (refl, refl)

  pub turn-Delivers :
      (s : System) (e : SystemEvent)
      → IsTurn e
      → IsOrdered s
      → IsCalm lower codec registry federation s
      → Delivers lower codec registry federation s (system_step lower codec registry federation s e)
  unfolding system_step
  turn-Delivers s parser_takes turn h calm =
      parser_took-Delivers s s.parser s.ingress refl refl (calm_ingress s calm)
  turn-Delivers s parser_gives turn h calm =
      let closed = closed_by s.validator s.parser s.parsed h.0 in
      same-Delivers s (system_step lower codec registry federation s parser_gives) refl refl refl (
        rw
          (
            give-keeps s.parser (is_ended s.validator) s.parsed closed,
            readable-give s.parser (is_ended s.validator) s.parsed s.ingress closed,
          )
          refl)
  turn-Delivers s validator_takes turn h calm =
      validator_took-Delivers s s.validator s.parsed refl refl
  turn-Delivers s validator_gives turn h calm =
      same-Delivers s (system_step lower codec registry federation s validator_gives) refl refl refl
        (ap
          (λ (l : List ValidatedMsg).
            l
            ++ validated_of lower codec registry federation
                (unvalidated lower codec registry federation s))
          (give-keeps s.validator (is_ended s.router) s.validated
            (closed_by s.router s.validator s.validated h.1)))
  turn-Delivers s validator_ends turn h calm =
      same-Delivers s (system_step lower codec registry federation s validator_ends) refl refl refl
        (rw (close-keeps s.validator (is_ended s.parser) s.parsed) refl)
  turn-Delivers s router_takes turn h calm = router_took-Delivers s s.router s.validated refl refl
  turn-Delivers s router_gives turn h calm =
      same-Delivers s (system_step lower codec registry federation s router_gives) refl refl
        (give-keeps s.router (is_ended s.dispatcher) s.routed_msgs
          (closed_by s.dispatcher s.router s.routed_msgs h.2))
        refl
  turn-Delivers s router_ends turn h calm =
      same-Delivers s (system_step lower codec registry federation s router_ends) refl refl
        (rw (close-keeps s.router (is_ended s.validator) s.validated) refl) refl
  turn-Delivers s dispatcher_takes turn h calm =
      dispatcher_took-Delivers s s.dispatcher s.routed_msgs refl
  turn-Delivers s dispatcher_ends turn h calm = (refl, refl)
  turn-Delivers s (sends _) turn h calm = elim turn [ ]
  turn-Delivers s shuts_down turn h calm = elim turn [ ]
  turn-Delivers s (worker_receives _) turn h calm = elim turn [ ]
  turn-Delivers s (worker_times_out _) turn h calm = elim turn [ ]
  turn-Delivers s (worker_rechecks _) turn h calm = elim turn [ ]
  turn-Delivers s (worker_finishes _) turn h calm = elim turn [ ]
  turn-Delivers s (changes_threads _) turn h calm = elim turn [ ]
