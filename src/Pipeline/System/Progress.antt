-- ===== src/Pipeline/System/Progress.antt =====
-- The states of the tasks of pipeline.rs in which a turn is left, and those in which none is.
use rust_pipeline.Base.{
  ℕ, ◌<◌, Text, Bool, Option, List, [], ◌∷◌, ◌≡◌, refl, ap, ◌⊎◌, inl, inr, arith,
}
use rust_pipeline.Wire.Payload.{Envelope}
use rust_pipeline.Registry.{ListenerRegistry}
use rust_pipeline.Thread.{ThreadRegistry}
use rust_pipeline.Federation.Directory.{PeerDirectory}
use rust_pipeline.Pipeline.Stages.{
  Codec, ValidatedMsg, RoutedMsg, parse_stage, validate_stage, route_stage,
}
use rust_pipeline.Pipeline.Workers.{Pool}
use rust_pipeline.Pipeline.System.{
  Stage, waiting, holding, ended, System, give, close, is_ended, SystemEvent, sends, shuts_down,
  worker_receives, worker_times_out, worker_rechecks, worker_finishes, changes_threads,
  parser_takes, parser_gives, validator_takes, validator_gives, validator_ends, router_takes,
  router_gives, router_ends, dispatcher_takes, dispatcher_ends, system_step,
}
use rust_pipeline.Pipeline.System.Order.{IsOrdered}
use rust_pipeline.Pipeline.System.Fates.{IsTurn}
use rust_pipeline.Pipeline.System.Settling.{
  turns_left, IsSettled, holds-le, decoded-le, after_routing-le,
}

give-stays :
    {A : Type 0} (stage : Stage A) (gone : Bool) (queue : List A)
    → (stage ≡ waiting) ⊎ (stage ≡ ended)
    → give stage gone queue ≡ (stage, queue)
give-stays waiting gone queue h = refl
give-stays ended gone queue h = refl
give-stays (holding a) gone queue (inl e) = cc
give-stays (holding a) gone queue (inr e) = cc

close-stays :
    {A B C : Type 0} (stage : Stage A) (before : Stage C) (queue : List B)
    → (before ≡ waiting) ⊎ (stage ≡ ended)
    → close stage (is_ended before) queue ≡ stage
close-stays ended before queue h = refl
close-stays (holding a) before queue h = refl
close-stays waiting before queue (inl e) = rw e refl
close-stays waiting before queue (inr e) = cc

-- The tasks of a settled state, one by one.
abbrev Rests : {A : Type 0} → Stage A → Type 0
Rests stage = (stage ≡ waiting) ⊎ (stage ≡ ended)

rest_of : (s : System) → IsSettled s → Rests s.parser × Rests s.validator × Rests s.router
rest_of s (a, b, c, inl (i, p, v, r, d)) = (inl p, inl v, inl r)
rest_of s (a, b, c, inr (p, v, r, d)) = (inr p, inr v, inr r)

module _ (lower : Text → Text) (codec : Codec) (registry : ListenerRegistry)
    (federation : Option PeerDirectory) where
  abbrev step : System → SystemEvent → System
  step s e = system_step lower codec registry federation s e

  -- Work that can be done.
  abbrev Move : System → Type 0
  Move s = (e : SystemEvent) × IsTurn e × (turns_left (step s e) < turns_left s)

  next_turn :
      (dispatcher : Stage RoutedMsg) (routed_msgs : List RoutedMsg) (router : Stage RoutedMsg)
      (validated : List ValidatedMsg) (validator : Stage ValidatedMsg) (parsed : List Envelope)
      (parser : Stage Envelope) (ingress : List (List ℕ)) (pool : Pool) (threads : ThreadRegistry)
      (escalated_msgs : List Envelope)
      → let s : System = record {
        ingress = ingress;
        parser = parser;
        parsed = parsed;
        validator = validator;
        validated = validated;
        router = router;
        routed_msgs = routed_msgs;
        dispatcher = dispatcher;
        pool = pool;
        threads = threads;
        escalated_msgs = escalated_msgs;
      } in
        IsOrdered s → IsSettled s ⊎ Move s
  unfolding system_step
  next_turn waiting (m ∷ rs) r vs v ps p i pool t x h = inr (dispatcher_takes, tt, omega arith)
  next_turn waiting [] (holding m) vs v ps p i pool t x h = inr (router_gives, tt, omega arith)
  next_turn waiting [] ended vs v ps p i pool t x h = inr (dispatcher_ends, tt, omega arith)
  next_turn waiting [] waiting (msg ∷ vs) v ps p i pool t x h =
      let s : System = record {
        ingress = i;
        parser = p;
        parsed = ps;
        validator = v;
        validated = vs;
        router = waiting;
        routed_msgs = [];
        dispatcher = waiting;
        pool = pool;
        threads = (route_stage lower registry federation t msg).1;
        escalated_msgs = x;
      } in
      let le = after_routing-le s (route_stage lower registry federation t msg).0 refl in
      inr (router_takes, tt, omega arith)
  next_turn waiting [] waiting [] (holding msg) ps p i pool t x h =
      inr (validator_gives, tt, omega arith)
  next_turn waiting [] waiting [] ended ps p i pool t x h = inr (router_ends, tt, omega arith)
  next_turn waiting [] waiting [] waiting (env ∷ ps) p i pool t x h =
      let (le, same) = holds-le (validate_stage registry env) in
      inr (validator_takes, tt, omega arith)
  next_turn waiting [] waiting [] waiting [] (holding env) i pool t x h =
      inr (parser_gives, tt, omega arith)
  next_turn waiting [] waiting [] waiting [] ended i pool t x h =
      inr (validator_ends, tt, omega arith)
  next_turn waiting [] waiting [] waiting [] waiting (raw ∷ i) pool t x h =
      let (le, le') = decoded-le (codec.decode_panics raw) (parse_stage codec raw) in
      inr (parser_takes, tt, omega arith)
  next_turn waiting [] waiting [] waiting [] waiting [] pool t x h =
      inl (refl, refl, refl, inl (refl, refl, refl, refl, refl))
  next_turn ended rs ended vs ended ps ended i pool t x h =
      inl (h.0.1, h.1.1, h.2.1, inr (refl, refl, refl, refl))
  next_turn ended rs ended vs ended ps waiting i pool t x h = cc (h.0.0)
  next_turn ended rs ended vs ended ps (holding _) i pool t x h = cc (h.0.0)
  next_turn ended rs ended vs waiting ps p i pool t x h = cc (h.1.0)
  next_turn ended rs ended vs (holding _) ps p i pool t x h = cc (h.1.0)
  next_turn ended rs waiting vs v ps p i pool t x h = cc (h.2.0)
  next_turn ended rs (holding _) vs v ps p i pool t x h = cc (h.2.0)
  next_turn (holding _) rs r vs v ps p i pool t x h = elim h.3 [ ]

  pub IsSettled-or_moves : (s : System) → IsOrdered s → IsSettled s ⊎ Move s
  IsSettled-or_moves s h =
      next_turn s.dispatcher s.routed_msgs s.router s.validated s.validator s.parsed s.parser
        s.ingress s.pool s.threads s.escalated_msgs h

  -- Once settled, no turn changes anything.
  pub settled_stays : (s : System) (e : SystemEvent) → IsTurn e → IsSettled s → step s e ≡ s
  unfolding system_step
  settled_stays s parser_gives turn h =
      ap (λ out. record s { parser = out.0; parsed = out.1 })
        (give-stays s.parser (is_ended s.validator) s.parsed (rest_of s h).0)
  settled_stays s validator_gives turn h =
      ap (λ out. record s { validator = out.0; validated = out.1 })
        (give-stays s.validator (is_ended s.router) s.validated (rest_of s h).1)
  settled_stays s router_gives turn h =
      ap (λ out. record s { router = out.0; routed_msgs = out.1 })
        (give-stays s.router (is_ended s.dispatcher) s.routed_msgs (rest_of s h).2)
  settled_stays s validator_ends turn (a, b, c, inl (i, p, v, r, d)) =
      ap (λ stage. record s { validator = stage })
        (close-stays s.validator s.parser s.parsed (inl p))
  settled_stays s validator_ends turn (a, b, c, inr (p, v, r, d)) =
      ap (λ stage. record s { validator = stage })
        (close-stays s.validator s.parser s.parsed (inr v))
  settled_stays s router_ends turn (a, b, c, inl (i, p, v, r, d)) =
      ap (λ stage. record s { router = stage })
        (close-stays s.router s.validator s.validated (inl v))
  settled_stays s router_ends turn (a, b, c, inr (p, v, r, d)) =
      ap (λ stage. record s { router = stage })
        (close-stays s.router s.validator s.validated (inr r))
  settled_stays s dispatcher_ends turn (a, b, c, inl (i, p, v, r, d)) =
      ap (λ stage. record s { dispatcher = stage })
        (close-stays s.dispatcher s.router s.routed_msgs (inl r))
  settled_stays s dispatcher_ends turn (a, b, c, inr (p, v, r, d)) =
      ap (λ stage. record s { dispatcher = stage })
        (close-stays s.dispatcher s.router s.routed_msgs (inr d))
  settled_stays s parser_takes turn (a, b, c, inl (i, p, v, r, d)) = rw (p, i) refl
  settled_stays s parser_takes turn (a, b, c, inr (p, v, r, d)) = rw p refl
  settled_stays s validator_takes turn (a, b, c, inl (i, p, v, r, d)) = rw (v, a) refl
  settled_stays s validator_takes turn (a, b, c, inr (p, v, r, d)) = rw v refl
  settled_stays s router_takes turn (a, b, c, inl (i, p, v, r, d)) = rw (r, b) refl
  settled_stays s router_takes turn (a, b, c, inr (p, v, r, d)) = rw r refl
  settled_stays s dispatcher_takes turn (a, b, c, inl (i, p, v, r, d)) = rw (d, c) refl
  settled_stays s dispatcher_takes turn (a, b, c, inr (p, v, r, d)) = rw d refl
  settled_stays s (sends _) turn h = elim turn [ ]
  settled_stays s shuts_down turn h = elim turn [ ]
  settled_stays s (worker_receives _) turn h = elim turn [ ]
  settled_stays s (worker_times_out _) turn h = elim turn [ ]
  settled_stays s (worker_rechecks _) turn h = elim turn [ ]
  settled_stays s (worker_finishes _) turn h = elim turn [ ]
  settled_stays s (changes_threads _) turn h = elim turn [ ]
