-- ===== src/Pipeline/Gates.antt =====
-- The three gates in a row, and what a message that reaches dispatch has passed.
use rust_pipeline.Base.{
  ℕ, Text, false, Option, none, some, List, [], ◌∷◌, ◌≡◌, refl, sym, ap, ◌∙◌, inl, inr, get_elem?,
  Bool-cases,
}
use rust_pipeline.Base.Result.{ok, err, ok_or, ◌>>=◌, ◌>>◌, Result-cases, >>=-eq-ok}
use rust_pipeline.Error.{PipelineResult, no_route}
use rust_pipeline.Wire.Address.Parts.{organism, and_then}
use rust_pipeline.Wire.Payload.{Envelope}
use rust_pipeline.Routing.{ListenerEntry, resolve, enforce_peers}
use rust_pipeline.Validation.{validate_value}
use rust_pipeline.Registry.{ListenerRegistry}
use rust_pipeline.Thread.{ThreadRegistry}
use rust_pipeline.Federation.Directory.{PeerDirectory}
use rust_pipeline.Pipeline.Stages.{
  Codec, ValidatedMsg, RoutedMsg, RouteOutcome, routed, parse_stage, validate_stage,
  is_remote_destination, from_name, route_checks, route_stage,
}

abbrev handed : ValidatedMsg → Text → RoutedMsg
handed msg target = record { envelope = msg.envelope; payload = msg.payload; target_name = target }

module _ (lower : Text → Text) (codec : Codec) (registry : ListenerRegistry)
    (federation : Option PeerDirectory) where
  -- Raw bytes through parse, validate and route; `none` where the message dies at one of the first two.
  unfoldable pub through_stages : ThreadRegistry → List ℕ → Option (RouteOutcome × ThreadRegistry)
  unfolding parse_stage validate_stage
  through_stages threads raw = elim (parse_stage codec raw) [
    | none ↦ none
    | some env ↦ elim (validate_stage registry env) [
      | none ↦ none
      | some msg ↦ some (route_stage lower registry federation threads msg)
    ]
  ]

  -- What is known of a message that is handed to dispatch.
  pub record HasPassed (raw : List ℕ) (m : RoutedMsg) : Type 0 where
    pub decoded : codec.decode_envelope raw ≡ ok m.envelope
    pub validated :
        validate_value registry.schemas m.envelope.payload.tag m.envelope.payload.value ≡ ok tt
    pub tag_kept : m.payload.tag ≡ m.envelope.payload.tag
    pub value_kept : m.payload.value ≡ m.envelope.payload.value
    pub local : is_remote_destination federation m.envelope ≡ false
    pub listed :
        (e : ListenerEntry) × (rest : List ListenerEntry) × (resolve lower registry.routing
            (and_then m.envelope.meta.to organism)
            m.envelope.payload.tag
          ≡ ok (e ∷ rest))
        × (e.name ≡ m.target_name)
    pub permitted : enforce_peers registry.routing (from_name m.envelope) m.target_name ≡ ok tt

  route_checks-ok :
      (env : Envelope) (target : Text)
      → route_checks lower registry env ≡ ok target
      → (e : ListenerEntry) × (rest : List ListenerEntry) × (resolve lower registry.routing
            (and_then env.meta.to organism)
            env.payload.tag
          ≡ ok (e ∷ rest))
        × (e.name ≡ target)
        × (enforce_peers registry.routing (from_name env) target ≡ ok tt)
  unfolding route_checks
  route_checks-ok env target h = by_entries _ refl h
    where
      key : PipelineResult (List ListenerEntry)
      key = resolve lower registry.routing (and_then env.meta.to organism) env.payload.tag

      by_entries :
          (r : PipelineResult (List ListenerEntry))
          → key ≡ r
          → (r >>= λ entries. ok_or (get_elem? entries 0) (no_route []) >>= λ t.
              enforce_peers registry.routing (from_name env) t.name >> ok t.name)
            ≡ ok target
          → (e : ListenerEntry) × (rest : List ListenerEntry) × (key ≡ ok (e ∷ rest))
            × (e.name ≡ target)
            × (enforce_peers registry.routing (from_name env) target ≡ ok tt)
      by_entries (err x) e h = cc
      by_entries (ok []) e h = cc
      by_entries (ok (t ∷ rest)) e h =
          let (u, p, q) =
            >>=-eq-ok (enforce_peers registry.routing (from_name env) t.name) (λ _. ok t.name) h in
          let same : t.name ≡ target = cc q in (t, rest, e, same, rw (← same) p)

  route_stage-routed :
      (threads : ThreadRegistry) (msg : ValidatedMsg) (m : RoutedMsg) (threads' : ThreadRegistry)
      → route_stage lower registry federation threads msg ≡ (routed m, threads')
      → (is_remote_destination federation msg.envelope ≡ false)
        × (route_checks lower registry msg.envelope ≡ ok m.target_name)
        × (m.envelope ≡ msg.envelope)
        × (m.payload ≡ msg.payload)
  unfolding route_stage
  route_stage-routed threads msg m threads' h =
      elim (Bool-cases (is_remote_destination federation msg.envelope)) [
        | inl e ↦ absurd (cc (rw (e, route_stage) at h))
        | inr e ↦ elim (Result-cases (route_checks lower registry msg.envelope)) [
          | inr (x, e') ↦ absurd (cc (rw (e, route_stage, e') at h))
          | inl (t, e') ↦
              let same = rw (e, route_stage, e') at h in
              let first : routed (handed msg t) ≡ routed m =
                ap (λ (r : RouteOutcome × ThreadRegistry). r.0) same in
              let made : handed msg t ≡ m = cc first in
              (
                e,
                e' ∙ ap (λ (x : RoutedMsg). ok x.target_name) made,
                ap (λ (x : RoutedMsg). x.envelope) (sym made),
                ap (λ (x : RoutedMsg). x.payload) (sym made),
              )
        ]
      ]

  decoded-HasPassed :
      (threads : ThreadRegistry) (raw : List ℕ) (m : RoutedMsg) (threads' : ThreadRegistry)
      → codec.decode_panics raw ≡ false
      → through_stages threads raw ≡ some (routed m, threads')
      → HasPassed raw m
  unfolding through_stages
  decoded-HasPassed threads raw m threads' safe h =
      elim (Result-cases (codec.decode_envelope raw)) [
        | inr (x, e) ↦ absurd (cc (rw (safe, e, through_stages) at h))
        | inl (env, e) ↦
            elim (Result-cases
              (validate_value registry.schemas env.payload.tag env.payload.value)) [
                | inr (x, e') ↦ absurd (cc (rw (safe, e, through_stages, e') at h))
                | inl (u, e') ↦
                    let msg : ValidatedMsg = record {
                      envelope = env;
                      payload = record { tag = env.payload.tag; value = env.payload.value };
                    } in
                    let out : some (route_stage lower registry federation threads msg)
                        ≡ some (routed m, threads') =
                      rw (safe, e, through_stages, e') at h in
                    let (is_local, checked, same_env, same_payload) =
                      route_stage-routed threads msg m threads' (cc out) in
                    let (entry, rest, found, named, may) =
                      route_checks-ok env m.target_name checked in
                    record {
                      decoded = rw same_env e;
                      validated = rw same_env e';
                      tag_kept = rw (same_env, same_payload) refl;
                      value_kept = rw (same_env, same_payload) refl;
                      local = rw same_env is_local;
                      listed = rw same_env (entry, rest, found, named);
                      permitted = rw same_env may;
                    }
              ]
      ]

  -- A message that reaches dispatch was decoded from its bytes, conforms to the schema of its tag, is
  -- for a local listener that the table lists first under its route, and its sender may write to
  -- that listener. The handler is given the envelope's own tag and value.
  pub through_stages-HasPassed :
      (threads : ThreadRegistry) (raw : List ℕ) (m : RoutedMsg) (threads' : ThreadRegistry)
      → through_stages threads raw ≡ some (routed m, threads')
      → HasPassed raw m
  unfolding through_stages
  through_stages-HasPassed threads raw m threads' h = elim (Bool-cases (codec.decode_panics raw)) [
    | inl panics ↦ absurd (cc (rw (panics, through_stages) at h))
    | inr safe ↦ decoded-HasPassed threads raw m threads' safe h
  ]
