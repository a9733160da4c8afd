-- ===== src/Pipeline/Handled.antt =====
-- The handler of the listener that the route stage names.
use rust_pipeline.Base.{
  ℕ, Text, Option, none, some, List, [], ◌∷◌, ◌≡◌, ◌≢◌, inl, inr, arith, All, Option-cases,
}
use rust_pipeline.Base.HashMap
use rust_pipeline.Base.Result.{ok}
use rust_pipeline.Wire.Address.Parts.{organism, and_then}
use rust_pipeline.Handler.{Handler}
use rust_pipeline.Routing.{
  ListenerEntry, RoutingTable, Registration, or_default, wanted_key, resolve,
}
use rust_pipeline.Validation.{PayloadSchema}
use rust_pipeline.Registry.{ListenerRegistry, new, register, get_handler}
use rust_pipeline.Registry.Complete.{IsComplete, new-IsComplete, register-IsComplete}
use rust_pipeline.Thread.{ThreadRegistry}
use rust_pipeline.Federation.Directory.{PeerDirectory}
use rust_pipeline.Pipeline.Stages.{Codec, RoutedMsg, routed}
use rust_pipeline.Pipeline.Gates.{through_stages, through_stages-HasPassed}

module _ (lower : Text → Text) where
  -- The registry after some calls of `ListenerRegistry::register`.
  unfoldable pub build :
      ListenerRegistry → List (Registration × Handler × Option PayloadSchema) → ListenerRegistry
  build reg [] = reg
  build reg ((r, handler, schema) ∷ rs) = build (register lower reg r handler schema) rs

  build-IsComplete :
      (reg : ListenerRegistry) (rs : List (Registration × Handler × Option PayloadSchema))
      → IsComplete reg
      → IsComplete (build reg rs)
  unfolding build
  build-IsComplete reg [] h = h
  build-IsComplete reg ((r, handler, schema) ∷ rs) h =
      build-IsComplete (register lower reg r handler schema) rs
        (register-IsComplete lower reg r handler schema h)

  resolve-entries :
      (table : RoutingTable) (to : Option Text) (tag : Text) (l : List ListenerEntry)
      → resolve lower table to tag ≡ ok l
      → or_default (HashMap.get table.routes (wanted_key lower to tag)) ≡ l
  unfolding resolve
  resolve-entries table to tag l h = ground arith

  -- In a registry that `ListenerRegistry::register` alone has filled, with any listeners in any order: a
  -- message that passes the three gates is handed to dispatch for a listener whose handler is
  -- found. Routes that are added to the public routing table without a handler are not covered.
  pub routed_has_handler :
      (rs : List (Registration × Handler × Option PayloadSchema)) (codec : Codec)
      (federation : Option PeerDirectory) (threads threads' : ThreadRegistry) (raw : List ℕ)
      (m : RoutedMsg)
      → through_stages lower codec (build new rs) federation threads raw ≡ some (routed m, threads')
      → (run : Handler) × (get_handler (build new rs) m.target_name ≡ some run)
  routed_has_handler rs codec federation threads threads' raw m h =
      let reg = build new rs in
      let passed = through_stages-HasPassed lower codec reg federation threads raw m threads' h in
      let (e, rest, found, named) = passed.listed in
      let to = and_then m.envelope.meta.to organism in
      let tag = m.envelope.payload.tag in
      let all : All (λ (x : ListenerEntry). get_handler reg x.name ≢ none) (e ∷ rest) =
        rw (resolve-entries reg.routing to tag (e ∷ rest) found) at
          ((build-IsComplete new rs new-IsComplete).handled (wanted_key lower to tag)) in
      elim (Option-cases (get_handler reg m.target_name)) [
        | inl miss ↦ absurd (all.0 (rw named miss))
        | inr p ↦ p
      ]
