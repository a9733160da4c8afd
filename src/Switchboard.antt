-- ===== src/Switchboard.antt =====
-- switchboard.rs: `Switchboard::route`. `Materializer::resolve` is the host's and a function here; the
-- ingress channel is open or not. What a call injects stands beside its result.
use rust_pipeline.Base.{
  ℕ, arith, Text, Bool, true, false, Option, none, some, List, [], ◌∷◌, ◌≡◌, ◌⊎◌, inl, inr,
  Bool-cases, refl, if◌then◌else◌,
}
use rust_pipeline.Base.Result.{Result, ok, err, ok_or, map_err, ◌>>=◌, >>=-eq-ok, Result-cases}
use rust_pipeline.Error.{PipelineError}
use rust_pipeline.Wire.Address.{Address}
use rust_pipeline.Wire.Payload.{Envelope}
use rust_pipeline.Pipeline.Stages.{Codec}

pub data SwitchboardError : Type 0 where
  no_destination ingress_closed : SwitchboardError
  materialize : Text → SwitchboardError
  encode : PipelineError → SwitchboardError

-- `Materializer::resolve`.
abbrev pub Resolver : Type 0
Resolver = Address → Result Text Text

abbrev pub on_thread : Envelope → Text → Envelope
on_thread env thread = record env { meta = record env.meta { thread = thread } }

ok_or-some : {A : Type 0} (o : Option A) {a : A} → ok_or o no_destination ≡ ok a → o ≡ some a
ok_or-some none h = cc
ok_or-some (some b) h = cc

map_err-ok :
    {E A : Type 0} (f : E → SwitchboardError) (r : Result E A) {a : A}
    → map_err f r ≡ ok a
    → r ≡ ok a
map_err-ok f (ok b) h = cc
map_err-ok f (err e) h = cc

module _ (wire : Codec) (resolve : Resolver) where
  -- `route` up to the send: the bytes to inject.
  unfoldable pub materialized : Envelope → Result SwitchboardError (List ℕ)
  materialized env = do
    to ← ok_or env.meta.to no_destination
    thread ← map_err materialize (resolve to)
    map_err encode (wire.encode_envelope (on_thread env thread))

  unfoldable pub route :
      (is_open : Bool) (env : Envelope) → List (List ℕ) × Result SwitchboardError (Unit {0})
  unfolding materialized
  route is_open env = elim (materialized env) [
    | err e ↦ ([], err e)
    | ok raw ↦ if is_open then (raw ∷ [], ok tt) else ([], err ingress_closed)
  ]

  -- What is injected for an envelope.
  abbrev pub Injects : Envelope → List ℕ → Type 0
  Injects env raw =
      (to : Address) × (thread : Text) × (env.meta.to ≡ some to)
      × (resolve to ≡ ok thread)
      × (wire.encode_envelope (on_thread env thread) ≡ ok raw)

  materialized-Injects :
      (env : Envelope) (raw : List ℕ) → materialized env ≡ ok raw → Injects env raw
  unfolding materialized
  materialized-Injects env raw h =
      let (to, p, then_resolve) = >>=-eq-ok (ok_or env.meta.to no_destination) _ h in
      let (thread, q, then_encode) = >>=-eq-ok (map_err materialize (resolve to)) _ then_resolve in
      (
        to,
        thread,
        ok_or-some env.meta.to p,
        map_err-ok materialize (resolve to) q,
        map_err-ok encode (wire.encode_envelope (on_thread env thread)) then_encode,
      )

  Injects-materialized :
      (env : Envelope) (raw : List ℕ) → Injects env raw → materialized env ≡ ok raw
  unfolding materialized
  Injects-materialized env raw (to, thread, e, e', e3) = ground arith

  -- `route` either injects one message and succeeds, or injects nothing and returns an error. It does the
  -- first exactly if the ingress is open, the destination is there, the host resolves it to a
  -- thread, and the envelope can be encoded; the bytes encode the envelope with that thread and
  -- nothing else changed.
  pub route-Injects :
      (is_open : Bool) (env : Envelope)
      → ((raw : List ℕ) × (route is_open env ≡ (raw ∷ [], ok tt))
          × (is_open ≡ true)
          × Injects env raw)
        ⊎ ((e : SwitchboardError) × (route is_open env ≡ ([], err e))
            × ((is_open ≡ false) ⊎ ((raw : List ℕ) → ¬ Injects env raw)))
  unfolding route
  route-Injects is_open env = elim (Result-cases (materialized env)) [
    | inr (x, e) ↦
        inr
          (x, rw (route, e) refl, inr (λ raw injects. cc (e, Injects-materialized env raw injects)))
    | inl (raw, e) ↦ elim (Bool-cases is_open) [
      | inl opened ↦ inl (raw, rw (route, e, opened) refl, opened, materialized-Injects env raw e)
      | inr closed ↦ inr (ingress_closed, rw (route, e, closed) refl, inl closed)
    ]
  ]
