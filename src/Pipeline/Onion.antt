-- ===== src/Pipeline/Onion.antt =====
-- A middleware that overrides no hook changes nothing, wherever it stands in the chain.
use mathlib.Core.List.{reverse, reverse-append, reverse-cons, append_assoc}
use rust_pipeline.Base.{Option, none, some, List, [], ◌∷◌, ◌++◌, ◌≡◌, refl, sym, ◌∙◌, inl, inr}
use rust_pipeline.Base.Result.{ok, err, Result-cases}
use rust_pipeline.Handler.{
  ValidatedPayload, HandlerContext, HandlerResponse, HandlerResult, DispatchMeta, Middleware,
  continue, transform, short_circuit, pass_through, replace, no_op,
}
use rust_pipeline.Pipeline.Stages.{RoutedMsg}
use rust_pipeline.Pipeline.Dispatch.{
  pre_dispatch_all, post_dispatch_all, handle, meta_of, context_of,
}

pre_dispatch_all-no_op :
    (before after : List Middleware) (meta : DispatchMeta) (payload : ValidatedPayload)
    → pre_dispatch_all (before ++ (no_op ∷ after)) meta payload
      ≡ pre_dispatch_all (before ++ after) meta payload
unfolding pre_dispatch_all
pre_dispatch_all-no_op [] after meta payload = refl
pre_dispatch_all-no_op (mw ∷ before) after meta payload =
    elim (Result-cases (mw.pre_dispatch meta payload)) [
      | inr (e, q) ↦ rw (q, pre_dispatch_all) refl
      | inl (continue, q) ↦
          rw (q, pre_dispatch_all) (pre_dispatch_all-no_op before after meta payload)
      | inl (transform p, q) ↦ rw (q, pre_dispatch_all) (pre_dispatch_all-no_op before after meta p)
      | inl (short_circuit r, q) ↦ rw (q, pre_dispatch_all) refl
    ]

post_dispatch_all-no_op :
    (before after : List Middleware) (meta : DispatchMeta) (payload : ValidatedPayload)
    (response : HandlerResponse)
    → post_dispatch_all (before ++ (no_op ∷ after)) meta payload response
      ≡ post_dispatch_all (before ++ after) meta payload response
unfolding post_dispatch_all
post_dispatch_all-no_op [] after meta payload response = refl
post_dispatch_all-no_op (mw ∷ before) after meta payload response =
    elim (Result-cases (mw.post_dispatch meta payload response)) [
      | inr (e, q) ↦ rw (q, post_dispatch_all) refl
      | inl (pass_through r, q) ↦
          rw (q, post_dispatch_all) (post_dispatch_all-no_op before after meta payload r)
      | inl (replace r, q) ↦
          rw (q, post_dispatch_all) (post_dispatch_all-no_op before after meta payload r)
    ]

-- The chain from the other end.
reverse_around :
    (before after : List Middleware)
    → reverse (before ++ (no_op ∷ after)) ≡ reverse after ++ (no_op ∷ reverse before)
reverse_around before after =
    reverse-append before (no_op ∷ after) ∙ simp (reverse-cons, append_assoc) refl

-- `handle`, by what the two loops give.
abbrev around :
    (ValidatedPayload × Option HandlerResult)
    → (ValidatedPayload → HandlerResponse → HandlerResult)
    → (ValidatedPayload → HandlerContext → HandlerResult)
    → RoutedMsg
    → HandlerResult
around (payload, cut) post run msg =
    let result : HandlerResult = elim cut [ some r ↦ r | none ↦ run payload (context_of msg) ] in
    elim result [ ok response ↦ post payload response | err e ↦ err e ]

handle-around :
    (middleware : List Middleware) (run : ValidatedPayload → HandlerContext → HandlerResult)
    (msg : RoutedMsg)
    → handle middleware run msg
      ≡ around
          (pre_dispatch_all middleware (meta_of msg) msg.payload)
          (λ payload response.
            post_dispatch_all (reverse middleware) (meta_of msg) payload response)
          run
          msg
unfolding handle
handle-around middleware run msg = refl

post_around :
    (before after : List Middleware) (meta : DispatchMeta) (payload : ValidatedPayload)
    (response : HandlerResponse)
    → post_dispatch_all (reverse (before ++ (no_op ∷ after))) meta payload response
      ≡ post_dispatch_all (reverse (before ++ after)) meta payload response
post_around before after meta payload response =
    rw (reverse_around before after, reverse-append before after)
      (post_dispatch_all-no_op (reverse after) (reverse before) meta payload response)

-- A middleware that overrides none of its hooks changes nothing: wherever it stands in the chain, message,
-- hooks and handler give the result that they give without it.
pub handle-no_op :
    (before after : List Middleware) (run : ValidatedPayload → HandlerContext → HandlerResult)
    (msg : RoutedMsg)
    → handle (before ++ (no_op ∷ after)) run msg ≡ handle (before ++ after) run msg
handle-no_op before after run msg =
    handle-around (before ++ (no_op ∷ after)) run msg
    ∙ (λ i.
        around (pre_dispatch_all-no_op before after (meta_of msg) msg.payload i)
          (λ payload response. post_around before after (meta_of msg) payload response i) run msg)
    ∙ sym (handle-around (before ++ after) run msg)
