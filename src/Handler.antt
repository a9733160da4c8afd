-- ===== src/Handler.antt =====
-- handler.rs, middleware.rs: what handlers and middleware are given and may answer. A handler and a
-- middleware are host code, and stand as functions; a call is one application.
use rust_pipeline.Base.{ℕ, Text, Option, List}
use rust_pipeline.Base.Result.{ok}
use rust_pipeline.Error.{PipelineResult}
use rust_pipeline.Wire.Address.{Address}
use rust_pipeline.Wire.Provenance.{Provenance}
use rust_pipeline.Wire.Payload.{Payload, PayloadValue}

pub record ValidatedPayload : Type 0 where
  pub tag : Text
  pub value : PayloadValue

abbrev pub to_payload : ValidatedPayload → Payload
to_payload p = record { tag = p.tag; value = p.value }

pub record HandlerContext : Type 0 where
  pub thread_id : Text
  pub from : Address
  pub own_name : Address
  pub provenance : Provenance

pub data HandlerResponse : Type 0 where
  send spawn : Address → Payload → HandlerResponse
  reply : Payload → HandlerResponse
  none : HandlerResponse

abbrev pub HandlerResult : Type 0
HandlerResult = PipelineResult HandlerResponse

-- `Handler::handle`.
abbrev pub Handler : Type 0
Handler = ValidatedPayload → HandlerContext → HandlerResult

-- `FnHandler`: a function as a handler.
abbrev pub fn_handler : (ValidatedPayload → HandlerContext → HandlerResult) → Handler
fn_handler f payload ctx = f payload ctx

-- `checkpoint` and `restore`, the state of a handler as a blob: what the trait gives a handler that
-- has no state.
abbrev pub checkpoint : {State : Type 0} → State → Option (List ℕ)
checkpoint state = Option.none

abbrev pub restore : {State : Type 0} → State → List ℕ → State
restore state blob = state

pub record DispatchMeta : Type 0 where
  pub from : Text
  pub to : Text
  pub thread_id : Text
  pub payload_tag : Text

pub data PreDispatchVerdict : Type 0 where
  continue : PreDispatchVerdict
  transform : ValidatedPayload → PreDispatchVerdict
  short_circuit : HandlerResponse → PreDispatchVerdict

pub data PostDispatchVerdict : Type 0 where
  pass_through replace : HandlerResponse → PostDispatchVerdict

pub record Middleware : Type 0 where
  pub pre_dispatch : DispatchMeta → ValidatedPayload → PipelineResult PreDispatchVerdict
  pub post_dispatch :
      DispatchMeta → ValidatedPayload → HandlerResponse → PipelineResult PostDispatchVerdict

-- The two hooks of a middleware that overrides none.
abbrev pub no_op : Middleware
no_op = record {
  pre_dispatch = λ meta payload. ok continue;
  post_dispatch = λ meta payload response. ok (pass_through response);
}
