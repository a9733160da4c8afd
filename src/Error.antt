-- ===== src/Error.antt =====
-- error.rs: `PipelineError`, the error type of the stages, with the texts that it carries.
use rust_pipeline.Base.{List, Text}
use rust_pipeline.Base.Result.{Result}

pub data PipelineError : Type 0 where
  repair envelope_parse missing_meta validation no_route : Text → PipelineError
  -- `from`, `to`, `allowed`
  peer_violation : Text → Text → List Text → PipelineError
  unknown_thread chain_exhausted handler handler_panic config serialization xml :
      Text → PipelineError

abbrev pub PipelineResult {ℓ} : Type ℓ → Type ℓ
PipelineResult A = Result PipelineError A
