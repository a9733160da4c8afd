-- ===== src/Pipeline/System/Panics.antt =====
-- The pipeline of pipeline.rs over the codec of codec.rs, when the decoder panics.
use rust_pipeline.Base.{ℕ, Text, Bool, true, false, Option, List, [], ◌∷◌, ◌≡◌, refl}
use rust_pipeline.Base.Result.{ok, err}
use rust_pipeline.Error.{PipelineResult, envelope_parse}
use rust_pipeline.Wire.Payload.{Envelope}
use rust_pipeline.Registry.{ListenerRegistry}
use rust_pipeline.Thread.{ThreadRegistry}
use rust_pipeline.Federation.Directory.{PeerDirectory}
use rust_pipeline.Codec.{Xml, Outcome, done, failed, panicked, exhausted}
use rust_pipeline.Codec.Write.{encode_envelope}
use rust_pipeline.Codec.Decode.{decode_envelope}
use rust_pipeline.Pipeline.Stages.{Codec}
use rust_pipeline.Pipeline.System.{
  waiting, ended, System, SystemEvent, parser_takes, started, system_step, system_run,
}
use rust_pipeline.Pipeline.System.Front.{IsShut, step-IsShut}

-- The result of a call that returns; in the other two cases it is not looked at.
abbrev result_of : Outcome Envelope → PipelineResult Envelope
result_of (done env) = ok env
result_of (failed e) = err e
result_of panicked = err (envelope_parse [])
result_of exhausted = err (envelope_parse [])

abbrev panics : Outcome Envelope → Bool
panics panicked = true
panics (done _) = false
panics (failed _) = false
panics exhausted = false

-- encode_envelope and decode_envelope of codec.rs.
abbrev pub codec_of : Xml → Codec
codec_of xml = record {
  encode_envelope = encode_envelope xml;
  decode_envelope = λ raw. result_of (decode_envelope xml raw);
  decode_panics = λ raw. panics (decode_envelope xml raw);
}

module _ (lower : Text → Text) (xml : Xml) (registry : ListenerRegistry)
    (federation : Option PeerDirectory) where
  run-IsShut :
      (es : List SystemEvent) (raws : List (List ℕ)) (s : System)
      → IsShut lower (codec_of xml) registry federation raws s
      → IsShut lower
          (codec_of xml)
          registry
          federation
          raws
          (system_run lower (codec_of xml) registry federation s es)
  unfolding system_run
  run-IsShut [] raws s h = h
  run-IsShut (e ∷ es) raws s h =
      run-IsShut es raws (system_step lower (codec_of xml) registry federation s e)
        (step-IsShut lower (codec_of xml) registry federation raws s e h)

  -- One message on which the decoder of codec.rs panics stops the pipeline for good, from any state of
  -- a run. Once the parser has taken it, then whatever is sent and however the tasks take turns
  -- afterwards, the parser has ended, what stood behind the message in the ingress is still
  -- there, and nothing that is sent gets in.
  pub panic_stops :
      (threads : ThreadRegistry) (before after : List SystemEvent) (raw : List ℕ)
      (rest : List (List ℕ))
      → let s = system_run lower (codec_of xml) registry federation (started threads) before in
        decode_envelope xml raw ≡ panicked
        → s.parser ≡ waiting
        → s.ingress ≡ raw ∷ rest
        → let s' = system_run lower (codec_of xml) registry federation s (parser_takes ∷ after) in
          (s'.parser ≡ ended) × (s'.ingress ≡ rest)
  unfolding system_run system_step
  panic_stops threads before after raw rest panic free next =
      let s = system_run lower (codec_of xml) registry federation (started threads) before in
      run-IsShut after rest (system_step lower (codec_of xml) registry federation s parser_takes)
        (rw (free, next, panic) (refl, refl))
