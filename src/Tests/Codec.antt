-- ===== src/Tests/Codec.antt =====
-- The results on codec.rs for the envelope of its own tests.
use rust_pipeline.Base.{ascii, true, none, some, List, [], ◌∷◌, ◌≡◌, ◌≢◌, refl, arith}
use rust_pipeline.Base.Int.{negsuc}
use rust_pipeline.Base.Result.{ok}
use rust_pipeline.Wire.Address.{Address, parse, display}
use rust_pipeline.Wire.Address.WellFormed.{parse-IsWellFormed}
use rust_pipeline.Wire.Payload.{
  PayloadValue, rec, seq, text, uint, sint, real, boolean, blob, nil, no_fields, field, no_items,
  item, Envelope,
}
use rust_pipeline.Codec.{Xml, start_tag, end_tag, text_run, done, panicked, exhausted}
use rust_pipeline.Codec.Spaces.{trim}
use rust_pipeline.Codec.Seen.{seen, IsLawful}
use rust_pipeline.Codec.Write.{write_envelope, encode_envelope}
use rust_pipeline.Codec.Decode.{decode_envelope}
use rust_pipeline.Codec.Decode.Termination.{decode_envelope-ne-exhausted}
use rust_pipeline.Codec.Decode.RoundTrip.{IsEnvelopeCarried, decode_envelope-encode_envelope}
use rust_pipeline.Codec.Decode.Bounds.{IsEnvelope, decode_envelope-IsEnvelope}
use rust_pipeline.Registry
use rust_pipeline.Thread
use rust_pipeline.Pipeline.System.{
  System, SystemEvent, sends, parser_takes, waiting, ended, started, system_run,
}
use rust_pipeline.Pipeline.System.Panics.{codec_of, panic_stops}

abbrev sender : Address
sender = record {
  segments =
      record { name = ascii "ringhub"; key = none }
      ∷ record { name = ascii "bob"; key = some (ascii "alice") }
      ∷ [];
}

abbrev carol : Address
carol = record { segments = record { name = ascii "carol"; key = none } ∷ [] }

abbrev greeting : PayloadValue
greeting = rec (
    field (ascii "text") (text (ascii "Hello, world!")) (
      field (ascii "count") (uint 42) (
        field (ascii "nested") (rec (field (ascii "flag") (boolean true) no_fields)) (
          field (ascii "items") (seq (item (sint (negsuc 4)) (item (real 3) (item nil no_items))))
            (field (ascii "raw") (blob (0xde ∷ 0xad ∷ [])) no_fields)))))

abbrev sample : Envelope
sample = record {
  meta = record {
    from = sender;
    to = some carol;
    thread = ascii "t1";
    provenance = record { bits_lo = 8; bits_hi = 64 };
  };
  payload = record { tag = ascii "Greeting"; value = greeting };
}

-- A quick_xml that escapes nothing, and knows the real number with the bits 3.
abbrev plain : Xml
plain = record {
  escape = λ t. t;
  unescape = λ t. ok t;
  write = λ events. ok [];
  read = λ bytes. [];
  trimmed = λ t. t;
  lossy = λ t. t;
  show_event = λ e. [];
  show_text = λ t. t;
  show_real = λ x. ascii "1.5";
  parse_real = λ t. some 3;
}

-- The same, with a file that holds the sample.
abbrev with_sample : Xml
with_sample = record plain { read = λ bytes. seen plain (write_envelope plain sample) }

with_sample-IsLawful : IsLawful with_sample
with_sample-IsLawful = record {
  unescape-escape = λ t. refl;
  escape-Graphic = λ t g. refl;
  lossy-Graphic = λ t g. refl;
  trimmed-Graphic = λ t g. refl;
}

sender_read : parse (ascii "ringhub.bob[alice]") ≡ ok sender
unfolding parse
sender_read = refl

carol_read : parse (ascii "carol") ≡ ok carol
unfolding parse
carol_read = refl

sample_carried : IsEnvelopeCarried with_sample sample
unfolding display trim
sample_carried = record {
  from = record {
    well_formed = parse-IsWellFormed (ascii "ringhub.bob[alice]") sender sender_read;
    plain = record { full = λ e. cc; keeps = refl; trims = refl };
  };
  to = record {
    well_formed = parse-IsWellFormed (ascii "carol") carol carol_read;
    plain = record { full = λ e. cc; keeps = refl; trims = refl };
  };
  thread = record { full = λ e. cc; keeps = refl; trims = refl };
  provenance = record { lo = omega arith; hi = omega arith };
  tag = refl;
  value = (
    refl,
    refl,
    (
      refl,
      omega arith,
      (
        refl,
        (refl, tt, tt),
        (
          refl,
          (omega arith, ((refl, ground arith), (tt, tt))),
          (refl, (omega arith, (omega arith, tt)), tt),
        ),
      ),
    ),
  );
}

decode_envelope-encode_envelope_example :
    (encode_envelope with_sample sample ≡ ok []) × (decode_envelope with_sample [] ≡ done sample)
unfolding write_envelope
decode_envelope-encode_envelope_example =
    decode_envelope-encode_envelope with_sample with_sample-IsLawful sample [] sample_carried refl
      refl

decode_envelope-ne-exhausted_example : decode_envelope with_sample [] ≢ exhausted
decode_envelope-ne-exhausted_example = decode_envelope-ne-exhausted with_sample []

sample_decoded : decode_envelope with_sample [] ≡ done sample
unfolding write_envelope
sample_decoded =
    (decode_envelope-encode_envelope with_sample with_sample-IsLawful sample [] sample_carried refl
      refl).1

decode_envelope-IsEnvelope_example : IsEnvelope sample
decode_envelope-IsEnvelope_example = decode_envelope-IsEnvelope with_sample [] sample sample_decoded

-- A quick_xml that reads a message whose payload is the blob `aéb`.
abbrev with_bad_blob : Xml
with_bad_blob = record plain {
  read = λ bytes.
      ok (start_tag (ascii "message") [])
      ∷ ok (start_tag (ascii "payload") ((ascii "tag", ascii "Say") ∷ []))
      ∷ ok (start_tag (ascii "v") ((ascii "k", ascii "blob") ∷ []))
      ∷ ok (text_run (97 ∷ 0xC3 ∷ 0xA9 ∷ 98 ∷ []))
      ∷ ok (end_tag (ascii "v"))
      ∷ ok (end_tag (ascii "payload"))
      ∷ ok (end_tag (ascii "message"))
      ∷ [];
}

bad_blob_panics : decode_envelope with_bad_blob (1 ∷ []) ≡ panicked
unfolding decode_envelope
bad_blob_panics = refl

-- It is sent before another message.
abbrev two_sent : List SystemEvent
two_sent = sends (1 ∷ []) ∷ sends (2 ∷ []) ∷ []

abbrev two_there : System
two_there =
    system_run (λ t. t) (codec_of with_bad_blob) Registry.new none (started Thread.new) two_sent

two_waiting : two_there.parser ≡ waiting
unfolding system_run
two_waiting = refl

two_in_ingress : two_there.ingress ≡ (1 ∷ []) ∷ (2 ∷ []) ∷ []
unfolding system_run
two_in_ingress = refl

panic_stops_example :
    let s' =
      system_run
        (λ t. t)
        (codec_of with_bad_blob)
        Registry.new
        none
        two_there
        (parser_takes ∷ sends (3 ∷ []) ∷ parser_takes ∷ []) in
    (s'.parser ≡ ended) × (s'.ingress ≡ (2 ∷ []) ∷ [])
panic_stops_example =
    panic_stops (λ t. t) with_bad_blob Registry.new none Thread.new two_sent
      (sends (3 ∷ []) ∷ parser_takes ∷ []) (1 ∷ []) ((2 ∷ []) ∷ []) bad_blob_panics two_waiting
      two_in_ingress
