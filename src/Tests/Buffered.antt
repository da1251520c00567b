-- ===== src/Tests/Buffered.antt =====
-- The asynchronous functions on two bytes, and back.
use node_vcdiff.Base.{
  true, false, Option, none, some, List, [], ◌∷◌, ◌++◌, Bytes, flatten, ◌≡◌, refl, arith,
  append-nil,
}
use node_vcdiff.Codec.Encoder
use node_vcdiff.Codec.Dispatch
use node_vcdiff.Codec.{mode_code}
use node_vcdiff.Ctx.Defs.{make_ctx, done}
use node_vcdiff.Ctx.Calls.{exec}
use node_vcdiff.Binding.{new_ctx}
use node_vcdiff.Js.Options.{make_vcdiff, default_max_target_size}
use node_vcdiff.Js.Options.Encoding.{encoder_of}
use node_vcdiff.Js.Run.{run_stream}
use node_vcdiff.Tests.Sessions.{encode_options, decode_options, encode_stream}
use node_vcdiff.Js.Outcome.{Exception, returned}
use node_vcdiff.Js.Stream.{WritableState}
use node_vcdiff.Js.Collect.{Emitted, readable, error, end, Collector, completed, dispatch_all}
use node_vcdiff.Js.Buffered.{end_with, vcdiff_encode, vcdiff_decode}
use node_vcdiff.Js.Buffered.Laws.{IsReadable, Ended, CallsBack, vcdiff_encode-CallsBack}
use node_vcdiff.Js.Buffered.RoundTrip.{decode-encode}
use node_vcdiff.Tests.Toy.{
  toy, toy_encoder, header, dictionary, toy-AppendsOutput, toy-HasFormatFlags, toy-Encodes,
  toy-Decodes,
}

-- All is read at once, as one chunk if there is anything to read.
abbrev read_all : Bytes → List Bytes
read_all [] = []
read_all (x ∷ bytes) = (x ∷ bytes) ∷ []

read_all-flatten : (bytes : Bytes) → flatten (read_all bytes ++ []) ≡ bytes
read_all-flatten [] = refl
read_all-flatten (x ∷ bytes) = append-nil (x ∷ bytes)

abbrev events : List Bytes → Option Exception → List Emitted
events pushed none = readable (read_all (flatten pushed)) ∷ end ∷ []
events pushed (some err) = readable (read_all (flatten pushed)) ∷ error err ∷ []

events-IsReadable : IsReadable events
events-IsReadable = record {
  ends = λ pushed. (read_all (flatten pushed) ∷ [], refl, read_all-flatten (flatten pushed));
  fails = λ pushed err. (read_all (flatten pushed) ∷ [], [], refl, refl);
}

abbrev at_write : WritableState
at_write = record { ended = false; ending = false; need_drain = false; length = 2 }

abbrev at_flush : WritableState
at_flush = record { ended = false; ending = true; need_drain = false; length = 0 }

to_encode : Ended toy events at_write (1 ∷ 2 ∷ []) at_flush
to_encode = record { announced = (λ h. cc, tt); ending = refl; none_left = refl }

vcdiff_encode-CallsBack_example :
    CallsBack toy events
      (encoder_of toy encode_options dictionary)
      (1 ∷ 2 ∷ [])
      (vcdiff_encode toy events true (end_with at_write (1 ∷ 2 ∷ []) at_flush) encode_options)
unfolding make_vcdiff new_ctx make_ctx mode_code
vcdiff_encode-CallsBack_example =
    vcdiff_encode-CallsBack toy events toy-AppendsOutput events-IsReadable encode_options dictionary
      encode_stream at_write (1 ∷ 2 ∷ []) at_flush to_encode refl refl

abbrev encoded : Collector toy
encoded = record {
  engine = record encode_stream {
    ctx = record (make_ctx toy_encoder) { coder = none; state = done };
    closed = true;
  };
  buffers = [];
  nread = 3;
  end_listener = true;
  readable_listener = true;
  replies = completed (header ∷ 1 ∷ 2 ∷ []) ∷ [];
}

encode_run :
    vcdiff_encode toy events true (end_with at_write (1 ∷ 2 ∷ []) at_flush) encode_options
    ≡ returned encoded
unfolding vcdiff_encode make_vcdiff new_ctx make_ctx mode_code run_stream exec Dispatch.start
    Dispatch.process Dispatch.finish Encoder.start Encoder.process Encoder.finish dispatch_all
encode_run = refl

abbrev at_write_delta : WritableState
at_write_delta = record at_write { length = 3 }

decode-encode_example :
    (c : Collector toy) × (vcdiff_decode toy events true
        (end_with at_write_delta (header ∷ 1 ∷ 2 ∷ []) at_flush)
        decode_options
      ≡ returned c)
    × (c.replies ≡ completed (1 ∷ 2 ∷ []) ∷ [])
unfolding default_max_target_size
decode-encode_example =
    decode-encode toy events encode_options decode_options dictionary (1 ∷ 2 ∷ [])
      (header ∷ 1 ∷ 2 ∷ []) dictionary at_write at_flush at_write_delta at_flush encoded
      toy-AppendsOutput events-IsReadable (toy-Encodes (1 ∷ 2 ∷ [])) toy-Decodes toy-HasFormatFlags
      refl refl refl refl refl refl refl (omega arith) to_encode
      (record { announced = (λ h. cc, tt); ending = refl; none_left = refl }) encode_run refl
