-- ===== src/Tests/Streams.antt =====
-- Streams: options, buffering and closing.
use node_vcdiff.Base.{◌+◌, ◌*◌, true, false, none, some, [], ◌∷◌, ◌≡◌, refl}
use node_vcdiff.Codec.{mode_code, encode, decode, ok}
use node_vcdiff.Codec.Dispatch.{AnyCoder, encoder}
use node_vcdiff.Ctx.Defs.{Ctx, idle, no_work, make_ctx}
use node_vcdiff.Binding.{Object, hashed_dictionary, new_ctx}
use node_vcdiff.Js.Number.{int, pos}
use node_vcdiff.Js.Options.{Options, Vcdiff, make_vcdiff}
use node_vcdiff.Js.Options.Limits.{decoder_of, decoder_settings, max_target_file_size_throws}
use node_vcdiff.Js.Options.Encoding.{min_encode_window_size_unchecked, encoder_settings}
use node_vcdiff.Js.Outcome.{returned, threw, null_handle, invalid_max_target_file_size, ◌>>=◌}
use node_vcdiff.Js.Stream.{
  WritableState, Transformed, accepted, write_empty, on_error, close, flush, transform,
  buffer_chunk,
}
use node_vcdiff.Js.Stream.Flushing.{IsReady, queued_on, flush_hands_on}
use node_vcdiff.Js.Stream.Buffering.{Windowed, buffer_chunk-Windowed}
use node_vcdiff.Js.Stream.Closing.{IsSound, IsTaken, close_after_error_throws, transform_sound}
use node_vcdiff.Js.Codes.{make_error, lookup_optional, make_error-codes}
use node_vcdiff.Tests.Toy.{toy, toy_encoder, dictionary}

abbrev no_options : Options toy
no_options = record {
  min_encode_window_size = none;
  hashed_dictionary = none;
  interleaved = none;
  checksum = none;
  json = none;
  target_matches = none;
  encode_window_size = none;
  dictionary = none;
  allow_vcd_target = none;
  max_target_file_size = none;
  max_target_window_size = none;
}

abbrev encode_options : Options toy
encode_options = record no_options {
  hashed_dictionary = some (hashed_dictionary dictionary);
  checksum = some true;
}

abbrev decode_options : Options toy
decode_options = record no_options { dictionary = some (Object.buffer dictionary) }

abbrev new_context : Ctx (AnyCoder toy)
new_context = record {
  coder = some toy_encoder;
  in_buffer = none;
  work = no_work;
  write_in_progress = false;
  pending_close = false;
  state = idle;
  err = ok;
  output_buffer = [];
  events = [];
}

-- An encoding stream with a window of three bytes, and two bytes buffered.
abbrev pub stream : Vcdiff toy
stream = record {
  min_encode_window_size = int (pos 3);
  attached = true;
  ctx = new_context;
  mode = 0;
  had_error = false;
  closed = false;
  force_flush = false;
  nread = 2;
  buffers = (1 ∷ 2 ∷ []) ∷ [];
}

max_target_file_size_throws_example :
    make_vcdiff toy
      (record decode_options { max_target_file_size = some (int (pos 1000)) })
      (mode_code decode)
    ≡ threw (invalid_max_target_file_size (int (pos 1000)))
max_target_file_size_throws_example =
    max_target_file_size_throws toy
      (record decode_options { max_target_file_size = some (int (pos 1000)) }) dictionary
      (int (pos 1000)) refl refl refl

abbrev made_decoder : Vcdiff toy
made_decoder = record stream {
  min_encode_window_size = int (pos 4096);
  ctx = record new_context { coder = some (decoder_of toy decode_options dictionary) };
  mode = 1;
  nread = 0;
  buffers = [];
}

decoder_settings_example : made_decoder.ctx ≡ make_ctx (decoder_of toy decode_options dictionary)
unfolding make_vcdiff new_ctx mode_code
decoder_settings_example = decoder_settings toy decode_options dictionary made_decoder refl refl

abbrev made_encoder : Vcdiff toy
made_encoder = record stream { min_encode_window_size = int (pos 4096); nread = 0; buffers = [] }

encoder_settings_example :
    made_encoder.ctx
    ≡ make_ctx (
        encoder (record {
          encoder = toy.make_encoder dictionary (0 + 2 * 1 + 4 * 0) false;
          hashed_dictionary = dictionary;
        }))
unfolding make_vcdiff new_ctx mode_code
encoder_settings_example =
    encoder_settings toy encode_options dictionary made_encoder refl refl refl refl refl refl

min_encode_window_size_unchecked_example :
    make_vcdiff toy
      (record encode_options { min_encode_window_size = some (int (pos 1)) })
      (mode_code encode)
    ≡ (make_vcdiff toy encode_options (mode_code encode) >>= λ s.
        returned (record s { min_encode_window_size = int (pos 1) }))
min_encode_window_size_unchecked_example =
    min_encode_window_size_unchecked toy encode_options (int (pos 1)) refl

buffer_chunk-Windowed_example :
    let (window, s') = buffer_chunk toy (7 ∷ 8 ∷ []) false stream in Windowed toy 3 window s'.nread
unfolding mode_code
buffer_chunk-Windowed_example = buffer_chunk-Windowed toy 3 (7 ∷ 8 ∷ []) stream refl refl refl

close_after_error_throws_example : close toy (on_error toy stream) ≡ threw null_handle
close_after_error_throws_example = close_after_error_throws toy stream refl

abbrev idle_state : WritableState
idle_state = record { ended = false; ending = false; need_drain = false; length = 2 }

abbrev closed_stream : Vcdiff toy
closed_stream = record stream { closed = true; ctx = record new_context { coder = none } }

pub stream-IsSound : IsSound toy stream
stream-IsSound = record { alive = λ h. refl; not_pending = λ h. refl }

transform_sound_example :
    (t : Transformed toy) × (transform toy idle_state (7 ∷ 8 ∷ []) true stream ≡ returned t)
    × IsTaken toy t
transform_sound_example =
    transform_sound toy idle_state (7 ∷ 8 ∷ []) true stream stream-IsSound refl refl

stream-IsReady : IsReady toy stream
stream-IsReady = record {
  sound = stream-IsSound;
  open_still = refl;
  attached = refl;
  free = refl;
  counted = refl;
}

flush_hands_on_example :
    ((flush toy idle_state stream).0 ≡ write_empty)
    × (transform toy idle_state [] true stream
        ≡ returned (
            accepted (some (1 ∷ 2 ∷ [])) (
              queued_on toy
                (1 ∷ 2 ∷ [])
                false
                (record stream { force_flush = false; nread = 0; buffers = [] }))))
flush_hands_on_example =
    flush_hands_on toy idle_state idle_state stream stream stream-IsReady refl refl refl

make_error-codes_example :
    ((make_error "Vcdiff encode error" 2).code ≡ some "VCD_ENCODE_ERROR")
    × (lookup_optional (make_error "Vcdiff encode error" 2).code ≡ some 2)
make_error-codes_example = make_error-codes "Vcdiff encode error" 2
