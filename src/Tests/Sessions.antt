-- ===== src/Tests/Sessions.antt =====
-- A session of two chunks, errors by class of coder, and a round trip.
use node_vcdiff.Base.{true, false, ◌||◌, is_some, none, some, [], ◌∷◌, Bytes, ◌≡◌, refl, ◌⊎◌, arith}
use node_vcdiff.Base.Run.{return}
use node_vcdiff.Codec.{ok, decode_error, get_error_string, error_code}
use node_vcdiff.Codec.OpenVcdiff.{OpenVcdiff}
use node_vcdiff.Codec.Encoder
use node_vcdiff.Codec.Encoder.{VcdEncoder}
use node_vcdiff.Codec.Decoder
use node_vcdiff.Codec.Dispatch
use node_vcdiff.Codec.Dispatch.{AnyCoder, any_coder, encoder}
use node_vcdiff.Ctx.Defs.{Ctx, idle, done, no_work, on_error, make_ctx, has_error}
use node_vcdiff.Ctx.Write.{result, write, write_now, check_error, send_error, finish_write}
use node_vcdiff.Ctx.Calls.{write_sync, nothing, exec, exec_all}
use node_vcdiff.Ctx.Invariant.{make_ctx-Inv}
use node_vcdiff.Ctx.Process.{process}
use node_vcdiff.Ctx.System.{Reach, js, start, later}
use node_vcdiff.Ctx.InBuffer.{in_buffer_held}
use node_vcdiff.Ctx.Session.{direct, direct_chunks, write_all}
use node_vcdiff.Ctx.Session.Writes.{Matches}
use node_vcdiff.Ctx.Session.Refinement.{session_refines}
use node_vcdiff.Binding.{Object, hashed_dictionary, new_ctx}
use node_vcdiff.Binding.ErrorKinds.{error_kinds, failed_finish_unnoticed}
use node_vcdiff.Js.Number.{int, pos}
use node_vcdiff.Js.Options.{Options, Vcdiff, make_vcdiff, default_max_target_size}
use node_vcdiff.Js.Outcome.{returned, ◌>>=◌}
use node_vcdiff.Js.Sync.{buffer, process_chunk_sync, vcdiff_encode_sync, vcdiff_decode_sync}
use node_vcdiff.Js.Sync.Laws.{of_direct, process_chunk_sync_lem}
use node_vcdiff.Js.Sync.RoundTrip.{decode-encode_sync}
use node_vcdiff.Tests.Toy.{
  toy, toy_coder, toy_encoder, toy_decoder, header, dictionary, toy-IsAppending, toy-Encodes,
  toy-Decodes, toy-HasFormatFlags,
}

session_refines_example :
    (r : Bytes × Ctx (AnyCoder toy)) × (write_all toy_coder
        ((1 ∷ []) ∷ (2 ∷ []) ∷ [])
        (make_ctx toy_encoder)
      ≡ return r)
    × Matches toy_coder (direct toy_coder toy_encoder ((1 ∷ []) ∷ (2 ∷ []) ∷ [])) r
session_refines_example =
    session_refines toy_coder toy-IsAppending toy_encoder (1 ∷ []) ((2 ∷ []) ∷ [])

direct_example : direct toy_coder toy_encoder ((1 ∷ []) ∷ (2 ∷ []) ∷ []) ≡ (ok, header ∷ 1 ∷ 2 ∷ [])
unfolding direct direct_chunks Dispatch.start Dispatch.process Dispatch.finish Encoder.start
    Encoder.process Encoder.finish
direct_example = refl

-- A delta without its header.
abbrev rejected : Ctx (AnyCoder toy)
rejected = record {
  coder = some toy_decoder;
  in_buffer = some (1 ∷ []);
  work = no_work;
  write_in_progress = false;
  pending_close = false;
  state = done;
  err = decode_error;
  output_buffer = [];
  events = on_error "Vcdiff decode error" 3 ∷ [];
}

reach_rejected : Reach toy_coder toy_decoder rejected
unfolding make_ctx exec exec_all write write_now process check_error send_error Dispatch.start
    Dispatch.process Decoder.start Decoder.process get_error_string error_code
reach_rejected = later start (js (write_sync (1 ∷ []) true nothing) refl)

error_kinds_example : (rejected.err ≡ ok) ⊎ (rejected.err ≡ decode_error)
error_kinds_example = error_kinds toy toy_decoder rejected reach_rejected

in_buffer_held_example :
    is_some rejected.in_buffer ≡ (rejected.write_in_progress || has_error rejected)
in_buffer_held_example = in_buffer_held toy_coder toy_decoder rejected reach_rejected

-- The same codec, but for an encoder that never finishes well.
abbrev unfinished : OpenVcdiff
unfinished = record toy { finish_encoding = λ e out. (false, out, e) }

abbrev started_encoder : VcdEncoder unfinished
started_encoder = record { encoder = true; hashed_dictionary = dictionary }

abbrev fresh : Ctx (AnyCoder unfinished)
fresh = make_ctx (encoder started_encoder)

failed_finish_unnoticed_example :
    (c' : Ctx (AnyCoder unfinished)) × (write
        (any_coder unfinished)
        (exec_all (any_coder unfinished) nothing)
        (5 ∷ [])
        true
        false
        fresh
      ≡ return (result (header ∷ 5 ∷ []) true, c'))
    × (c'.err ≡ ok)
    × (c'.events ≡ [])
unfolding make_ctx
failed_finish_unnoticed_example =
    failed_finish_unnoticed unfinished (exec_all (any_coder unfinished) nothing) started_encoder
      fresh (5 ∷ []) (make_ctx-Inv (encoder started_encoder)) (refl, refl, refl) refl refl refl refl

abbrev no_options : Options toy
no_options = record {
  min_encode_window_size = none;
  hashed_dictionary = none;
  interleaved = none;
  checksum = none;
  json = none;
  target_matches = none;
  encode_window_size = none;
  dictionary = none;
  allow_vcd_target = none;
  max_target_file_size = none;
  max_target_window_size = none;
}

abbrev pub encode_options : Options toy
encode_options = record no_options { hashed_dictionary = some (hashed_dictionary dictionary) }

abbrev pub decode_options : Options toy
decode_options = record no_options { dictionary = some (Object.buffer dictionary) }

abbrev pub encode_stream : Vcdiff toy
encode_stream = record {
  min_encode_window_size = int (pos 4096);
  attached = true;
  ctx = new_toy;
  mode = 0;
  had_error = false;
  closed = false;
  force_flush = false;
  nread = 0;
  buffers = [];
}
  where
    new_toy : Ctx (AnyCoder toy)
    new_toy = record {
      coder = some toy_encoder;
      in_buffer = none;
      work = no_work;
      write_in_progress = false;
      pending_close = false;
      state = idle;
      err = ok;
      output_buffer = [];
      events = [];
    }

process_chunk_sync_lem_example :
    (process_chunk_sync toy (1 ∷ []) true encode_stream >>= λ r. returned r.0)
    ≡ of_direct (direct toy_coder toy_encoder ((1 ∷ []) ∷ []))
unfolding make_ctx
process_chunk_sync_lem_example =
    process_chunk_sync_lem toy toy_encoder (1 ∷ []) encode_stream refl refl refl

encode_sync_example :
    vcdiff_encode_sync toy (buffer (1 ∷ 2 ∷ [])) encode_options ≡ returned (header ∷ 1 ∷ 2 ∷ [])
unfolding vcdiff_encode_sync make_vcdiff new_ctx make_ctx write write_now process check_error
    finish_write Dispatch.start Dispatch.process Dispatch.finish Encoder.start Encoder.process
    Encoder.finish
encode_sync_example = refl

decode-encode_sync_example :
    vcdiff_decode_sync toy (buffer (header ∷ 1 ∷ 2 ∷ [])) decode_options ≡ returned (1 ∷ 2 ∷ [])
unfolding default_max_target_size
decode-encode_sync_example =
    decode-encode_sync toy encode_options decode_options dictionary (1 ∷ 2 ∷ [])
      (header ∷ 1 ∷ 2 ∷ []) dictionary (toy-Encodes (1 ∷ 2 ∷ [])) toy-Decodes toy-HasFormatFlags
      refl refl refl refl refl refl refl (omega arith) encode_sync_example
