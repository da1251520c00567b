-- ===== src/Tests/Accounts.antt =====
-- An asynchronous write whose callback makes a synchronous one, and what JavaScript hears of both.
use node_vcdiff.Base.{true, false, some, [], ◌∷◌, ◌++◌, Bytes, ◌≡◌, refl}
use node_vcdiff.Codec.Encoder
use node_vcdiff.Codec.Dispatch
use node_vcdiff.Codec.Dispatch.{AnyCoder, encoder}
use node_vcdiff.Codec.Recorded.{recorded}
use node_vcdiff.Ctx.Defs.{Ctx, WorkData, done, processing, queued, callback, make_ctx}
use node_vcdiff.Ctx.Defs
use node_vcdiff.Ctx.Process.{process}
use node_vcdiff.Ctx.Write.{
  write_in, write_now_in, check_error_in, finish_write, process_shim, after_shim_in,
}
use node_vcdiff.Ctx.Calls.{write_sync, write_async, nothing, first}
use node_vcdiff.Ctx.Heard.{Heard, hear_call, hear_entered, HeardReach, js, pool, loop, start, later}
use node_vcdiff.Ctx.Heard.Accounts.{heard_accounted}
use node_vcdiff.Tests.Toy.{toy, toy_coder, toy_encoder, toy-IsAppending, header, dictionary}

abbrev State : Type 0
State = AnyCoder toy × Bytes

abbrev one : WorkData
one = record { chunk = 1 ∷ []; is_last = false }

abbrev first_queued : Ctx State
first_queued = record (make_ctx (toy_encoder, [])) {
  in_buffer = some (1 ∷ []);
  work = queued one;
  write_in_progress = true;
}

abbrev started_coder : AnyCoder toy
started_coder = encoder (record { encoder = true; hashed_dictionary = dictionary })

abbrev first_processed : Ctx State
first_processed = record first_queued {
  coder = some (started_coder, header ∷ 1 ∷ []);
  work = Defs.processed one;
  state = processing;
  output_buffer = header ∷ 1 ∷ [];
}

-- The callback of the first write makes the second, which returns its result.
abbrev both_heard : Heard State
both_heard = record {
  heard = header ∷ 1 ∷ 2 ∷ [];
  ctx = record (make_ctx (toy_encoder, header ∷ 1 ∷ 2 ∷ [])) {
    state = done;
    events = callback (header ∷ 1 ∷ []) false ∷ [];
  };
}

reach_both : HeardReach (recorded toy_coder) (toy_encoder, []) both_heard
unfolding make_ctx hear_call hear_entered write_in write_now_in process_shim after_shim_in process
    check_error_in finish_write Dispatch.start Dispatch.process Dispatch.finish Encoder.start
    Encoder.process Encoder.finish
reach_both =
    let r1 =
      later {w' = record { heard = []; ctx = first_queued }} start
        (js (write_async (1 ∷ []) false) refl) in
    let r2 =
      later {w' = record { heard = []; ctx = first_processed }} r1
        (pool one first_processed refl refl refl) in
    later r2 (loop one (first (write_sync (2 ∷ []) true nothing) nothing) refl refl)

heard_accounted_example : both_heard.heard ++ both_heard.ctx.output_buffer ≡ header ∷ 1 ∷ 2 ∷ []
unfolding make_ctx
heard_accounted_example =
    heard_accounted toy_coder toy-IsAppending toy_encoder toy_encoder (header ∷ 1 ∷ 2 ∷ [])
      both_heard reach_both refl
