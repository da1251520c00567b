-- ===== src/Tests/Contexts.antt =====
-- One context step by step: an asynchronous write, a close while the pool works, and the end.
use node_vcdiff.Base.{true, false, none, some, List, [], ◌∷◌, ◌≡◌, refl, is_some}
use node_vcdiff.Base.Run.{return, returns, ◌>>=◌}
use node_vcdiff.Codec.{ok}
use node_vcdiff.Codec.Encoder
use node_vcdiff.Codec.Dispatch
use node_vcdiff.Codec.Dispatch.{AnyCoder, encoder}
use node_vcdiff.Codec.Log.{Entry, started, processed, finished, logged, over, phase_after}
use node_vcdiff.Ctx.Defs.{Ctx, idle, done, WorkData, no_work, queued, make_ctx, callback, close}
use node_vcdiff.Ctx.Defs
use node_vcdiff.Ctx.Process.{process}
use node_vcdiff.Ctx.Write.{write, write_now, check_error, finish_write, process_shim, after_shim}
use node_vcdiff.Ctx.Calls.{write_sync, write_async, close_call, nothing, first, exec, exec_all}
use node_vcdiff.Ctx.System.{Reach, js, pool, start, later}
use node_vcdiff.Ctx.Invariant.{Inv, CloseWaits}
use node_vcdiff.Ctx.Invariant.Steps.{Reach-Inv}
use node_vcdiff.Ctx.Protocol.{calls_in_order}
use node_vcdiff.Ctx.Pool.{pool_safe}
use node_vcdiff.Ctx.Interleaved.{interleaved, interleaved_lem}
use node_vcdiff.Ctx.Close.{pending_close_frees, pending_close_completes}
use node_vcdiff.Tests.Toy.{toy, toy_coder, toy_encoder, header, dictionary}

abbrev pub request : WorkData
request = record { chunk = 1 ∷ 2 ∷ []; is_last = true }

abbrev pub fresh : Ctx (AnyCoder toy)
fresh = record {
  coder = some toy_encoder;
  in_buffer = none;
  work = no_work;
  write_in_progress = false;
  pending_close = false;
  state = idle;
  err = ok;
  output_buffer = [];
  events = [];
}

abbrev pub waiting : Ctx (AnyCoder toy)
waiting = record fresh {
  in_buffer = some (1 ∷ 2 ∷ []);
  work = queued request;
  write_in_progress = true;
}

-- JavaScript closed the handle before the pool began.
abbrev closing : Ctx (AnyCoder toy)
closing = record waiting { pending_close = true }

abbrev worked : Ctx (AnyCoder toy)
worked = record closing {
  coder = some (encoder (record { encoder = false; hashed_dictionary = dictionary }));
  work = Defs.processed request;
  state = done;
  output_buffer = header ∷ 1 ∷ 2 ∷ [];
}

pub reach_fresh : Reach toy_coder toy_encoder fresh
unfolding make_ctx
reach_fresh = start

pub reach_waiting : Reach toy_coder toy_encoder waiting
unfolding exec write
reach_waiting = later reach_fresh (js (write_async (1 ∷ 2 ∷ []) true) refl)

reach_closing : Reach toy_coder toy_encoder closing
unfolding exec close
reach_closing = later reach_waiting (js close_call refl)

reach_worked : Reach toy_coder toy_encoder worked
unfolding process_shim process Dispatch.start Dispatch.process Dispatch.finish Encoder.start
    Encoder.process Encoder.finish
reach_worked = later reach_closing (pool request refl refl)

Reach-Inv_example : Inv worked × CloseWaits worked
Reach-Inv_example = Reach-Inv toy_coder reach_worked

pool_safe_example :
    (is_some closing.coder ≡ true)
    × (returns (process_shim toy_coder request closing) ≡ true)
    × (closing.in_buffer ≡ some (1 ∷ 2 ∷ []))
pool_safe_example = pool_safe toy_coder toy_encoder closing request reach_closing refl

-- The same, with a coder that writes down its calls.
abbrev logged_fresh : Ctx (AnyCoder toy × List Entry)
logged_fresh = record {
  coder = some (toy_encoder, []);
  in_buffer = none;
  work = no_work;
  write_in_progress = false;
  pending_close = false;
  state = idle;
  err = ok;
  output_buffer = [];
  events = [];
}

abbrev call_log : List Entry
call_log = finished ok ∷ processed (1 ∷ 2 ∷ []) ok ∷ started ok ∷ []

abbrev logged_done : Ctx (AnyCoder toy × List Entry)
logged_done = record logged_fresh { coder = some (toy_encoder, call_log); state = done }

reach_logged : Reach (logged toy_coder) (toy_encoder, []) logged_done
unfolding make_ctx exec write write_now process check_error finish_write Dispatch.start
    Dispatch.process Dispatch.finish Encoder.start Encoder.process Encoder.finish
reach_logged = later start (js (write_sync (1 ∷ 2 ∷ []) true nothing) refl)

calls_in_order_example : phase_after call_log ≡ some over
calls_in_order_example =
    calls_in_order toy_coder toy_encoder logged_done toy_encoder call_log reach_logged refl

-- The context at the end: closed, with the output handed over.
abbrev ended : Ctx (AnyCoder toy)
ended = record worked {
  coder = none;
  in_buffer = none;
  work = no_work;
  write_in_progress = false;
  pending_close = false;
  output_buffer = [];
  events = callback (header ∷ 1 ∷ 2 ∷ []) true ∷ [];
}

pending_close_frees_example :
    (ended.coder ≡ none) × (ended.write_in_progress ≡ false) × (ended.pending_close ≡ false)
unfolding after_shim check_error finish_write close exec_all
pending_close_frees_example =
    pending_close_frees toy_coder toy_encoder worked ended request nothing reach_worked refl refl
      refl

pending_close_completes_example :
    (c' : Ctx (AnyCoder toy)) × (after_shim
        (exec_all toy_coder (first close_call nothing))
        true
        worked
      ≡ return c')
    × (c'.coder ≡ none)
    × (c'.write_in_progress ≡ false)
pending_close_completes_example =
    pending_close_completes toy_coder toy_encoder worked request (first close_call nothing)
      reach_worked refl refl refl

-- JavaScript closes the handle between two stages of the pool, and once more after the last.
interleaved_lem_example :
    interleaved toy_coder nothing
      (first close_call nothing)
      nothing
      (first close_call nothing)
      request
      waiting
    ≡ (process_shim toy_coder request waiting
        >>= exec_all toy_coder (first close_call (first close_call nothing)))
interleaved_lem_example =
    interleaved_lem toy_coder toy_encoder waiting request nothing (first close_call nothing) nothing
      (first close_call nothing) reach_waiting refl
