-- ===== src/Tests/Runs.antt =====
-- A stream of two chunks, with a call of `flush` between them, and its end.
use node_vcdiff.Base.{
  true, false, Option, none, some, arith, List, [], ◌∷◌, Bytes, flatten, ◌≡◌, refl,
}
use node_vcdiff.Codec.Encoder
use node_vcdiff.Codec.Dispatch
use node_vcdiff.Ctx.Defs.{make_ctx}
use node_vcdiff.Ctx.Calls.{exec}
use node_vcdiff.Ctx.Session.{direct}
use node_vcdiff.Ctx.Invariant.{make_ctx-Inv}
use node_vcdiff.Js.Number.{int, pos}
use node_vcdiff.Js.Options.{Vcdiff}
use node_vcdiff.Js.Outcome.{Outcome, returned}
use node_vcdiff.Js.Stream.{WritableState}
use node_vcdiff.Js.Run.{Item, written, asked, run_stream}
use node_vcdiff.Js.Run.Windows.{IsLive}
use node_vcdiff.Js.Run.Announced.{session}
use node_vcdiff.Js.Run.Delivery.{StreamOutput, stream_delivers}
use node_vcdiff.Tests.Toy.{toy, toy_coder, toy_encoder, header, toy-AppendsOutput}

abbrev new_stream : Vcdiff toy
new_stream = record {
  min_encode_window_size = int (pos 3);
  attached = true;
  ctx = make_ctx toy_encoder;
  mode = 0;
  had_error = false;
  closed = false;
  force_flush = false;
  nread = 0;
  buffers = [];
}

new_stream-IsLive : IsLive toy new_stream
unfolding make_ctx
new_stream-IsLive = record {
  ready = record {
    sound = record { alive = λ h. refl; not_pending = λ h. refl };
    open_still = refl;
    attached = refl;
    free = refl;
    counted = refl;
  };
  fine = refl;
  inv = make_ctx-Inv toy_encoder;
  quiet = refl;
}

-- The first chunk fills no window, but `flush` is called before the next, and writes an empty chunk.
-- The last chunk waits for `_flush`.
abbrev items : List Item
items =
    written (record { ended = false; ending = false; need_drain = false; length = 2 }) (1 ∷ 2 ∷ [])
    ∷ asked (record { ended = false; ending = false; need_drain = false; length = 0 })
    ∷ written (record { ended = false; ending = false; need_drain = false; length = 0 }) []
    ∷ written (record { ended = false; ending = true; need_drain = false; length = 1 }) (4 ∷ [])
    ∷ []

abbrev at_end : WritableState
at_end = record { ended = false; ending = true; need_drain = false; length = 0 }

stream_delivers_example :
    (wins : List Bytes) × (r : List Bytes × Vcdiff toy) × (flatten wins ≡ 1 ∷ 2 ∷ 4 ∷ [])
    × (run_stream toy (session items at_end) new_stream ≡ returned r)
    × StreamOutput toy (direct toy_coder toy_encoder wins) r
stream_delivers_example =
    stream_delivers toy toy-AppendsOutput toy_encoder new_stream items at_end new_stream-IsLive refl
      refl (λ h. cc, (λ h. cc, (λ h. omega arith, tt))) refl refl

abbrev pushes : Outcome (List Bytes × Vcdiff toy) → Option (List Bytes)
pushes (returned (pushed, s)) = some pushed
pushes _ = none

stream_pushes :
    pushes (run_stream toy (session items at_end) new_stream)
    ≡ some ((header ∷ 1 ∷ 2 ∷ []) ∷ (4 ∷ []) ∷ [])
unfolding run_stream make_ctx Dispatch.start Dispatch.process Dispatch.finish Encoder.start
    Encoder.process Encoder.finish exec
stream_pushes = refl
