-- ===== src/Js/Buffered.antt =====
-- `vcdiffEncode` and `vcdiffDecode` of lib/vcdiff.js, from the call to the callback.
pub mod Laws
pub mod RoundTrip
use node_vcdiff.Base.{Bool, true, Option, none, some, List, [], ◌∷◌, Bytes, if◌then◌else◌}
use node_vcdiff.Codec.{mode_code}
use node_vcdiff.Codec.OpenVcdiff.{OpenVcdiff}
use node_vcdiff.Js.Options.{Options, Vcdiff, vcdiff_encoder, vcdiff_decoder}
use node_vcdiff.Js.Outcome.{Exception, native, Outcome, ◌>>=◌}
use node_vcdiff.Js.Stream.{WritableState}
use node_vcdiff.Js.Run.{Item, written, flushed, run_stream}
use node_vcdiff.Js.Collect.{Emitted, Collector, dispatch_all, vcdiff_buffer}

-- What `engine.end(buffer)` makes node hand to the stream: the buffer, and the end.
abbrev pub end_with : WritableState → Bytes → WritableState → List Item
end_with ws buffer ws_end = written ws buffer ∷ flushed ws_end ∷ []

-- `events` are the events that node's stream emits, given the chunks that were pushed to it and the
-- error that `onerror` emitted, if any.
module _ (V : OpenVcdiff) (events : List Bytes → Option Exception → List Emitted) where
  abbrev pub failure : Vcdiff V → Option Exception
  failure engine = if engine.had_error then some (native engine.ctx.err) else none

  -- `vcdiffBuffer`, with all that comes of `engine.end(buffer)`. The first `flow` reads nothing, since
  -- nothing is pushed before the pool was at work.
  unfoldable pub run_buffer : Bool → List Item → Vcdiff V → Outcome (Collector V)
  unfolding vcdiff_buffer
  run_buffer is_function items engine = do
    c ← vcdiff_buffer V is_function [] engine
    (pushed, engine') ← run_stream V items c.engine
    dispatch_all V (events pushed (failure engine')) (record c { engine = engine' })

  -- `exports.vcdiffEncode` and `exports.vcdiffDecode`
  unfoldable pub vcdiff_encode : Bool → List Item → Options V → Outcome (Collector V)
  unfolding run_buffer mode_code
  vcdiff_encode is_function items opts = vcdiff_encoder V true opts >>= run_buffer is_function items

  unfoldable pub vcdiff_decode : Bool → List Item → Options V → Outcome (Collector V)
  unfolding run_buffer mode_code
  vcdiff_decode is_function items opts = vcdiff_decoder V true opts >>= run_buffer is_function items
