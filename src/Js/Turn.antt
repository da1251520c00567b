-- ===== src/Js/Turn.antt =====
-- The end of an asynchronous write as a stream sees it: `onerror` of the constructor `Vcdiff` and
-- `callback` in `_processChunk`, entered by `AfterShim`.
pub mod Whole
use node_vcdiff.Base.{true, List, [], ◌∷◌, Bytes, if◌then◌else◌}
use node_vcdiff.Base.Run.{Run, ◌>>=◌}
use node_vcdiff.Codec.OpenVcdiff.{OpenVcdiff}
use node_vcdiff.Codec.{Coder}
use node_vcdiff.Ctx.Defs.{Ctx, Event, WorkData, callback}
use node_vcdiff.Ctx.Defs
use node_vcdiff.Ctx.Write.{process_shim, after_shim}
use node_vcdiff.Ctx.Calls.{no_js}
use node_vcdiff.Js.Options.{Vcdiff}
use node_vcdiff.Js.Stream.{on_error}

module _ (V : OpenVcdiff) where
  -- What the callbacks of the context do to the stream, oldest first: the chunks that are pushed, and
  -- the stream. After an error `callback` does nothing.
  unfoldable pub react : List Event → Vcdiff V → List Bytes × Vcdiff V
  unfolding on_error
  react [] s = ([], s)
  react (Defs.on_error message errno ∷ events) s = react events (on_error V s)
  react (callback out finished ∷ events) s =
      let (pushed, s') = react events s in if s.had_error then (pushed, s') else (out ∷ pushed, s')

module _ (C : Coder) where
  -- The pool runs the request, and the event loop runs `AfterShim`.
  unfoldable pub complete : WorkData → Ctx C.State → Run (Ctx C.State)
  unfolding process_shim after_shim
  complete w c = process_shim C w c >>= after_shim (no_js C) true
