-- ===== src/Js/Run.antt =====
-- A stream from its first chunk to its end: node hands over one chunk at a time and waits until the
-- stream calls back, and calls `_flush` after the last chunk.
pub mod Turn
pub mod Feed
pub mod Windows
pub mod Closing
pub mod Open
pub mod Idle
pub mod Announced
pub mod Delivery
use node_vcdiff.Base.{true, none, some, List, [], ◌∷◌, ◌++◌, Bytes, if◌then◌else◌}
use node_vcdiff.Base.Run.{Run, return}
use node_vcdiff.Codec.{Coder}
use node_vcdiff.Codec.OpenVcdiff.{OpenVcdiff}
use node_vcdiff.Codec.Dispatch.{any_coder}
use node_vcdiff.Ctx.Defs.{Ctx, Work, queued}
use node_vcdiff.Js.Options.{Vcdiff}
use node_vcdiff.Js.Outcome.{Outcome, returned, threw, native_call, ◌>>=◌, binding_closed}
use node_vcdiff.Js.Stream.{
  WritableState, Transformed, refused, accepted, transform, flush, flush_end,
}
use node_vcdiff.Js.Turn.{react, complete}

-- What happens to a stream between two calls back, with the state of its writable side at that time:
-- node hands it a chunk, the program calls `flush`, or node calls `_flush`. The empty chunk that
-- `flush` writes is handed over in its turn, as one more `written`.
pub data Item : Type 0 where
  written : WritableState → Bytes → Item
  asked : WritableState → Item
  flushed : WritableState → Item

module _ (C : Coder) where
  -- The pool and the event loop, where a request is queued.
  unfoldable pub run_work : Work → Ctx C.State → Run (Ctx C.State)
  unfolding complete
  run_work (queued w) c = complete C w c
  run_work _ c = return c

module _ (V : OpenVcdiff) where
  unfoldable pub feed : Item → Vcdiff V → Outcome (Transformed V)
  unfolding transform flush flush_end
  feed (written ws chunk) s = transform V ws chunk true s
  feed (asked ws) s = returned (accepted none (flush V ws s).1)
  feed (flushed ws) s = flush_end V ws s

  -- Until the stream calls back: the chunks that it pushes meanwhile, and the stream, which has
  -- reacted to the callbacks of the native object. A refused chunk is an error that is called back.
  unfoldable pub resume : Transformed V → Outcome (List Bytes × Vcdiff V)
  unfolding run_work react
  resume refused = threw binding_closed
  resume (accepted none s) = returned ([], s)
  resume (accepted (some window) s) = do
    c ← native_call (run_work (any_coder V) s.ctx.work s.ctx)
    returned (react V c.events (record s { ctx = record c { events = [] } }))

  -- After an error the stream never calls back, and gets nothing more.
  unfoldable pub run_stream : List Item → Vcdiff V → Outcome (List Bytes × Vcdiff V)
  unfolding feed resume
  run_stream [] s = returned ([], s)
  run_stream (item ∷ items) s = feed item s >>= resume >>= λ (pushed, s').
      let more = run_stream items s' >>= λ (rest, s''). returned (pushed ++ rest, s'') in
      if s'.had_error then returned (pushed, s') else more
