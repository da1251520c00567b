-- ===== src/Js/Stream.antt =====
-- The methods of `Vcdiff.prototype` in lib/vcdiff.js. A stream of node calls `_transform` with one
-- chunk at a time and waits for its callback, and `_flush` after the last one.
pub mod Buffering
pub mod Closing
pub mod Flushing
use node_vcdiff.Base.{
  flatten, ℕ, zero, suc, ◌+◌, ◌-◌, Bool, true, false, not, ◌&&◌, ◌||◌, Option, none, some, List, [],
  ◌∷◌, ◌++◌, Bytes, length, leb, ◌==◌, if◌then◌else◌,
}
use node_vcdiff.Codec.{decode, mode_code}
use node_vcdiff.Codec.OpenVcdiff.{OpenVcdiff}
use node_vcdiff.Codec.Dispatch.{any_coder}
use node_vcdiff.Ctx.Defs
use node_vcdiff.Ctx.Calls.{write_async, exec}
use node_vcdiff.Js.Number.{int, pos, le}
use node_vcdiff.Js.Options.{Vcdiff}
use node_vcdiff.Js.Outcome.{
  Outcome, returned, threw, native_call, throw_if, ◌>>=◌, ◌>>◌, binding_closed, null_handle,
}

abbrev pub take : ℕ → Bytes → Bytes
take zero xs = []
take (suc n) [] = []
take (suc n) (x ∷ xs) = x ∷ take n xs

abbrev pub replicate : ℕ → ℕ → Bytes
replicate zero x = []
replicate (suc n) x = x ∷ replicate n x

-- `Buffer.concat(list, totalLength)`: cut off, or filled up with zeros, at the length.
unfoldable pub concat : List Bytes → ℕ → Bytes
concat chunks total = take total (flatten chunks) ++ replicate (total - length (flatten chunks)) 0

-- The fields of `this._writableState` that the methods read.
pub record WritableState : Type 0 where
  pub ended : Bool
  pub ending : Bool
  pub need_drain : Bool
  pub length : ℕ

-- What `flush` does: call back at once, at the end or after a drain, or write an empty chunk.
pub data FlushAction : Type 0 where
  call_back : FlushAction
  await_end : FlushAction
  await_drain : FlushAction
  write_empty : FlushAction

module _ (V : OpenVcdiff) where
  -- The body of `this._handle.onerror`, less the event that it emits.
  unfoldable pub on_error : Vcdiff V → Vcdiff V
  on_error s = record s { attached = false; had_error = true }

  -- `close`, less the events, which Js/Events has.
  unfoldable pub close : Vcdiff V → Outcome (Vcdiff V)
  close s =
      let s' = record s { closed = true } in
      if s.closed
      then returned s
      else if s.attached
      then returned (record s' { ctx = Defs.close s.ctx })
      else threw null_handle

  -- `flush`
  unfoldable pub flush : WritableState → Vcdiff V → FlushAction × Vcdiff V
  flush ws s =
      if ws.ended
      then (call_back, s)
      else if ws.ending
      then (await_end, s)
      else if ws.need_drain
      then (await_drain, s)
      else (write_empty, record s { force_flush = true })

  -- The test of `_processChunk`, once the chunk is added to the buffers.
  abbrev is_due : Bool → Vcdiff V → Bool
  is_due force s =
      le s.min_encode_window_size (int (pos s.nread)) || force || s.mode == mode_code decode

  -- The buffers of `_processChunk` called with a callback: the window for the native object, if one
  -- is due, and the stream with the buffers as they are then.
  unfoldable pub buffer_chunk : Bytes → Bool → Vcdiff V → Option Bytes × Vcdiff V
  unfolding concat mode_code
  buffer_chunk chunk force s =
      let s' = record s { nread = s.nread + length chunk; buffers = s.buffers ++ chunk ∷ [] } in
      if is_due force s'
      then (some (concat s'.buffers s'.nread), record s' { nread = 0; buffers = [] })
      else (none, s')

  -- `this._handle.write(isLast, chunk)` behind its two tests.
  unfoldable pub submit : Bool → Option Bytes × Vcdiff V → Outcome (Option Bytes × Vcdiff V)
  submit is_last (none, s) = returned (none, s)
  submit is_last (some window, s) = do
    throw_if s.closed binding_closed
    throw_if (not s.attached) null_handle
    ctx ← native_call (exec (any_coder V) (write_async window is_last) s.ctx)
    returned (some window, record s { ctx = ctx })

  -- `_processChunk` called with a callback: the window that was handed to the pool, if any, whose
  -- callback then calls back. Without one it calls back by itself.
  unfoldable pub process_chunk : Bytes → Bool → Bool → Vcdiff V → Outcome (Option Bytes × Vcdiff V)
  unfolding buffer_chunk submit
  process_chunk chunk is_last force s = submit is_last (buffer_chunk chunk force s)

  -- How `_transform` leaves things: it calls back with an error, or it called `_processChunk`.
  pub data Transformed : Type 0 where
    refused : Transformed
    accepted : Option Bytes → Vcdiff V → Transformed

  -- `_transform(chunk, encoding, cb)`. `is_buffer` is `encoding === 'buffer'`; node hands over chunks
  -- as buffers, never as null.
  unfoldable pub transform : WritableState → Bytes → Bool → Vcdiff V → Outcome Transformed
  unfolding process_chunk
  transform ws chunk is_buffer s =
      let last = (ws.ending || ws.ended) && ws.length == length chunk in
      let force = s.force_flush || (is_buffer && length chunk == 0) in
      let s' = if leb ws.length (length chunk) then record s { force_flush = false } else s in
      let rest =
        process_chunk chunk last force s' >>= λ (window, s''). returned (accepted window s'') in
      if s.closed then returned refused else rest

  -- `_flush(callback)`
  unfoldable pub flush_end : WritableState → Vcdiff V → Outcome Transformed
  unfolding transform
  flush_end ws s = transform ws [] false (record s { force_flush = true })
