-- ===== src/Js/Sync.antt =====
-- `_processChunk` called with no callback, and the functions on top of it.
pub mod Laws
pub mod RoundTrip
use node_vcdiff.Base.{Bool, true, false, not, Bytes}
use node_vcdiff.Codec.{mode_code}
use node_vcdiff.Codec.OpenVcdiff.{OpenVcdiff}
use node_vcdiff.Codec.Dispatch.{AnyCoder, any_coder}
use node_vcdiff.Ctx.Defs.{Ctx}
use node_vcdiff.Ctx.Write.{Written, result, write}
use node_vcdiff.Ctx.Calls.{no_js}
use node_vcdiff.Js.Options.{Options, Vcdiff, vcdiff_encoder, vcdiff_decoder}
use node_vcdiff.Js.Outcome.{
  Outcome, returned, threw, native_call, throw_if, ◌>>=◌, ◌>>◌, binding_closed, null_handle, native,
  sync_should_finish, not_a_string_or_buffer,
}
use node_vcdiff.Js.Stream.{close}

-- What a caller passes as the data: a string, as the bytes that `new Buffer` makes of it, a buffer,
-- or something else.
pub data Input : Type 0 where
  text : Bytes → Input
  buffer : Bytes → Input
  other : Input

module _ (V : OpenVcdiff) where
  -- What follows `writeSync`. If it returned nothing, `onerror` ran: it dropped the handle, and the
  -- error that it made of the error code is thrown.
  unfoldable pub after_write_sync :
      Vcdiff V → Written × Ctx (AnyCoder V) → Outcome (Bytes × Vcdiff V)
  unfolding close
  after_write_sync s (result out finished, ctx) = do
    throw_if (not finished) sync_should_finish
    s' ← close V (record s { ctx = ctx })
    returned (out, s')
  after_write_sync s (_, ctx) = threw (native ctx.err)

  -- `_processChunk(chunk, isLast, forceFlush)`. No JavaScript that runs inside `onerror` can reach
  -- the native object, since the handle is dropped first.
  unfoldable pub process_chunk_sync : Bytes → Bool → Vcdiff V → Outcome (Bytes × Vcdiff V)
  unfolding after_write_sync
  process_chunk_sync chunk is_last s = do
    throw_if s.closed binding_closed
    throw_if (not s.attached) null_handle
    written ← native_call (write (any_coder V) (no_js (any_coder V)) chunk is_last false s.ctx)
    after_write_sync s written

  -- `vcdiffBufferSync`
  unfoldable pub vcdiff_buffer_sync : Vcdiff V → Input → Outcome Bytes
  unfolding process_chunk_sync
  vcdiff_buffer_sync engine (text bytes) =
      process_chunk_sync bytes true engine >>= λ (out, s). returned out
  vcdiff_buffer_sync engine (buffer bytes) =
      process_chunk_sync bytes true engine >>= λ (out, s). returned out
  vcdiff_buffer_sync engine other = threw not_a_string_or_buffer

  -- `exports.vcdiffEncodeSync`
  unfoldable pub vcdiff_encode_sync : Input → Options V → Outcome Bytes
  unfolding vcdiff_buffer_sync mode_code
  vcdiff_encode_sync input opts =
      vcdiff_encoder V true opts >>= λ engine. vcdiff_buffer_sync engine input

  -- `exports.vcdiffDecodeSync`
  unfoldable pub vcdiff_decode_sync : Input → Options V → Outcome Bytes
  unfolding vcdiff_buffer_sync mode_code
  vcdiff_decode_sync input opts =
      vcdiff_decoder V true opts >>= λ engine. vcdiff_buffer_sync engine input
