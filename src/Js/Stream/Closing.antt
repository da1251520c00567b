-- ===== src/Js/Stream/Closing.antt =====
-- `close` of a stream, and how the stream keeps the addon's assertions from failing.
use node_vcdiff.Base.{Bool, true, false, Option, Bytes, ◌≡◌, arith, is_some}
use node_vcdiff.Codec.OpenVcdiff.{OpenVcdiff}
use node_vcdiff.Ctx.Write.{write}
use node_vcdiff.Ctx.Calls.{exec}
use node_vcdiff.Js.Options.{Vcdiff}
use node_vcdiff.Js.Outcome.{returned, threw, null_handle, is_returned, is_returned-cases}
use node_vcdiff.Js.Stream.{
  WritableState, Transformed, refused, accepted, on_error, close, transform,
}

module _ (V : OpenVcdiff) where
  -- The bug: `close` after an error throws a TypeError, since `onerror` has set `_handle` to null
  -- and `close` calls a method on it.
  pub close_after_error_throws :
      (s : Vcdiff V) → s.closed ≡ false → close V (on_error V s) ≡ threw null_handle
  unfolding close on_error
  close_after_error_throws s h = ground arith

  -- A stream that was closed stays as it is under `close`, and refuses every chunk with an error
  -- that goes to the callback, so that nothing reaches the native object any more.
  pub closed_stream_refuses :
      (s s' : Vcdiff V) (ws : WritableState) (chunk : Bytes) (is_buffer : Bool)
      → close V s ≡ returned s'
      → (close V s' ≡ returned s') × (transform V ws chunk is_buffer s' ≡ returned refused)
  unfolding close transform
  closed_stream_refuses s s' ws chunk is_buffer e = ground arith

  -- While the stream is not closed its native object has its coder, and no close is pending.
  pub record IsSound (s : Vcdiff V) : Type 0 where
    pub alive : s.closed ≡ false → is_some s.ctx.coder ≡ true
    pub not_pending : s.closed ≡ false → s.ctx.pending_close ≡ false

  pub close-IsSound : (s s' : Vcdiff V) → IsSound s → close V s ≡ returned s' → IsSound s'
  unfolding close
  close-IsSound s s' v e = ground arith

  -- With its handle and no write in progress, `_transform` fails no assertion and throws nothing.
  transform_returns :
      (ws : WritableState) (chunk : Bytes) (is_buffer : Bool) (s : Vcdiff V)
      → IsSound s
      → s.attached ≡ true
      → s.ctx.write_in_progress ≡ false
      → is_returned (transform V ws chunk is_buffer s) ≡ true
  unfolding transform exec write
  transform_returns ws chunk is_buffer s v held free = ground arith

  transform-IsSound :
      (ws : WritableState) (chunk : Bytes) (is_buffer : Bool) (s s' : Vcdiff V)
      (window : Option Bytes)
      → IsSound s
      → s.ctx.write_in_progress ≡ false
      → transform V ws chunk is_buffer s ≡ returned (accepted window s')
      → IsSound s' × (s'.ctx.write_in_progress ≡ is_some window)
  unfolding transform exec write
  transform-IsSound ws chunk is_buffer s s' window v free e = ground arith

  -- The stream is sound, and a write is in progress if a window was handed to the native object.
  abbrev pub IsTaken : Transformed V → Type 0
  IsTaken refused = Unit {0}
  IsTaken (accepted window s) = IsSound s × (s.ctx.write_in_progress ≡ is_some window)

  transform-IsTaken :
      (ws : WritableState) (chunk : Bytes) (is_buffer : Bool) (s : Vcdiff V) (t : Transformed V)
      → IsSound s
      → s.ctx.write_in_progress ≡ false
      → transform V ws chunk is_buffer s ≡ returned t
      → IsTaken t
  transform-IsTaken ws chunk is_buffer s refused v free e = tt
  transform-IsTaken ws chunk is_buffer s (accepted window s') v free e =
      transform-IsSound ws chunk is_buffer s s' window v free e

  -- On a sound stream with its handle and with no write in progress, which is when node calls it,
  -- `_transform` fails no assertion of the addon and throws nothing. It refuses the chunk, or it leaves
  -- the stream sound, and a write is then in progress exactly if a window was handed to the native
  -- object.
  pub transform_sound :
      (ws : WritableState) (chunk : Bytes) (is_buffer : Bool) (s : Vcdiff V)
      → IsSound s
      → s.attached ≡ true
      → s.ctx.write_in_progress ≡ false
      → (t : Transformed V) × (transform V ws chunk is_buffer s ≡ returned t) × IsTaken t
  transform_sound ws chunk is_buffer s v held free =
      let (t, e) = is_returned-cases _ (transform_returns ws chunk is_buffer s v held free) in
      (t, e, transform-IsTaken ws chunk is_buffer s t v free e)
