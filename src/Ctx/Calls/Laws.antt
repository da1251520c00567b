-- ===== src/Ctx/Calls/Laws.antt =====
-- What JavaScript can do while a write is in progress.
use node_vcdiff.Base.{Bool, true, Bytes, ◌≡◌, inl, arith}
use node_vcdiff.Base.Run.{return, >>=-eq-return}
use node_vcdiff.Codec.{Coder}
use node_vcdiff.Ctx.Defs.{Ctx, queued, close}
use node_vcdiff.Ctx.Write.{write}
use node_vcdiff.Ctx.Write.Errors.{IsQuiet}
use node_vcdiff.Ctx.Write.Cases.{CanWrite, begin_write}
use node_vcdiff.Ctx.Calls.{
  Call, Calls, write_sync, write_async, close_call, nothing, first, exec, exec_all,
}

module _ (C : Coder) where
  -- A call that returns while a write is in progress is `close`, and it only notes the request.
  pub exec-busy :
      (call : Call) (c c' : Ctx C.State)
      → c.write_in_progress ≡ true
      → exec C call c ≡ return c'
      → c' ≡ record c { pending_close = true }
  unfolding exec write close
  exec-busy (write_sync buffer is_last inside) c c' busy e = ground arith
  exec-busy (write_async buffer is_last) c c' busy e = ground arith
  exec-busy close_call c c' busy e = ground arith

  pub exec_all-IsQuiet : (calls : Calls) → IsQuiet (exec_all C calls)
  unfolding exec_all
  exec_all-IsQuiet nothing c c' busy e = inl (ground arith)
  exec_all-IsQuiet (first call calls) c c' busy e =
      let (c1, e1, e2) = >>=-eq-return (exec C call c) _ e in
      ground (arith, exec-busy call c c1 busy e1, exec_all-IsQuiet calls c1 c')

  -- An asynchronous write that returns has met its assertions, and only queues its request.
  pub write_async-cases :
      (buffer : Bytes) (is_last : Bool) (c c' : Ctx C.State)
      → exec C (write_async buffer is_last) c ≡ return c'
      → CanWrite C c
        × (c' ≡ record (begin_write C buffer c) {
          work = queued (record { chunk = buffer; is_last = is_last });
        })
  unfolding exec write
  write_async-cases buffer is_last c c' e = ground arith
