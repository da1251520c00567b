-- ===== src/Ctx/Calls.antt =====
-- What JavaScript does with a handle: the methods that `VcdCtx::Init` puts on its prototype, each
-- with what the handle's `onerror` property does in turn if the call enters it.
pub mod Laws
use node_vcdiff.Base.{Bool, true, false, Bytes}
use node_vcdiff.Base.Run.{Run, return, ◌>>=◌}
use node_vcdiff.Codec.{Coder}
use node_vcdiff.Ctx.Defs.{Ctx, close}
use node_vcdiff.Ctx.Write.{write}

mutual
  pub data Call : Type 0 where
    -- `writeSync(isLast, buffer)`, and the calls made inside `onerror`
    write_sync : Bytes → Bool → Calls → Call
    -- `write(isLast, buffer)`
    write_async : Bytes → Bool → Call
    close_call : Call

  pub data Calls : Type 0 where
    nothing : Calls
    first : Call → Calls → Calls

abbrev pub append : Calls → Calls → Calls
append nothing more = more
append (first call calls) more = first call (append calls more)

module _ (C : Coder) where
  -- An asynchronous write enters no callback before it returns.
  abbrev pub no_js : Ctx C.State → Run (Ctx C.State)
  no_js c = return c

  -- The static `VcdCtx::Close`, which asserts nothing.
  unfoldable pub close_method : Ctx C.State → Run (Ctx C.State)
  unfolding close
  close_method c = return (close c)

  -- `WriteSync`, `WriteAsync` and `Close` of the prototype, their JavaScript results left out.
  unfoldable mutual
    unfolding write close_method

    pub exec : Call → Ctx C.State → Run (Ctx C.State)
    exec (write_sync buffer is_last inside) c =
        write C (exec_all inside) buffer is_last false c >>= λ r. return r.1
    exec (write_async buffer is_last) c = write C no_js buffer is_last true c >>= λ r. return r.1
    exec close_call c = close_method c

    pub exec_all : Calls → Ctx C.State → Run (Ctx C.State)
    exec_all nothing c = return c
    exec_all (first call calls) c = exec call c >>= exec_all calls
