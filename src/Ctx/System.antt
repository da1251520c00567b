-- ===== src/Ctx/System.antt =====
-- The context among its three agents: JavaScript on the event loop, a thread of the pool, and the
-- event loop when the thread is through.
use node_vcdiff.Base.{true, ◌≡◌}
use node_vcdiff.Base.Run.{return}
use node_vcdiff.Codec.{Coder}
use node_vcdiff.Ctx.Defs.{Ctx, WorkData, queued, processed, make_ctx}
use node_vcdiff.Ctx.Write.{process_shim, after_shim}
use node_vcdiff.Ctx.Calls.{Call, Calls, exec, exec_all}

module _ (C : Coder) where
  -- JavaScript may call at any time, also while the pool works on the context.
  pub data Step (c c' : Ctx C.State) : Type 0 where
    js : (call : Call) → exec C call c ≡ return c' → Step c c'
    pool : (w : WorkData) → c.work ≡ queued w → process_shim C w c ≡ return c' → Step c c'
    loop :
        (w : WorkData) (inside : Calls)
        → c.work ≡ processed w
        → after_shim (exec_all C inside) true c ≡ return c'
        → Step c c'

  pub data Reach (s : C.State) : Ctx C.State → Type 0 where
    start : Reach s (make_ctx s)
    later : {c c' : Ctx C.State} → Reach s c → Step c c' → Reach s c'
