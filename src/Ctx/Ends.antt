-- ===== src/Ctx/Ends.antt =====
-- The end of an asynchronous write, from the queue of the pool to the return of the callback.
use node_vcdiff.Base.{true, false, ◌≡◌, refl, ap, ◌∙◌, inl, inr, arith}
use node_vcdiff.Base.Run.{return, returns-cases, >>=-eq-return}
use node_vcdiff.Codec.{Coder}
use node_vcdiff.Ctx.Defs.{Ctx, WorkData, queued, processed, is_busy, no_work, close}
use node_vcdiff.Ctx.Process.{process}
use node_vcdiff.Ctx.Write.{process_shim, after_shim, finish_write}
use node_vcdiff.Ctx.Write.Cases.{Delivered, after_shim-cases}
use node_vcdiff.Ctx.Calls.{
  Calls, write_sync, write_async, close_call, nothing, first, exec, exec_all,
}
use node_vcdiff.Ctx.Calls.Laws.{exec_all-IsQuiet}
use node_vcdiff.Ctx.System.{Reach, pool, loop, later}
use node_vcdiff.Ctx.Invariant.Steps.{Reach-Inv}
use node_vcdiff.Ctx.Pool.{pool_safe}
use node_vcdiff.Ctx.Close.{writes_nothing, after_shim-returns}

module _ (C : Coder) where
  process_shim-work :
      (w : WorkData) (c c' : Ctx C.State) → process_shim C w c ≡ return c' → c'.work ≡ processed w
  unfolding process_shim
  process_shim-work w c c' e =
      let (c1, e1, e2) = >>=-eq-return (process C w.chunk w.is_last c) _ e in cc

  exec_all-idle :
      (calls : Calls) (c c' : Ctx C.State)
      → writes_nothing C calls ≡ true
      → c.write_in_progress ≡ false
      → exec_all C calls c ≡ return c'
      → c'.write_in_progress ≡ false
  unfolding exec exec_all close
  exec_all-idle nothing c c' quiet free e = cc
  exec_all-idle (first close_call calls) c c' quiet free e =
      exec_all-idle calls (close c) c' quiet (ground arith) e
  exec_all-idle (first (write_sync buffer is_last inside) calls) c c' quiet free e = cc
  exec_all-idle (first (write_async buffer is_last) calls) c c' quiet free e = cc

  Delivered-idle :
      (inside : Calls) (c c' : Ctx C.State)
      → writes_nothing C inside ≡ true
      → Delivered C (exec_all C inside) c c'
      → c'.write_in_progress ≡ false
  unfolding finish_write close
  Delivered-idle inside c c' quiet (inr (bad, f)) = f.idle
  Delivered-idle inside c c' quiet (inl (fine, (c2, e1, e2))) =
      let free = exec_all-idle inside _ c2 quiet refl e1 in ground arith

  -- Every asynchronous write ends: from a context that can be reached with a request in the queue, the
  -- pool and then the event loop run to their ends without a failed assertion, if the callback that is
  -- entered makes no write, and then no write is in progress, nothing is queued and no close is pending.
  pub write_ends :
      (s : C.State) (c : Ctx C.State) (w : WorkData) (inside : Calls)
      → Reach C s c
      → c.work ≡ queued w
      → writes_nothing C inside ≡ true
      → (c1 c2 : Ctx C.State) × (process_shim C w c ≡ return c1)
        × (after_shim (exec_all C inside) true c1 ≡ return c2)
        × (c2.write_in_progress ≡ false)
        × (is_busy c2.work ≡ false)
        × (c2.pending_close ≡ false)
  write_ends s c w inside r q quiet =
      let (c1, e1) = returns-cases _ (pool_safe C s c w r q).1 in
      let worked = process_shim-work w c c1 e1 in
      let r1 : Reach C s c1 = later r (pool w q e1) in
      let (c2, e2) = returns-cases _ (after_shim-returns C inside c1 quiet) in
      let busy : c1.write_in_progress ≡ true = (Reach-Inv C r1).0.in_flight ∙ ap is_busy worked in
      let free =
        Delivered-idle inside (record c1 { work = no_work }) c2 quiet
          (after_shim-cases C (exec_all C inside) c1 c2 (exec_all-IsQuiet C inside) busy e2) in
      let (v, waits) = Reach-Inv C (later r1 (loop w inside worked e2)) in
      (c1, c2, e1, e2, free, ground (arith, v.in_flight), ground (arith, waits))
