-- ===== src/Ctx/Invariant/Steps.antt =====
-- The invariant under the steps of the thread pool and of the event loop, and in every context
-- that can be reached.
use node_vcdiff.Base.{true, false, ◌≡◌, refl, ap, ◌∙◌, inl, inr, arith, is_some}
use node_vcdiff.Base.Run.{return, >>=-eq-return}
use node_vcdiff.Codec.{Coder, is_ok}
use node_vcdiff.Ctx.Defs.{
  Ctx, WorkData, no_work, queued, processed, is_busy, is_done, is_idle, is_finalizing, callback,
  make_ctx,
}
use node_vcdiff.Ctx.Process.{process}
use node_vcdiff.Ctx.Process.Laws.{process-Processed}
use node_vcdiff.Ctx.Write.{process_shim, after_shim}
use node_vcdiff.Ctx.Write.Cases.{Delivered, after_shim-cases}
use node_vcdiff.Ctx.Calls.{Calls, exec_all}
use node_vcdiff.Ctx.Calls.Laws.{exec_all-IsQuiet}
use node_vcdiff.Ctx.System.{Step, Reach, js, pool, loop, start, later}
use node_vcdiff.Ctx.Invariant.{
  Inv, CloseWaits, make_ctx-Inv, emit-Inv, closed_if_pending-Inv, Failed-Inv, finish_write-Inv,
}
use node_vcdiff.Ctx.Invariant.Calls.{exec-Inv, exec_all-Inv, exec-CloseWaits}

module _ (C : Coder) where
  pub process_shim-Inv :
      (w : WorkData) (c c' : Ctx C.State)
      → Inv c
      → c.work ≡ queued w
      → process_shim C w c ≡ return c'
      → Inv c'
  unfolding process_shim
  process_shim-Inv w c c' v q e =
      let alive : is_some c.coder ≡ true = v.alive (v.in_flight ∙ ap is_busy q) in
      let (c1, e1, e2) = >>=-eq-return (process C w.chunk w.is_last c) _ e in
      let p = process-Processed C w.chunk w.is_last c alive v.fresh v.settled v.failed e1 in
      grind arith

  Delivered-Inv :
      (inside : Calls) (c c' : Ctx C.State)
      → is_busy c.work ≡ false
      → is_idle c.state ≡ false
      → is_finalizing c.state ≡ false
      → (is_ok c.err ≡ false → is_done c.state ≡ true)
      → Delivered C (exec_all C inside) c c'
      → Inv c' × CloseWaits c'
  Delivered-Inv inside c c' quiet begun settled failed (inr (bad, f)) =
      (Failed-Inv c c' f quiet begun settled failed bad, ground arith)
  Delivered-Inv inside c c' quiet begun settled failed (inl (fine, (c2, e1, e2))) =
      closed_if_pending-Inv c2 c'
        (exec_all-Inv C inside _ c2
          (emit-Inv (callback c.output_buffer (is_done c.state)) _
            (finish_write-Inv c quiet begun settled failed))
          e1)
        e2

  pub after_shim-Inv :
      (w : WorkData) (inside : Calls) (c c' : Ctx C.State)
      → Inv c
      → c.work ≡ processed w
      → after_shim (exec_all C inside) true c ≡ return c'
      → Inv c' × CloseWaits c'
  after_shim-Inv w inside c c' v q e =
      let busy : c.write_in_progress ≡ true = v.in_flight ∙ ap is_busy q in
      Delivered-Inv inside (record c { work = no_work }) c' refl (v.begun w q) v.settled v.failed
        (after_shim-cases C (exec_all C inside) c c' (exec_all-IsQuiet C inside) busy e)

  process_shim-CloseWaits :
      (w : WorkData) (c c' : Ctx C.State)
      → Inv c
      → CloseWaits c
      → c.work ≡ queued w
      → process_shim C w c ≡ return c'
      → CloseWaits c'
  unfolding process_shim
  process_shim-CloseWaits w c c' v cw q e =
      let alive : is_some c.coder ≡ true = v.alive (v.in_flight ∙ ap is_busy q) in
      let (c1, e1, e2) = >>=-eq-return (process C w.chunk w.is_last c) _ e in
      let p = process-Processed C w.chunk w.is_last c alive v.fresh v.settled v.failed e1 in
      ground arith

  -- One step of any agent keeps the invariant, and a request to close pending only while a write is
  -- in progress.
  pub Step-Inv : (c c' : Ctx C.State) → Inv c → CloseWaits c → Step C c c' → Inv c' × CloseWaits c'
  Step-Inv c c' v w (js call e) = (exec-Inv C call c c' v e, exec-CloseWaits C call c c' v w e)
  Step-Inv c c' v w (pool work q e) =
      (process_shim-Inv work c c' v q e, process_shim-CloseWaits work c c' v w q e)
  Step-Inv c c' v w (loop work inside q e) = after_shim-Inv work inside c c' v q e

  -- Both hold in every context that JavaScript, the pool and the event loop can bring about.
  pub Reach-Inv : {s : C.State} {c : Ctx C.State} → Reach C s c → Inv c × CloseWaits c
  unfolding make_ctx
  Reach-Inv {s} start = (make_ctx-Inv s, λ h. cc)
  Reach-Inv (later {c} {c'} r st) = let (v, w) = Reach-Inv r in Step-Inv c c' v w st
