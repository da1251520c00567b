-- ===== src/Ctx/Pool.antt =====
-- The thread pool against the event loop: `ProcessShim` runs while JavaScript goes on.
use node_vcdiff.Base.{true, some, ◌≡◌, ap, ◌∙◌, arith, is_some}
use node_vcdiff.Base.Run.{return, ◌>>=◌, returns}
use node_vcdiff.Codec.{Coder}
use node_vcdiff.Ctx.Defs.{Ctx, WorkData, queued, is_busy, close}
use node_vcdiff.Ctx.Process.{process}
use node_vcdiff.Ctx.Process.Laws.{process-returns}
use node_vcdiff.Ctx.Write.{process_shim}
use node_vcdiff.Ctx.System.{Reach}
use node_vcdiff.Ctx.Invariant.{Inv}
use node_vcdiff.Ctx.Invariant.Steps.{Reach-Inv}

module _ (C : Coder) where
  process_shim-returns :
      (w : WorkData) (c : Ctx C.State)
      → Inv c
      → c.work ≡ queued w
      → returns (process_shim C w c) ≡ true
  unfolding process_shim
  process_shim-returns w c v q =
      let alive : is_some c.coder ≡ true = v.alive (v.in_flight ∙ ap is_busy q) in
      ground (arith, process-returns C w.chunk w.is_last c alive v.fresh)

  -- In every context that can be reached with a request in the queue, the pool finds the coder
  -- alive, no assertion of `Process` fails, and the input buffer is held until it is through.
  pub pool_safe :
      (s : C.State) (c : Ctx C.State) (w : WorkData)
      → Reach C s c
      → c.work ≡ queued w
      → (is_some c.coder ≡ true)
        × (returns (process_shim C w c) ≡ true)
        × (c.in_buffer ≡ some w.chunk)
  pool_safe s c w r q =
      let v = (Reach-Inv C r).0 in
      (v.alive (v.in_flight ∙ ap is_busy q), process_shim-returns w c v q, v.held w q)

  -- The race between `close` on the event loop and `Process` on the pool is harmless: while a write
  -- is in progress either order gives the same context.
  pub process_shim-close_comm :
      (w : WorkData) (c : Ctx C.State)
      → c.write_in_progress ≡ true
      → process_shim C w (close c) ≡ (process_shim C w c >>= λ c'. return (close c'))
  unfolding process_shim process close
  process_shim-close_comm w c busy = ground arith
