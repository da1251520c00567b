-- ===== src/Ctx/Alive.antt =====
-- When a context has its coder.
use node_vcdiff.Base.{true, is_some, ◌≡◌, ◌∙◌, arith}
use node_vcdiff.Base.Run.{return}
use node_vcdiff.Codec.{Coder}
use node_vcdiff.Ctx.Defs.{Ctx, is_busy, close}
use node_vcdiff.Ctx.Write.{write}
use node_vcdiff.Ctx.Calls.{Call, write_sync, write_async, close_call, exec}
use node_vcdiff.Ctx.System.{Reach}
use node_vcdiff.Ctx.Invariant.Steps.{Reach-Inv}

module _ (C : Coder) where
  -- No call of JavaScript makes a coder.
  pub exec-alive :
      (call : Call) (c c' : Ctx C.State)
      → exec C call c ≡ return c'
      → is_some c'.coder ≡ true
      → is_some c.coder ≡ true
  unfolding exec write close
  exec-alive (write_sync buffer is_last inside) c c' e h = ground arith
  exec-alive (write_async buffer is_last) c c' e h = ground arith
  exec-alive close_call c c' e h = ground arith

  pub busy-alive :
      {s : C.State} (c : Ctx C.State) → Reach C s c → is_busy c.work ≡ true → is_some c.coder ≡ true
  busy-alive c r busy = let v = (Reach-Inv C r).0 in v.alive (v.in_flight ∙ busy)
