-- ===== src/Ctx/Invariant/Calls.antt =====
-- The invariant under the calls that JavaScript makes.
use node_vcdiff.Base.{Bool, false, Bytes, ◌≡◌, subst, arith}
use node_vcdiff.Base.Run.{return, >>=-eq-return}
use node_vcdiff.Codec.{Coder}
use node_vcdiff.Ctx.Defs.{Ctx, close}
use node_vcdiff.Ctx.Process.{process}
use node_vcdiff.Ctx.Process.Laws.{process-Processed}
use node_vcdiff.Ctx.Write.{Written, write, write_now, finish_write}
use node_vcdiff.Ctx.Write.Cases.{begin_write, WroteNow, write_sync-cases, write_now-cases}
use node_vcdiff.Ctx.Calls.{
  Call, Calls, write_sync, write_async, close_call, nothing, first, exec, exec_all,
}
use node_vcdiff.Ctx.Calls.Laws.{exec_all-IsQuiet}
use node_vcdiff.Ctx.Invariant.{Inv, CloseWaits, close-Inv, WroteNow-Inv}

module _ (C : Coder) where
  pub write_sync-Inv :
      (inside : Calls) (buffer : Bytes) (is_last : Bool) (c : Ctx C.State)
      {r : Written × Ctx C.State}
      → Inv c
      → write C (exec_all C inside) buffer is_last false c ≡ return r
      → Inv r.1
  unfolding write_now
  write_sync-Inv inside buffer is_last c {r} v e =
      let ((alive, free, _), e0) = write_sync-cases C (exec_all C inside) buffer is_last c e in
      let busy = begin_write C buffer c in
      let (c1, e1, e2) = >>=-eq-return (process C buffer is_last busy) _ e0 in
      let p = process-Processed C buffer is_last busy alive v.fresh v.settled v.failed e1 in
      WroteNow-Inv C busy c1 r p (ground arith) (
        write_now-cases C (exec_all C inside) buffer is_last busy c1 (exec_all-IsQuiet C inside) e1
          p.write_in_progress e0)

  write_sync-CloseWaits :
      (inside : Calls) (buffer : Bytes) (is_last : Bool) (c : Ctx C.State)
      {r : Written × Ctx C.State}
      → Inv c
      → write C (exec_all C inside) buffer is_last false c ≡ return r
      → CloseWaits r.1
  unfolding write_now finish_write
  write_sync-CloseWaits inside buffer is_last c {r} v e =
      let ((alive, free, not_pending), e0) =
        write_sync-cases C (exec_all C inside) buffer is_last c e in
      let busy = begin_write C buffer c in
      let (c1, e1, e2) = >>=-eq-return (process C buffer is_last busy) _ e0 in
      let p = process-Processed C buffer is_last busy alive v.fresh v.settled v.failed e1 in
      let waits : WroteNow C c1 r → CloseWaits r.1 = λ (w : WroteNow C c1 r). ground arith in
      waits (
        write_now-cases C (exec_all C inside) buffer is_last busy c1 (exec_all-IsQuiet C inside) e1
          p.write_in_progress e0)

  -- Every call of JavaScript that returns keeps the invariant.
  pub exec-Inv : (call : Call) (c c' : Ctx C.State) → Inv c → exec C call c ≡ return c' → Inv c'
  unfolding exec write
  exec-Inv (write_sync buffer is_last inside) c c' v e =
      let (r, e0, e1) = >>=-eq-return (write C (exec_all C inside) buffer is_last false c) _ e in
      let same : r.1 ≡ c' = cc in subst Inv same (write_sync-Inv inside buffer is_last c v e0)
  exec-Inv (write_async buffer is_last) c c' v e = grind arith
  exec-Inv close_call c c' v e = ground (arith, close-Inv c v)

  pub exec_all-Inv :
      (calls : Calls) (c c' : Ctx C.State) → Inv c → exec_all C calls c ≡ return c' → Inv c'
  unfolding exec_all
  exec_all-Inv nothing c c' v e = let same : c ≡ c' = cc in subst Inv same v
  exec_all-Inv (first call calls) c c' v e =
      let (c1, e1, e2) = >>=-eq-return (exec C call c) _ e in
      exec_all-Inv calls c1 c' (exec-Inv call c c1 v e1) e2

  pub exec-CloseWaits :
      (call : Call) (c c' : Ctx C.State)
      → Inv c
      → CloseWaits c
      → exec C call c ≡ return c'
      → CloseWaits c'
  unfolding exec write close
  exec-CloseWaits (write_sync buffer is_last inside) c c' v w e =
      let (r, e0, e1) = >>=-eq-return (write C (exec_all C inside) buffer is_last false c) _ e in
      let same : r.1 ≡ c' = cc in
      subst CloseWaits same (write_sync-CloseWaits inside buffer is_last c v e0)
  exec-CloseWaits (write_async buffer is_last) c c' v w e = ground arith
  exec-CloseWaits close_call c c' v w e = ground arith
