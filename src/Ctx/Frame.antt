-- ===== src/Ctx/Frame.antt =====
-- Only `Process` touches the coder, the state and the error code, and only `Reset` drops the coder.
-- So what `Process` keeps true of these three, and does not depend on the coder being there, always holds.
use node_vcdiff.Base.{
  Bool, true, false, Option, none, some, Bytes, ◌≡◌, refl, sym, ap, subst, inl, inr, ◌∙◌,
  Bool-cases,
}
use node_vcdiff.Base.Run.{return, >>=-eq-return}
use node_vcdiff.Codec.{Coder, Error, ok}
use node_vcdiff.Ctx.Defs.{
  Ctx, State, idle, no_work, processed, is_busy, is_done, is_finalizing, callback, close, make_ctx,
}
use node_vcdiff.Ctx.Process.{process}
use node_vcdiff.Ctx.Process.Laws.{process-Processed}
use node_vcdiff.Ctx.Write.{Written, write, write_now, process_shim, finish_write}
use node_vcdiff.Ctx.Write.Errors.{Failed}
use node_vcdiff.Ctx.Write.Cases.{
  begin_write, WroteNow, write_sync-cases, write_now-cases, Delivered, after_shim-cases,
}
use node_vcdiff.Ctx.Calls.{
  Call, Calls, write_sync, write_async, close_call, nothing, first, exec, exec_all,
}
use node_vcdiff.Ctx.Calls.Laws.{exec_all-IsQuiet, write_async-cases}
use node_vcdiff.Ctx.System.{Step, Reach, js, pool, loop, start, later}
use node_vcdiff.Ctx.Invariant.{Inv, emit-Inv, finish_write-Inv}
use node_vcdiff.Ctx.Invariant.Calls.{exec-Inv}
use node_vcdiff.Ctx.Invariant.Steps.{Reach-Inv}

module _ (C : Coder) (P : Option C.State → State → Error → Type 0)
    (dropped : (coder : Option C.State) (state : State) (err : Error)
      → P coder state err
      → P none state err)
    (process-P : (chunk : Bytes) (is_last : Bool) (c c' : Ctx C.State)
      → is_finalizing c.state ≡ false
      → P c.coder c.state c.err
      → process C chunk is_last c ≡ return c'
      → P c'.coder c'.state c'.err) where
  abbrev Holds : Ctx C.State → Type 0
  Holds c = P c.coder c.state c.err

  Failed-Holds : (c c' : Ctx C.State) → Failed c c' → Holds c → Holds c'
  Failed-Holds c c' f h = elim f.coder [
    | inl same ↦ rw (same, f.state, f.err) h
    | inr gone ↦ rw (gone, f.state, f.err) (dropped c.coder c.state c.err h)
  ]

  close-Holds : (c : Ctx C.State) → Holds c → Holds (close c)
  unfolding close
  close-Holds c h = elim (Bool-cases c.write_in_progress) [
    | inl busy ↦ rw busy h
    | inr free ↦ rw free (dropped c.coder c.state c.err h)
  ]

  WroteNow-Holds :
      (c : Ctx C.State) (r : Written × Ctx C.State) → WroteNow C c r → Holds c → Holds r.1
  unfolding finish_write
  WroteNow-Holds c r (inl (fine, e)) h = subst (λ x. Holds x.1) (sym e) h
  WroteNow-Holds c r (inr (bad, stop, f)) h = Failed-Holds c r.1 f h

  write_sync-Holds :
      (inside : Calls) (buffer : Bytes) (is_last : Bool) (c : Ctx C.State)
      {r : Written × Ctx C.State}
      → Inv c
      → Holds c
      → write C (exec_all C inside) buffer is_last false c ≡ return r
      → Holds r.1
  unfolding write_now
  write_sync-Holds inside buffer is_last c {r} v h e =
      let ((alive, free, _), e0) = write_sync-cases C (exec_all C inside) buffer is_last c e in
      let busy = begin_write C buffer c in
      let (c1, e1, e2) = >>=-eq-return (process C buffer is_last busy) _ e0 in
      let p = process-Processed C buffer is_last busy alive v.fresh v.settled v.failed e1 in
      WroteNow-Holds c1 r
        (write_now-cases C (exec_all C inside) buffer is_last busy c1 (exec_all-IsQuiet C inside) e1
          p.write_in_progress e0)
        (process-P buffer is_last busy c1 v.settled h e1)

  exec-Holds :
      (call : Call) (c c' : Ctx C.State) → Inv c → Holds c → exec C call c ≡ return c' → Holds c'
  unfolding exec write
  exec-Holds (write_sync buffer is_last inside) c c' v h e =
      let (r, e0, e1) = >>=-eq-return (write C (exec_all C inside) buffer is_last false c) _ e in
      let same : r.1 ≡ c' = cc in subst Holds same (write_sync-Holds inside buffer is_last c v h e0)
  exec-Holds (write_async buffer is_last) c c' v h e =
      let (_, same) = write_async-cases C buffer is_last c c' e in subst Holds (sym same) h
  exec-Holds close_call c c' v h e =
      let same : close c ≡ c' = cc in subst Holds same (close-Holds c h)

  exec_all-Holds :
      (calls : Calls) (c c' : Ctx C.State)
      → Inv c
      → Holds c
      → exec_all C calls c ≡ return c'
      → Holds c'
  unfolding exec_all
  exec_all-Holds nothing c c' v h e = let same : c ≡ c' = cc in subst Holds same h
  exec_all-Holds (first call calls) c c' v h e =
      let (c1, e1, e2) = >>=-eq-return (exec C call c) _ e in
      exec_all-Holds calls c1 c' (exec-Inv C call c c1 v e1) (exec-Holds call c c1 v h e1) e2

  Delivered-Holds :
      (inside : Calls) (c c' : Ctx C.State)
      → Inv (finish_write c).2
      → Holds c
      → Delivered C (exec_all C inside) c c'
      → Holds c'
  unfolding finish_write close
  Delivered-Holds inside c c' v h (inr (bad, f)) = Failed-Holds c c' f h
  Delivered-Holds inside c c' v h (inl (fine, (c2, e1, e2))) =
      let held : Holds c2 =
        exec_all-Holds inside _ c2 (emit-Inv (callback c.output_buffer (is_done c.state)) _ v) h
          e1 in
      elim (Bool-cases c2.pending_close) [
        | inl pending ↦ subst Holds (sym (rw pending at e2)) (close-Holds c2 held)
        | inr open_still ↦ subst Holds (sym (rw open_still at e2)) held
      ]

  Step-Holds : (c c' : Ctx C.State) → Inv c → Holds c → Step C c c' → Holds c'
  unfolding process_shim
  Step-Holds c c' v h (js call e) = exec-Holds call c c' v h e
  Step-Holds c c' v h (pool w q e) =
      let (c1, e1, e2) = >>=-eq-return (process C w.chunk w.is_last c) _ e in
      let same : record c1 { work = processed w } ≡ c' = cc in
      subst Holds same (process-P w.chunk w.is_last c c1 v.settled h e1)
  Step-Holds c c' v h (loop w inside q e) =
      let busy : c.write_in_progress ≡ true = v.in_flight ∙ ap is_busy q in
      Delivered-Holds inside (record c { work = no_work }) c'
        (finish_write-Inv _ refl (v.begun w q) v.settled v.failed) h
        (after_shim-cases C (exec_all C inside) c c' (exec_all-IsQuiet C inside) busy e)

  pub Reach-Holds :
      (s : C.State) (c : Ctx C.State) → P (some s) idle ok → Reach C s c → P c.coder c.state c.err
  unfolding make_ctx
  Reach-Holds s c h start = h
  Reach-Holds s c h (later {c = b} r st) = Step-Holds b c (Reach-Inv C r).0 (Reach-Holds s b h r) st
