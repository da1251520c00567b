-- ===== src/Ctx/InBuffer.antt =====
-- How long a context refers to its input: `in_buffer_`.
use node_vcdiff.Base.{
  Bool, true, false, ◌||◌, is_some, Bytes, ◌≡◌, refl, sym, ap, subst, ◌∙◌, inl, inr, arith,
  Bool-cases,
}
use node_vcdiff.Base.Run.{return, >>=-eq-return, return_inj}
use node_vcdiff.Codec.{Coder, is_ok}
use node_vcdiff.Ctx.Defs.{Ctx, no_work, processed, is_busy, has_error, close, make_ctx}
use node_vcdiff.Ctx.Process.{process}
use node_vcdiff.Ctx.Process.Laws.{process_keeps}
use node_vcdiff.Ctx.Write.{Written, write, write_now, process_shim, finish_write}
use node_vcdiff.Ctx.Write.Errors.{Failed}
use node_vcdiff.Ctx.Write.Cases.{
  begin_write, WroteNow, write_sync-cases, write_now-cases, Delivered, after_shim-cases,
}
use node_vcdiff.Ctx.Calls.{
  Call, Calls, write_sync, write_async, close_call, nothing, first, exec, exec_all,
}
use node_vcdiff.Ctx.Calls.Laws.{exec_all-IsQuiet, write_async-cases}
use node_vcdiff.Ctx.System.{Step, Reach, js, pool, loop, start, later}
use node_vcdiff.Ctx.Invariant.Steps.{Reach-Inv}

module _ (C : Coder) where
  abbrev HasInput : Ctx C.State → Type 0
  HasInput c = is_some c.in_buffer ≡ (c.write_in_progress || has_error c)

  -- During a write the input is there, whatever the error code.
  HasInput-busy :
      (c : Ctx C.State) → c.write_in_progress ≡ true → is_some c.in_buffer ≡ true → HasInput c
  HasInput-busy c busy there = ground arith

  busy-there :
      (c : Ctx C.State) → c.write_in_progress ≡ true → HasInput c → is_some c.in_buffer ≡ true
  busy-there c busy h = ground arith

  Failed-HasInput :
      (c c' : Ctx C.State)
      → is_ok c.err ≡ false
      → is_some c.in_buffer ≡ true
      → Failed c c'
      → HasInput c'
  Failed-HasInput c c' bad there f = rw (f.in_buffer, f.idle, f.err, bad) there

  close-HasInput : (c : Ctx C.State) → HasInput c → HasInput (close c)
  unfolding close
  close-HasInput c h = ground arith

  WroteNow-HasInput :
      (c : Ctx C.State) (r : Written × Ctx C.State)
      → is_some c.in_buffer ≡ true
      → WroteNow C c r
      → HasInput r.1
  unfolding finish_write
  WroteNow-HasInput c r there (inl (fine, e)) = subst (λ x. HasInput x.1) (sym e) (rw fine refl)
  WroteNow-HasInput c r there (inr (bad, stop, f)) = Failed-HasInput c r.1 bad there f

  write_sync-HasInput :
      (inside : Calls) (buffer : Bytes) (is_last : Bool) (c : Ctx C.State)
      {r : Written × Ctx C.State}
      → write C (exec_all C inside) buffer is_last false c ≡ return r
      → HasInput r.1
  unfolding write_now
  write_sync-HasInput inside buffer is_last c {r} e =
      let (can, e0) = write_sync-cases C (exec_all C inside) buffer is_last c e in
      let busy = begin_write C buffer c in
      let (c1, e1, e2) = >>=-eq-return (process C buffer is_last busy) _ e0 in
      let (still, same, held) = process_keeps C buffer is_last busy c1 e1 in
      WroteNow-HasInput c1 r (ap is_some held) (
        write_now-cases C (exec_all C inside) buffer is_last busy c1 (exec_all-IsQuiet C inside) e1
          still e0)

  exec-HasInput :
      (call : Call) (c c' : Ctx C.State) → HasInput c → exec C call c ≡ return c' → HasInput c'
  unfolding exec
  exec-HasInput (write_sync buffer is_last inside) c c' h e =
      let (r, e0, e1) = >>=-eq-return (write C (exec_all C inside) buffer is_last false c) _ e in
      subst HasInput (return_inj e1) (write_sync-HasInput inside buffer is_last c e0)
  exec-HasInput (write_async buffer is_last) c c' h e =
      let (can, same) = write_async-cases C buffer is_last c c' e in subst HasInput (sym same) refl
  exec-HasInput close_call c c' h e = subst HasInput (return_inj e) (close-HasInput c h)

  exec_all-HasInput :
      (calls : Calls) (c c' : Ctx C.State)
      → HasInput c
      → exec_all C calls c ≡ return c'
      → HasInput c'
  unfolding exec_all
  exec_all-HasInput nothing c c' h e = subst HasInput (return_inj e) h
  exec_all-HasInput (first call calls) c c' h e =
      let (c1, e1, e2) = >>=-eq-return (exec C call c) _ e in
      exec_all-HasInput calls c1 c' (exec-HasInput call c c1 h e1) e2

  Delivered-HasInput :
      (inside : Calls) (c c' : Ctx C.State)
      → is_some c.in_buffer ≡ true
      → Delivered C (exec_all C inside) c c'
      → HasInput c'
  unfolding finish_write close
  Delivered-HasInput inside c c' there (inr (bad, f)) = Failed-HasInput c c' bad there f
  Delivered-HasInput inside c c' there (inl (fine, (c2, e1, e2))) =
      let held : HasInput c2 = exec_all-HasInput inside _ c2 (rw fine refl) e1 in
      elim (Bool-cases c2.pending_close) [
        | inl pending ↦ subst HasInput (sym (rw pending at e2)) (close-HasInput c2 held)
        | inr open_still ↦ subst HasInput (sym (rw open_still at e2)) held
      ]

  Step-HasInput :
      (s : C.State) (c c' : Ctx C.State) → Reach C s c → HasInput c → Step C c c' → HasInput c'
  unfolding process_shim
  Step-HasInput s c c' r h (js call e) = exec-HasInput call c c' h e
  Step-HasInput s c c' r h (pool w q e) =
      let busy : c.write_in_progress ≡ true = (Reach-Inv C r).0.in_flight ∙ ap is_busy q in
      let (c1, e1, e2) = >>=-eq-return (process C w.chunk w.is_last c) _ e in
      let (still, same, held) = process_keeps C w.chunk w.is_last c c1 e1 in
      subst HasInput (return_inj e2) (
        HasInput-busy (record c1 { work = processed w }) (still ∙ busy)
          (ap is_some held ∙ busy-there c busy h))
  Step-HasInput s c c' r h (loop w inside q e) =
      let busy : c.write_in_progress ≡ true = (Reach-Inv C r).0.in_flight ∙ ap is_busy q in
      Delivered-HasInput inside (record c { work = no_work }) c' (busy-there c busy h)
        (after_shim-cases C (exec_all C inside) c c' (exec_all-IsQuiet C inside) busy e)

  -- In every reachable state a context refers to an input buffer exactly while a write is in progress
  -- or after an error. The bug: a context with an error, closed or not, keeps an input.
  pub in_buffer_held :
      (s : C.State) (c : Ctx C.State)
      → Reach C s c
      → is_some c.in_buffer ≡ (c.write_in_progress || has_error c)
  unfolding make_ctx
  in_buffer_held s c start = refl
  in_buffer_held s c (later {c = b} r st) = Step-HasInput s b c r (in_buffer_held s b r) st
