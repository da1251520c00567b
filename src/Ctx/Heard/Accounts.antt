-- ===== src/Ctx/Heard/Accounts.antt =====
-- What JavaScript was given of the output, whichever way it writes.
use node_vcdiff.Base.{
  Bool, true, some, [], ◌++◌, Bytes, ◌≡◌, refl, sym, ap, subst, ◌∙◌, inl, inr, Bool-cases,
  if◌then◌else◌,
}
use node_vcdiff.Base.Run.{return, >>=-eq-return, return_inj}
use node_vcdiff.Codec.{Coder}
use node_vcdiff.Codec.Recorded.{recorded}
use node_vcdiff.Ctx.Defs.{callback, no_work, is_busy, is_done, close, make_ctx, emit}
use node_vcdiff.Ctx.Process.{process}
use node_vcdiff.Ctx.Process.Laws.{process_keeps}
use node_vcdiff.Ctx.Process.Output.{Accounted, process-Accounted}
use node_vcdiff.Ctx.Write.{
  finish_write, check_error_in, deliver_or_error_in, after_shim_in, process_shim,
}
use node_vcdiff.Ctx.Write.Cases.{check_error_in-cases}
use node_vcdiff.Ctx.Calls.{Calls}
use node_vcdiff.Ctx.Heard.{
  listening, argument, hear, hear_entered, HeardStep, js, pool, loop, HeardReach, start, later,
}
use node_vcdiff.Ctx.Heard.Methods.{
  Listener, IsTold, Holds, close-Holds, Reported-Holds, finished-Holds, hear_call-Holds,
  hear_calls-Holds,
}
use node_vcdiff.Ctx.Heard.Busy.{argument-emit, hear_entered-hear_calls, send_error-Reported}
use node_vcdiff.Ctx.Session.{IsAppending}

module _ (C : Coder) (a : IsAppending C) where
  close_if_pending-Holds :
      (w w' : Listener C a)
      → Holds C a w
      → return (record w { ctx = if w.ctx.pending_close then close w.ctx else w.ctx }) ≡ return w'
      → Holds C a w'
  unfolding close
  close_if_pending-Holds w w' held e =
      subst (Holds C a) (return_inj e) (elim (Bool-cases w.ctx.pending_close) [
        | inl pending ↦ rw pending (close-Holds C a w held)
        | inr open_still ↦ rw open_still held
      ])

  -- The callback is entered with the output, which `FinishWrite` took from the buffer.
  deliver-Holds :
      (inside : Calls) (w w' : Listener C a)
      → w.ctx.work ≡ no_work
      → IsTold C a w
      → deliver_or_error_in listening (hear_entered (recorded C) inside) (true, w) ≡ return w'
      → Holds C a w'
  unfolding finish_write
  deliver-Holds inside w w' through told e =
      let out = w.ctx.output_buffer in
      let event = callback out (is_done w.ctx.state) in
      let c = emit event (finish_write w.ctx).2 in
      let w0 = record w { ctx = c } in
      let (w1, e1, e2) = >>=-eq-return (hear_entered (recorded C) inside w0) _ e in
      let told_all : hear (argument c.events) w0 ≡ hear out w0 =
        ap (λ x. hear x w0) (argument-emit w.ctx.events event) in
      let held = subst (Holds C a) (sym told_all) (finished-Holds C a w through told) in
      close_if_pending-Holds w1 w'
        (hear_calls-Holds C a inside _ w1 held
          (sym (hear_entered-hear_calls (recorded C) inside w0) ∙ e1))
        e2

  -- The end of an asynchronous write, from the call of `CheckError`.
  delivered-Holds :
      (inside : Calls) (w : Listener C a) (checked : Bool × Listener C a) (w' : Listener C a)
      → w.ctx.write_in_progress ≡ true
      → w.ctx.work ≡ no_work
      → IsTold C a w
      → check_error_in listening (hear_entered (recorded C) inside) w ≡ return checked
      → deliver_or_error_in listening (hear_entered (recorded C) inside) checked ≡ return w'
      → Holds C a w'
  delivered-Holds inside w checked w' busy through told e e' =
      let enters = hear_entered (recorded C) inside in
      elim (check_error_in-cases listening enters w e) [
        | inl (fine, same) ↦
            deliver-Holds inside w w' through told
              (subst (λ x. deliver_or_error_in listening enters x ≡ return w') same e')
        | inr (w1, sent, same) ↦
            let e1 = subst (λ x. deliver_or_error_in listening enters x ≡ return w') same e' in
            subst (Holds C a) (return_inj e1) (
              Reported-Holds C a w w1 through
                (send_error-Reported (recorded C) inside w w1 busy sent) told)
      ]

  HeardStep-Holds : (w w' : Listener C a) → HeardStep (recorded C) w w' → Holds C a w → Holds C a w'
  unfolding process_shim after_shim_in
  HeardStep-Holds w w' (js call e) held = hear_call-Holds C a call w w' held e
  HeardStep-Holds w w' (pool request c q e same) held =
      let (c1, e1, e2) =
        >>=-eq-return (process (recorded C) request.chunk request.is_last w.ctx) _ e in
      let told = process-Accounted C a w.heard request.chunk request.is_last w.ctx c1 held.0 e1 in
      let (busy, kept, _) = process_keeps (recorded C) request.chunk request.is_last w.ctx c1 e1 in
      subst (Holds C a) (ap (λ x. record w { ctx = x }) (return_inj e2) ∙ sym same)
        (told, busy ∙ held.1 ∙ ap is_busy q)
  HeardStep-Holds w w' (loop request inside q e) held =
      let w0 = record w { ctx = record w.ctx { work = no_work } } in
      let enters = hear_entered (recorded C) inside in
      let (checked, e1, e2) =
        >>=-eq-return (check_error_in listening enters w0) (deliver_or_error_in listening enters)
          e in
      delivered-Holds inside w0 checked w' (held.1 ∙ ap is_busy q) refl held.0 e1 e2

  HeardReach-Holds :
      (s : C.State) (w : Listener C a) → HeardReach (recorded C) (s, []) w → Holds C a w
  unfolding make_ctx
  HeardReach-Holds s w start = (refl, refl)
  HeardReach-Holds s w (later {w = v} r st) = HeardStep-Holds v w st (HeardReach-Holds s v r)

  -- If the coder appends to its output, none of it is lost, repeated or put out of order, however
  -- synchronous and asynchronous writes, closes and the calls that the callbacks make follow one
  -- another: while the context has its coder, what JavaScript was given, as results of `writeSync` and
  -- as arguments of `callback` in the order in which it gets them, and what waits in the output
  -- buffer are, end to end, all that the coder has put out.
  pub heard_accounted :
      (s s' : C.State) (total : Bytes) (w : Listener C a)
      → HeardReach (recorded C) (s, []) w
      → w.ctx.coder ≡ some (s', total)
      → w.heard ++ w.ctx.output_buffer ≡ total
  heard_accounted s s' total w r e =
      subst (λ x. Accounted C a w.heard x w.ctx.output_buffer) e (HeardReach-Holds s w r).0
