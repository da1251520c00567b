-- ===== src/Ctx/Heard/Erased.antt =====
-- Listening changes nothing: without what was heard, the operations are those of the context alone.
use node_vcdiff.Base.{
  true, false, Bool, Bytes, ◌≡◌, refl, sym, ap, ◌∙◌, inl, inr, arith, Bool-cases,
}
use node_vcdiff.Base.Run.{Run, return, ◌>>=◌, >>=-eq-return, return_inj}
use node_vcdiff.Codec.{Coder}
use node_vcdiff.Ctx.Defs.{Ctx, has_error, no_work}
use node_vcdiff.Ctx.Process.{process}
use node_vcdiff.Ctx.Write.{
  Written, finish_write, send_error, send_error_in, check_error, check_error_in, written_or_error,
  written_or_error_in, deliver_or_error, deliver_or_error_in, write, write_in, write_now_in,
  after_shim, after_shim_in,
}
use node_vcdiff.Ctx.Write.Cases.{begin_write, write_in-cases, write_now_steps, write-write_now}
use node_vcdiff.Ctx.Calls.{
  Call, Calls, write_sync, write_async, close_call, nothing, first, exec, exec_all, close_method,
}
use node_vcdiff.Ctx.System.{Reach}
use node_vcdiff.Ctx.System
use node_vcdiff.Ctx.Heard.{
  Heard, listening, argument, hear, hear_call, hear_calls, hear_entered, js, pool, loop, HeardReach,
  start, later,
}
use node_vcdiff.Ctx.Heard.Busy.{hear_entered-hear_calls}

module _ (C : Coder) where
  -- `alone` does to the context what `listens` does to it and to what was heard.
  abbrev Agrees : (Heard C.State → Run (Heard C.State)) → (Ctx C.State → Run (Ctx C.State)) → Type 0
  Agrees listens alone =
      (w w' : Heard C.State) → listens w ≡ return w' → alone w.ctx ≡ return w'.ctx

  module _ (listens : Heard C.State → Run (Heard C.State)) (alone : Ctx C.State → Run (Ctx C.State))
      (agree : Agrees listens alone) where
    send_error-erased : Agrees (send_error_in listening listens) (send_error alone)
    unfolding send_error
    send_error-erased w w' e =
        let (w1, e1, e2) = >>=-eq-return (listens _) _ e in
        rw (agree _ w1 e1) (ap (λ x. return x.ctx) (return_inj e2))

    check_error-erased :
        (w : Heard C.State) (r : Bool × Heard C.State)
        → check_error_in listening listens w ≡ return r
        → check_error alone w.ctx ≡ return (r.0, r.1.ctx)
    unfolding check_error
    check_error-erased w r e = elim (Bool-cases (has_error w.ctx)) [
      | inl bad ↦
          let (w1, e1, e2) = >>=-eq-return (send_error_in listening listens w) _ (rw bad at e) in
          rw (bad, send_error-erased w w1 e1) (ap (λ x. return (x.0, x.1.ctx)) (return_inj e2))
      | inr fine ↦ rw fine (ap (λ x. return (x.0, x.1.ctx)) (return_inj (rw fine at e)))
    ]

    written-erased :
        (checked : Bool × Heard C.State)
        → (let r = written_or_error_in listening checked in
            written_or_error (checked.0, checked.1.ctx) ≡ (r.0, r.1.ctx))
    unfolding finish_write
    written-erased (false, w) = refl
    written-erased (true, w) = refl

    write_sync-erased :
        (buffer : Bytes) (is_last : Bool) (w : Heard C.State) (r : Written × Heard C.State)
        → write_in C listening listens buffer is_last false w ≡ return r
        → write C alone buffer is_last false w.ctx ≡ return (r.0, r.1.ctx)
    unfolding write_now_in
    write_sync-erased buffer is_last w r e =
        let (can, e1) = write_in-cases C listening listens buffer is_last w e in
        let c = begin_write C buffer w.ctx in
        let (c1, e2, e3) = >>=-eq-return (process C buffer is_last c) _ e1 in
        let w1 = record w { ctx = c1 } in
        let (checked, e4, e5) = >>=-eq-return (check_error_in listening listens w1) _ e3 in
        write-write_now C alone buffer is_last w.ctx can
        ∙ write_now_steps C alone buffer is_last c c1 _ e2 (check_error-erased w1 checked e4)
        ∙ ap return (written-erased checked)
        ∙ ap (λ x. return (x.0, x.1.ctx)) (return_inj e5)

    deliver-erased :
        (checked : Bool × Heard C.State) (w' : Heard C.State)
        → deliver_or_error_in listening listens checked ≡ return w'
        → deliver_or_error alone (checked.0, checked.1.ctx) ≡ return w'.ctx
    unfolding finish_write
    deliver-erased (false, w) w' e = ap (λ x. return x.ctx) (return_inj e)
    deliver-erased (true, w) w' e =
        let (w1, e1, e2) = >>=-eq-return (listens _) _ e in
        rw (agree _ w1 e1) (ap (λ x. return x.ctx) (return_inj e2))

    after_shim-erased : Agrees (after_shim_in listening listens true) (after_shim alone true)
    unfolding after_shim
    after_shim-erased w w' e =
        let w0 = record w { ctx = record w.ctx { work = no_work } } in
        let (checked, e1, e2) =
          >>=-eq-return (check_error_in listening listens w0)
            (deliver_or_error_in listening listens) e in
        rw (check_error-erased w0 checked e1) (deliver-erased checked w' e2)

  write_async-erased :
      (buffer : Bytes) (is_last : Bool)
      → Agrees (hear_call C (write_async buffer is_last)) (exec C (write_async buffer is_last))
  unfolding hear_call exec write
  write_async-erased buffer is_last w w' e = ground arith

  -- The body of a callback listens first.
  entered-erased :
      (inside : Calls)
      → Agrees (hear_calls C inside) (exec_all C inside)
      → Agrees (hear_entered C inside) (exec_all C inside)
  entered-erased inside agree w w' e =
      agree (hear (argument w.ctx.events) w) w' (sym (hear_entered-hear_calls C inside w) ∙ e)

  write_sync_call-erased :
      (buffer : Bytes) (is_last : Bool) (inside : Calls)
      → Agrees (hear_entered C inside) (exec_all C inside)
      → Agrees
          (hear_call C (write_sync buffer is_last inside))
          (exec C (write_sync buffer is_last inside))
  unfolding hear_call exec
  write_sync_call-erased buffer is_last inside agree w w' e =
      let (r, e1, e2) =
        >>=-eq-return (write_in C listening (hear_entered C inside) buffer is_last false w) _ e in
      ap (λ m. m >>= λ x. return x.1)
        (write_sync-erased (hear_entered C inside) (exec_all C inside) agree buffer is_last w r e1)
      ∙ ap (λ x. return x.ctx) (return_inj e2)

  -- The calls do to the context what they do when nobody listens.
  hear_calls-erased : (calls : Calls) → Agrees (hear_calls C calls) (exec_all C calls)
  unfolding hear_calls exec_all close_method
  hear_calls-erased nothing w w' e = ap (λ x. return x.ctx) (return_inj e)
  hear_calls-erased (first (write_sync buffer is_last inside) calls) w w' e =
      let (w1, e1, e2) = >>=-eq-return (hear_call C (write_sync buffer is_last inside) w) _ e in
      rw
        (write_sync_call-erased buffer is_last inside
          (entered-erased inside (hear_calls-erased inside)) w w1 e1)
        (hear_calls-erased calls w1 w' e2)
  hear_calls-erased (first (write_async buffer is_last) calls) w w' e =
      let (w1, e1, e2) = >>=-eq-return (hear_call C (write_async buffer is_last) w) _ e in
      rw (write_async-erased buffer is_last w w1 e1) (hear_calls-erased calls w1 w' e2)
  hear_calls-erased (first close_call calls) w w' e = hear_calls-erased calls _ w' e

  hear_call-erased : (call : Call) → Agrees (hear_call C call) (exec C call)
  unfolding hear_call exec
  hear_call-erased (write_sync buffer is_last inside) w w' e =
      write_sync_call-erased buffer is_last inside
        (entered-erased inside (hear_calls-erased inside)) w w' e
  hear_call-erased (write_async buffer is_last) w w' e = write_async-erased buffer is_last w w' e
  hear_call-erased close_call w w' e = ap (λ x. return x.ctx) (return_inj e)

  -- Without what was heard, each history of a context and its listener is one of the context.
  pub HeardReach-Reach : (s : C.State) (w : Heard C.State) → HeardReach C s w → Reach C s w.ctx
  HeardReach-Reach s w start = System.start
  HeardReach-Reach s w (later {w = v} r (js call e)) =
      System.later (HeardReach-Reach s v r) (System.js call (hear_call-erased call v w e))
  HeardReach-Reach s w (later {w = v} r (pool request c q e same)) =
      System.later (HeardReach-Reach s v r)
        (System.pool request q (e ∙ ap (λ x. return x.ctx) (sym same)))
  HeardReach-Reach s w (later {w = v} r (loop request inside q e)) =
      System.later (HeardReach-Reach s v r) (
        System.loop request inside q (
          after_shim-erased (hear_entered C inside) (exec_all C inside)
            (entered-erased inside (hear_calls-erased inside)) v w e))
