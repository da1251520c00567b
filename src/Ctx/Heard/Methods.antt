-- ===== src/Ctx/Heard/Methods.antt =====
-- What the calls of JavaScript keep of the account of the output.
use node_vcdiff.Base.{
  Bool, true, false, [], ◌++◌, Bytes, ◌≡◌, sym, ap, subst, ◌∙◌, inl, inr, arith, append-nil,
  Bool-cases,
}
use node_vcdiff.Base.Run.{return, >>=-eq-return, return_inj}
use node_vcdiff.Codec.{Coder}
use node_vcdiff.Codec.Recorded.{recorded}
use node_vcdiff.Ctx.Defs.{no_work, is_busy, close}
use node_vcdiff.Ctx.Process.{process}
use node_vcdiff.Ctx.Process.Laws.{process_keeps}
use node_vcdiff.Ctx.Process.Output.{Accounted, Accounted-moved, process-Accounted}
use node_vcdiff.Ctx.Write.{
  finish_write, write_in, check_error_in, written_or_error_in, write_now_in,
}
use node_vcdiff.Ctx.Write.Cases.{begin_write, write_in-cases, check_error_in-cases}
use node_vcdiff.Ctx.Calls.{
  Call, Calls, write_sync, write_async, close_call, nothing, first, close_method,
}
use node_vcdiff.Ctx.Heard.{Heard, listening, given, hear, hear_call, hear_calls, hear_entered}
use node_vcdiff.Ctx.Heard.Busy.{Reported, send_error-Reported}
use node_vcdiff.Ctx.Session.{IsAppending}

module _ (C : Coder) (a : IsAppending C) where
  abbrev pub Listener : Type 0
  Listener = Heard (C.State × Bytes)

  abbrev pub IsTold : Listener → Type 0
  IsTold w = Accounted C a w.heard w.ctx.coder w.ctx.output_buffer

  -- What holds whenever JavaScript runs outside a write.
  abbrev pub Holds : Listener → Type 0
  Holds w = IsTold w × (w.ctx.write_in_progress ≡ is_busy w.ctx.work)

  pub close-Holds : (w : Listener) → Holds w → Holds (record w { ctx = close w.ctx })
  unfolding close
  close-Holds w (told, free) = elim (Bool-cases w.ctx.write_in_progress) [
    | inl busy ↦ rw busy (told, sym busy ∙ free)
    | inr idle ↦ rw idle (tt, sym idle ∙ free)
  ]

  pub Reported-Holds :
      (w w' : Listener) → w.ctx.work ≡ no_work → Reported (recorded C) w w' → IsTold w → Holds w'
  Reported-Holds w w' through f told =
      let free : w'.ctx.write_in_progress ≡ is_busy w'.ctx.work =
        f.idle ∙ sym (ap is_busy (f.work ∙ through)) in
      elim f.coder [
        | inl kept ↦ (rw (f.heard, kept, f.output_buffer) told, free)
        | inr gone ↦ (rw gone tt, free)
      ]

  -- What `FinishWrite` takes from the output buffer is what JavaScript hears.
  pub finished-Holds :
      (w : Listener)
      → w.ctx.work ≡ no_work
      → IsTold w
      → Holds (record { heard = w.heard ++ w.ctx.output_buffer; ctx = (finish_write w.ctx).2 })
  unfolding finish_write
  finished-Holds w through told = (
    Accounted-moved C a w.ctx.coder w.heard _ w.ctx.output_buffer [] (append-nil _) told,
    sym (ap is_busy through),
  )

  -- The end of a synchronous write, from the call of `CheckError`.
  written-Holds :
      (inside : Calls) (w : Listener) (checked : Bool × Listener)
      → w.ctx.write_in_progress ≡ true
      → w.ctx.work ≡ no_work
      → IsTold w
      → check_error_in listening (hear_entered (recorded C) inside) w ≡ return checked
      → (let r = written_or_error_in listening checked in Holds (hear (given r.0) r.1))
  unfolding finish_write
  written-Holds inside w checked busy through told e =
      elim (check_error_in-cases listening (hear_entered (recorded C) inside) w e) [
        | inl (fine, same) ↦
            subst (λ x. let r = written_or_error_in listening x in Holds (hear (given r.0) r.1))
              (sym same) (finished-Holds w through told)
        | inr (w', sent, same) ↦
            let held =
              Reported-Holds w w' through (send_error-Reported (recorded C) inside w w' busy sent)
                told in
            subst (λ x. let r = written_or_error_in listening x in Holds (hear (given r.0) r.1))
              (sym same)
              (subst (λ x. Holds (record w' { heard = x })) (sym (append-nil w'.heard)) held)
      ]

  idle_work : (w : Listener) → Holds w → w.ctx.write_in_progress ≡ false → w.ctx.work ≡ no_work
  idle_work w (told, free) idle = ground arith

  write_sync-Holds :
      (buffer : Bytes) (is_last : Bool) (inside : Calls) (w w' : Listener)
      → Holds w
      → hear_call (recorded C) (write_sync buffer is_last inside) w ≡ return w'
      → Holds w'
  unfolding hear_call write_now_in
  write_sync-Holds buffer is_last inside w w' held e =
      let enters = hear_entered (recorded C) inside in
      let (r, e1, e2) =
        >>=-eq-return (write_in (recorded C) listening enters buffer is_last false w) _ e in
      let (can, e3) = write_in-cases (recorded C) listening enters buffer is_last w e1 in
      let c = begin_write (recorded C) buffer w.ctx in
      let (c1, e4, e5) = >>=-eq-return (process (recorded C) buffer is_last c) _ e3 in
      let w1 = record w { ctx = c1 } in
      let (checked, e6, e7) = >>=-eq-return (check_error_in listening enters w1) _ e5 in
      let (busy, same, _) = process_keeps (recorded C) buffer is_last c c1 e4 in
      let told = process-Accounted C a w.heard buffer is_last c c1 held.0 e4 in
      let through : c1.work ≡ no_work = same ∙ idle_work w held can.1 in
      subst Holds (ap (λ x. hear (given x.0) x.1) (return_inj e7) ∙ return_inj e2)
        (written-Holds inside w1 checked busy through told e6)

  write_async-Holds :
      (buffer : Bytes) (is_last : Bool) (w w' : Listener)
      → Holds w
      → hear_call (recorded C) (write_async buffer is_last) w ≡ return w'
      → Holds w'
  unfolding hear_call write_in
  write_async-Holds buffer is_last w w' held e = ground arith

  pub hear_call-Holds :
      (call : Call) (w w' : Listener)
      → Holds w
      → hear_call (recorded C) call w ≡ return w'
      → Holds w'
  unfolding hear_call close_method
  hear_call-Holds (write_sync buffer is_last inside) w w' held e =
      write_sync-Holds buffer is_last inside w w' held e
  hear_call-Holds (write_async buffer is_last) w w' held e =
      write_async-Holds buffer is_last w w' held e
  hear_call-Holds close_call w w' held e = subst Holds (return_inj e) (close-Holds w held)

  pub hear_calls-Holds :
      (calls : Calls) (w w' : Listener)
      → Holds w
      → hear_calls (recorded C) calls w ≡ return w'
      → Holds w'
  unfolding hear_calls
  hear_calls-Holds nothing w w' held e = subst Holds (return_inj e) held
  hear_calls-Holds (first call calls) w w' held e =
      let (w1, e1, e2) = >>=-eq-return (hear_call (recorded C) call w) _ e in
      hear_calls-Holds calls w1 w' (hear_call-Holds call w w1 held e1) e2
