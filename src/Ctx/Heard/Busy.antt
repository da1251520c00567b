-- ===== src/Ctx/Heard/Busy.antt =====
-- What JavaScript hears while a write is in progress: nothing but the arguments of the callback.
use node_vcdiff.Base.{
  true, false, none, append-nil, List, [], ◌∷◌, ◌++◌, ◌≡◌, refl, sym, ap, ◌∙◌, ◌⊎◌, inl, arith,
}
use node_vcdiff.Base.Run.{return, >>=-eq-return, return_inj}
use node_vcdiff.Codec.{Coder, get_error_string, error_code}
use node_vcdiff.Ctx.Defs.{Event, on_error, close, emit}
use node_vcdiff.Ctx.Write.{write_in, send_error_in}
use node_vcdiff.Ctx.Calls.{
  Call, Calls, write_sync, write_async, close_call, nothing, first, close_method,
}
use node_vcdiff.Ctx.Heard.{Heard, listening, argument, hear, hear_call, hear_calls, hear_entered}

-- The callback entered last is the last of the events.
pub argument-emit :
    (events : List Event) (e : Event) → argument (events ++ e ∷ []) ≡ argument (e ∷ [])
argument-emit [] e = refl
argument-emit (x ∷ []) e = ground arith
argument-emit (x ∷ y ∷ events) e = argument-emit (y ∷ events) e

module _ (C : Coder) where
  hear_call-busy :
      (call : Call) (w w' : Heard C.State)
      → w.ctx.write_in_progress ≡ true
      → hear_call C call w ≡ return w'
      → w' ≡ record w { ctx = record w.ctx { pending_close = true } }
  unfolding hear_call write_in close_method close
  hear_call-busy (write_sync buffer is_last inside) w w' busy e = ground arith
  hear_call-busy (write_async buffer is_last) w w' busy e = ground arith
  hear_call-busy close_call w w' busy e = ground arith

  -- `w'` is `w`, with a close noted at most.
  abbrev pub IsNoted : Heard C.State → Heard C.State → Type 0
  IsNoted w w' = (w' ≡ w) ⊎ (w' ≡ record w { ctx = record w.ctx { pending_close = true } })

  hear_calls-busy :
      (calls : Calls) (w w' : Heard C.State)
      → w.ctx.write_in_progress ≡ true
      → hear_calls C calls w ≡ return w'
      → IsNoted w w'
  unfolding hear_calls
  hear_calls-busy nothing w w' busy e = inl (sym (return_inj e))
  hear_calls-busy (first call calls) w w' busy e =
      let (w1, e1, e2) = >>=-eq-return (hear_call C call w) _ e in
      ground (arith, hear_call-busy call w w1 busy e1, hear_calls-busy calls w1 w')

  pub hear_entered-hear_calls :
      (inside : Calls) (w : Heard C.State)
      → hear_entered C inside w ≡ hear_calls C inside (hear (argument w.ctx.events) w)
  unfolding hear_entered hear_calls
  hear_entered-hear_calls nothing w = refl
  hear_entered-hear_calls (first call calls) w = refl

  -- What JavaScript and the context keep of a write whose error was reported.
  pub record Reported (w w' : Heard C.State) : Type 0 where
    pub heard : w'.heard ≡ w.heard
    pub idle : w'.ctx.write_in_progress ≡ false
    pub work : w'.ctx.work ≡ w.ctx.work
    pub output_buffer : w'.ctx.output_buffer ≡ w.ctx.output_buffer
    pub coder : (w'.ctx.coder ≡ w.ctx.coder) ⊎ (w'.ctx.coder ≡ none)

  pub send_error-Reported :
      (inside : Calls) (w w' : Heard C.State)
      → w.ctx.write_in_progress ≡ true
      → send_error_in listening (hear_entered C inside) w ≡ return w'
      → Reported w w'
  unfolding send_error_in close
  send_error-Reported inside w w' busy e =
      let event = on_error (get_error_string w.ctx.err) (error_code w.ctx.err) in
      let w0 = record w { ctx = emit event w.ctx } in
      let (w1, e1, e2) = >>=-eq-return (hear_entered C inside w0) _ e in
      let silent : hear (argument (w.ctx.events ++ event ∷ [])) w0 ≡ w0 =
        ap (λ out. hear out w0) (argument-emit w.ctx.events event)
        ∙ ap (λ x. record w0 { heard = x }) (append-nil w.heard) in
      let e1' : hear_calls C inside w0 ≡ return w1 =
        ap (hear_calls C inside) (sym silent) ∙ sym (hear_entered-hear_calls inside w0) ∙ e1 in
      ground (arith, hear_calls-busy inside w0 w1 busy e1')
