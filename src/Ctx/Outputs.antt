-- ===== src/Ctx/Outputs.antt =====
-- The output of asynchronous writes, over any history of writes, closes and callbacks.
use node_vcdiff.Base.{
  Bool, true, false, ◌&&◌, some, is_some, List, [], ◌∷◌, ◌++◌, Bytes, ◌≡◌, refl, sym, ap, subst,
  ◌∙◌, inl, inr, arith, append-nil, append_assoc, Bool-cases,
}
use node_vcdiff.Base.Run.{return, >>=-eq-return}
use node_vcdiff.Codec.{Coder}
use node_vcdiff.Codec.Recorded.{recorded}
use node_vcdiff.Ctx.Defs.{
  Ctx, Event, on_error, callback, no_work, processed, is_busy, is_done, close, make_ctx, emit,
}
use node_vcdiff.Ctx.Process.{process}
use node_vcdiff.Ctx.Process.Laws.{process-Processed}
use node_vcdiff.Ctx.Process.Output.{Accounted, Accounted-moved, process-Accounted}
use node_vcdiff.Ctx.Write.{process_shim, finish_write}
use node_vcdiff.Ctx.Write.Errors.{Failed}
use node_vcdiff.Ctx.Write.Cases.{Delivered, after_shim-cases}
use node_vcdiff.Ctx.Calls.{
  Call, Calls, write_sync, write_async, close_call, nothing, first, exec, exec_all,
}
use node_vcdiff.Ctx.Calls.Laws.{exec_all-IsQuiet, write_async-cases}
use node_vcdiff.Ctx.System.{Step, Reach, js, pool, loop, start, later}
use node_vcdiff.Ctx.Invariant.{Inv}
use node_vcdiff.Ctx.Invariant.Steps.{Reach-Inv}
use node_vcdiff.Ctx.Session.{IsAppending}

-- What `callback` was given, end to end.
abbrev pub outputs : List Event → Bytes
outputs [] = []
outputs (callback out finished ∷ events) = out ++ outputs events
outputs (on_error message errno ∷ events) = outputs events

outputs-append : (xs ys : List Event) → outputs (xs ++ ys) ≡ outputs xs ++ outputs ys
outputs-append [] ys = refl
outputs-append (callback out finished ∷ xs) ys = rw (outputs-append xs ys, append_assoc)
outputs-append (on_error message errno ∷ xs) ys = outputs-append xs ys

-- JavaScript that makes no synchronous write.
abbrev pub is_async : Call → Bool
is_async (write_sync buffer is_last inside) = false
is_async _ = true

abbrev pub all_async : Calls → Bool
all_async nothing = true
all_async (first call calls) = is_async call && all_async calls

module _ (C : Coder) where
  abbrev pub IsAsync : {c c' : Ctx C.State} → Step C c c' → Type 0
  IsAsync (js call e) = is_async call ≡ true
  IsAsync (pool w q e) = Unit {0}
  IsAsync (loop w inside q e) = all_async inside ≡ true

  pub data AsyncReach (s : C.State) : Ctx C.State → Type 0 where
    begin : AsyncReach s (make_ctx s)
    go_on :
        {c c' : Ctx C.State} → AsyncReach s c → (st : Step C c c') → IsAsync st → AsyncReach s c'

  AsyncReach-Reach : {s : C.State} {c : Ctx C.State} → AsyncReach s c → Reach C s c
  AsyncReach-Reach begin = start
  AsyncReach-Reach (go_on r st a) = later (AsyncReach-Reach r) st

module _ (C : Coder) (a : IsAppending C) where
  abbrev Holds : Ctx (C.State × Bytes) → Type 0
  Holds c = Accounted C a (outputs c.events) c.coder c.output_buffer

  close-Holds : (c : Ctx (C.State × Bytes)) → Holds c → Holds (close c)
  unfolding close
  close-Holds c h = elim (Bool-cases c.write_in_progress) [
    | inl busy ↦ rw busy h
    | inr free ↦ rw free tt
  ]

  exec-Holds :
      (call : Call) (c c' : Ctx (C.State × Bytes))
      → is_async call ≡ true
      → Holds c
      → exec (recorded C) call c ≡ return c'
      → Holds c'
  unfolding exec
  exec-Holds (write_sync buffer is_last inside) c c' quiet h e = cc
  exec-Holds (write_async buffer is_last) c c' quiet h e =
      let (_, same) = write_async-cases (recorded C) buffer is_last c c' e in
      subst Holds (sym same) h
  exec-Holds close_call c c' quiet h e =
      let same : close c ≡ c' = cc in subst Holds same (close-Holds c h)

  exec_all-Holds :
      (calls : Calls) (c c' : Ctx (C.State × Bytes))
      → all_async calls ≡ true
      → Holds c
      → exec_all (recorded C) calls c ≡ return c'
      → Holds c'
  unfolding exec_all
  exec_all-Holds nothing c c' quiet h e = let same : c ≡ c' = cc in subst Holds same h
  exec_all-Holds (first call calls) c c' quiet h e =
      let (c1, e1, e2) = >>=-eq-return (exec (recorded C) call c) _ e in
      exec_all-Holds calls c1 c' (ground arith) (exec-Holds call c c1 (ground arith) h e1) e2

  Failed-Holds : (c c' : Ctx (C.State × Bytes)) → Failed c c' → Holds c → Holds c'
  Failed-Holds c c' f h =
      let same : outputs c'.events ≡ outputs c.events =
        rw (f.events, outputs-append, append-nil) refl in
      elim f.coder [ inl kept ↦ rw (same, kept, f.output_buffer) h | inr gone ↦ rw gone tt ]

  -- What `FinishWrite` took from the output buffer is what `callback` is given.
  callback-Holds :
      (finished : Bool) (c : Ctx (C.State × Bytes))
      → Holds c
      → Holds (emit (callback c.output_buffer finished) (finish_write c).2)
  unfolding finish_write
  callback-Holds finished c h =
      let same : outputs (c.events ++ callback c.output_buffer finished ∷ []) ++ []
          ≡ outputs c.events ++ c.output_buffer =
        append-nil _ ∙ outputs-append c.events _ ∙ ap (λ x. outputs c.events ++ x) (append-nil _) in
      Accounted-moved C a c.coder _ _ _ _ same h

  Delivered-Holds :
      (inside : Calls) (c c' : Ctx (C.State × Bytes))
      → all_async inside ≡ true
      → Holds c
      → Delivered (recorded C) (exec_all (recorded C) inside) c c'
      → Holds c'
  unfolding close
  Delivered-Holds inside c c' quiet h (inr (bad, f)) = Failed-Holds c c' f h
  Delivered-Holds inside c c' quiet h (inl (fine, (c2, e1, e2))) =
      let held = exec_all-Holds inside _ c2 quiet (callback-Holds (is_done c.state) c h) e1 in
      elim (Bool-cases c2.pending_close) [
        | inl pending ↦ subst Holds (sym (rw pending at e2)) (close-Holds c2 held)
        | inr open_still ↦ subst Holds (sym (rw open_still at e2)) held
      ]

  Step-Holds :
      (c c' : Ctx (C.State × Bytes)) (st : Step (recorded C) c c')
      → Inv c
      → IsAsync (recorded C) st
      → Holds c
      → Holds c'
  unfolding process_shim
  Step-Holds c c' (js call e) v quiet h = exec-Holds call c c' quiet h e
  Step-Holds c c' (pool w q e) v quiet h =
      let alive : is_some c.coder ≡ true = v.alive (v.in_flight ∙ ap is_busy q) in
      let (c1, e1, e2) = >>=-eq-return (process (recorded C) w.chunk w.is_last c) _ e in
      let p =
        process-Processed (recorded C) w.chunk w.is_last c alive v.fresh v.settled v.failed e1 in
      let h1 = process-Accounted C a (outputs c.events) w.chunk w.is_last c c1 h e1 in
      let same : record c1 { work = processed w } ≡ c' = cc in subst Holds same (rw p.events h1)
  Step-Holds c c' (loop w inside q e) v quiet h =
      let busy : c.write_in_progress ≡ true = v.in_flight ∙ ap is_busy q in
      Delivered-Holds inside (record c { work = no_work }) c' quiet h
        (after_shim-cases (recorded C) (exec_all (recorded C) inside) c c'
          (exec_all-IsQuiet (recorded C) inside) busy e)

  AsyncReach-Holds :
      (s : C.State) (c : Ctx (C.State × Bytes)) → AsyncReach (recorded C) (s, []) c → Holds c
  unfolding make_ctx
  AsyncReach-Holds s c begin = refl
  AsyncReach-Holds s c (go_on {c = b} r st quiet) =
      Step-Holds b c st (Reach-Inv (recorded C) (AsyncReach-Reach (recorded C) r)).0 quiet
        (AsyncReach-Holds s b r)

  -- If the coder appends to its output, none of it is lost, repeated or put out of order by
  -- asynchronous writes, however they, closes and the calls that the callbacks make follow one another,
  -- as long as no write among them is synchronous: while the context has its coder, what was
  -- handed to `callback` and what waits in the output buffer are, end to end, all that the coder has
  -- put out.
  pub outputs_accounted :
      (s s' : C.State) (total : Bytes) (c : Ctx (C.State × Bytes))
      → AsyncReach (recorded C) (s, []) c
      → c.coder ≡ some (s', total)
      → outputs c.events ++ c.output_buffer ≡ total
  outputs_accounted s s' total c r e =
      subst (λ x. Accounted C a (outputs c.events) x c.output_buffer) e (AsyncReach-Holds s c r)
