-- ===== src/Ctx/Write/Cases.antt =====
-- Inversion of a write that returned: either its result is delivered, or its error is reported.
use node_vcdiff.Base.{
  Bool, true, false, some, is_some, Bytes, ◌≡◌, refl, sym, Bool-cases, ap, subst, ◌⊎◌, inl, inr,
  arith, if◌then◌else◌,
}
use node_vcdiff.Base.Run.{Run, return, >>=-eq-return, return_inj}
use node_vcdiff.Codec.{Coder, is_ok}
use node_vcdiff.Ctx.Defs.{Ctx, no_work, is_done, has_error, callback, emit, close}
use node_vcdiff.Ctx.Process.{process}
use node_vcdiff.Ctx.Write.{
  Written, no_result, result, written_or_error, deliver_or_error, finish_write, check_error,
  after_shim, write, write_now, Focus, write_in, write_now_in, check_error_in, send_error_in,
}
use node_vcdiff.Ctx.Write.Errors.{IsQuiet, Failed, check_error-cases}

module _ (C : Coder) where
  -- The context that `Write` hands on after its assertions.
  abbrev pub begin_write : Bytes → Ctx C.State → Ctx C.State
  begin_write buffer c = record c { write_in_progress = true; in_buffer = some buffer }

  -- The three conditions under which `Write` gets past its assertions.
  abbrev pub CanWrite : Ctx C.State → Type 0
  CanWrite c = (is_some c.coder ≡ true) × (c.write_in_progress ≡ false) × (c.pending_close ≡ false)

  -- A synchronous write, put together from its parts.
  pub write_now_steps :
      (js : Ctx C.State → Run (Ctx C.State)) (chunk : Bytes) (is_last : Bool) (c c1 : Ctx C.State)
      (checked : Bool × Ctx C.State)
      → process C chunk is_last c ≡ return c1
      → check_error js c1 ≡ return checked
      → write_now C js chunk is_last c ≡ return (written_or_error checked)
  unfolding write_now
  write_now_steps js chunk is_last c c1 checked e e' = rw (e, e') refl

  pub write-write_now :
      (js : Ctx C.State → Run (Ctx C.State)) (buffer : Bytes) (is_last : Bool) (c : Ctx C.State)
      → CanWrite c
      → write C js buffer is_last false c ≡ write_now C js buffer is_last (begin_write buffer c)
  unfolding write
  write-write_now js buffer is_last c (alive, free, open_still) = ground arith

  -- What a synchronous write that returned has met, wherever its context stands.
  pub write_in-cases :
      {W : Type 0} (F : Focus C.State W) (js : W → Run W) (buffer : Bytes) (is_last : Bool) (w : W)
      {r : Written × W}
      → write_in C F js buffer is_last false w ≡ return r
      → CanWrite (F.get w)
        × (write_now_in C F js buffer is_last (F.put (begin_write buffer (F.get w)) w) ≡ return r)
  unfolding write_in
  write_in-cases F js buffer is_last w e = ground arith

  pub write_sync-cases :
      (js : Ctx C.State → Run (Ctx C.State)) (buffer : Bytes) (is_last : Bool) (c : Ctx C.State)
      {r : Written × Ctx C.State}
      → write C js buffer is_last false c ≡ return r
      → CanWrite c × (write_now C js buffer is_last (begin_write buffer c) ≡ return r)
  unfolding write
  write_sync-cases js buffer is_last c e = ground arith

  -- `c1` is the context that `Process` left.
  abbrev pub WroteNow : Ctx C.State → Written × Ctx C.State → Type 0
  WroteNow c1 r =
      ((is_ok c1.err ≡ true)
        × (r ≡ (result c1.output_buffer (is_done c1.state), (finish_write c1).2)))
      ⊎ ((is_ok c1.err ≡ false) × (r.0 ≡ no_result) × Failed c1 r.1)

  written_or_error-WroteNow :
      (c1 : Ctx C.State) (checked : Bool × Ctx C.State)
      → ((is_ok c1.err ≡ true) × (checked ≡ (true, c1)))
        ⊎ ((is_ok c1.err ≡ false) × (checked.0 ≡ false) × Failed c1 checked.1)
      → WroteNow c1 (written_or_error checked)
  unfolding finish_write
  written_or_error-WroteNow c1 checked (inl (fine, same)) = inl (fine, ap written_or_error same)
  written_or_error-WroteNow c1 (false, c) (inr (bad, stop, f)) = inr (bad, refl, f)
  written_or_error-WroteNow c1 (true, c) (inr (bad, stop, f)) = cc

  pub write_now-cases :
      (js : Ctx C.State → Run (Ctx C.State)) (chunk : Bytes) (is_last : Bool) (c c1 : Ctx C.State)
      {r : Written × Ctx C.State}
      → IsQuiet js
      → process C chunk is_last c ≡ return c1
      → c1.write_in_progress ≡ true
      → write_now C js chunk is_last c ≡ return r
      → WroteNow c1 r
  unfolding write_now
  write_now-cases js chunk is_last c c1 {r} quiet done busy e =
      let (checked, e3, e4) = >>=-eq-return (check_error js c1) _ (rw done at e) in
      let same : written_or_error checked ≡ r = cc in
      rw same at (written_or_error-WroteNow c1 checked (check_error-cases js c1 quiet busy e3))

  -- `c0` is the context that `CheckError` is given.
  abbrev pub Delivered : (Ctx C.State → Run (Ctx C.State)) → Ctx C.State → Ctx C.State → Type 0
  Delivered js c0 c' =
      ((is_ok c0.err ≡ true)
        × ((c2 : Ctx C.State) × (js
                (emit (callback c0.output_buffer (is_done c0.state)) (finish_write c0).2)
              ≡ return c2)
            × (c' ≡ (if c2.pending_close then close c2 else c2))))
      ⊎ ((is_ok c0.err ≡ false) × Failed c0 c')

  deliver_or_error-Delivered :
      (js : Ctx C.State → Run (Ctx C.State)) (c0 c' : Ctx C.State) (checked : Bool × Ctx C.State)
      → ((is_ok c0.err ≡ true) × (checked ≡ (true, c0)))
        ⊎ ((is_ok c0.err ≡ false) × (checked.0 ≡ false) × Failed c0 checked.1)
      → deliver_or_error js checked ≡ return c'
      → Delivered js c0 c'
  unfolding finish_write
  deliver_or_error-Delivered js c0 c' checked (inl (fine, same)) e =
      let (c2, e1, e2) =
        >>=-eq-return (js (emit (callback c0.output_buffer (is_done c0.state)) (finish_write c0).2))
          _ (subst (λ x. deliver_or_error js x ≡ return c') same e) in
      inl (fine, (c2, e1, ground arith))
  deliver_or_error-Delivered js c0 c' (false, c1) (inr (bad, stop, f)) e =
      let same : c1 ≡ c' = cc in inr (bad, subst (Failed c0) same f)
  deliver_or_error-Delivered js c0 c' (true, c1) (inr (bad, stop, f)) e = cc

  pub after_shim-cases :
      (js : Ctx C.State → Run (Ctx C.State)) (c c' : Ctx C.State)
      → IsQuiet js
      → c.write_in_progress ≡ true
      → after_shim js true c ≡ return c'
      → Delivered js (record c { work = no_work }) c'
  unfolding after_shim
  after_shim-cases js c c' quiet busy e =
      let c0 = record c { work = no_work } in
      let (checked, e1, e2) = >>=-eq-return (check_error js c0) (deliver_or_error js) e in
      deliver_or_error-Delivered js c0 c' checked (check_error-cases js c0 quiet busy e1) e2

module _ {S W : Type 0} (F : Focus S W) (js : W → Run W) where
  -- `CheckError` passes on what has no error, and has any other reported.
  pub check_error_in-cases :
      (w : W) {r : Bool × W}
      → check_error_in F js w ≡ return r
      → ((has_error (F.get w) ≡ false) × (r ≡ (true, w)))
        ⊎ ((w' : W) × (send_error_in F js w ≡ return w') × (r ≡ (false, w')))
  unfolding check_error_in
  check_error_in-cases w e = elim (Bool-cases (has_error (F.get w))) [
    | inl bad ↦
        let (w', e1, e2) = >>=-eq-return (send_error_in F js w) _ (rw bad at e) in
        inr (w', e1, sym (return_inj e2))
    | inr fine ↦ inl (fine, sym (return_inj (rw fine at e)))
  ]
