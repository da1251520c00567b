-- ===== src/Ctx/Close.antt =====
-- `close`: at once, or after the write that is in progress.
use node_vcdiff.Base.{
  Bool, true, false, none, Bytes, ◌≡◌, refl, ap, subst, ◌∙◌, ◌⊎◌, inl, inr, arith,
}
use node_vcdiff.Base.Run.{
  return, abort, returns, returns-cases, >>=-eq-return, write_after_finalization,
}
use node_vcdiff.Codec.{Coder, get_error_string, error_code}
use node_vcdiff.Ctx.Defs.{
  Ctx, WorkData, no_work, processed, is_busy, is_done, callback, on_error, emit, close,
}
use node_vcdiff.Ctx.Write.{write, after_shim, finish_write, check_error, send_error}
use node_vcdiff.Ctx.Write.Cases.{Delivered, after_shim-cases}
use node_vcdiff.Ctx.Calls.{
  Call, Calls, write_sync, write_async, close_call, nothing, first, exec, exec_all,
}
use node_vcdiff.Ctx.Calls.Laws.{exec_all-IsQuiet}
use node_vcdiff.Ctx.System.{Reach}
use node_vcdiff.Ctx.Invariant.Steps.{Reach-Inv}

module _ (C : Coder) where
  -- No write is in progress, and the coder is gone or about to go.
  abbrev IsClosing : Ctx C.State → Type 0
  IsClosing c = (c.write_in_progress ≡ false) × ((c.coder ≡ none) ⊎ (c.pending_close ≡ true))

  exec-IsClosing :
      (call : Call) (c c' : Ctx C.State) → IsClosing c → exec C call c ≡ return c' → IsClosing c'
  unfolding exec write close
  exec-IsClosing (write_sync buffer is_last inside) c c' h e = ground arith
  exec-IsClosing (write_async buffer is_last) c c' h e = ground arith
  exec-IsClosing close_call c c' h e = ground arith

  exec_all-IsClosing :
      (calls : Calls) (c c' : Ctx C.State)
      → IsClosing c
      → exec_all C calls c ≡ return c'
      → IsClosing c'
  unfolding exec_all
  exec_all-IsClosing nothing c c' h e = let same : c ≡ c' = cc in subst IsClosing same h
  exec_all-IsClosing (first call calls) c c' h e =
      let (c1, e1, e2) = >>=-eq-return (exec C call c) _ e in
      exec_all-IsClosing calls c1 c' (exec-IsClosing call c c1 h e1) e2

  Delivered-closed :
      (inside : Calls) (c c' : Ctx C.State)
      → c.pending_close ≡ true
      → Delivered C (exec_all C inside) c c'
      → (c'.coder ≡ none) × (c'.write_in_progress ≡ false) × (c'.pending_close ≡ false)
  unfolding finish_write close
  Delivered-closed inside c c' pending (inr (bad, f)) = (f.closed pending, f.idle, f.not_pending)
  Delivered-closed inside c c' pending (inl (fine, (c2, e1, e2))) =
      let (free, gone) = exec_all-IsClosing inside _ c2 (refl, inr pending) e1 in ground arith

  -- JavaScript that makes no write.
  abbrev pub writes_nothing : Calls → Bool
  writes_nothing nothing = true
  writes_nothing (first close_call calls) = writes_nothing calls
  writes_nothing (first _ calls) = false

  exec_all-returns :
      (calls : Calls) (c : Ctx C.State)
      → writes_nothing calls ≡ true
      → returns (exec_all C calls c) ≡ true
  unfolding exec exec_all
  exec_all-returns nothing c h = refl
  exec_all-returns (first close_call calls) c h = exec_all-returns calls (close c) h
  exec_all-returns (first (write_sync buffer is_last inside) calls) c h = cc
  exec_all-returns (first (write_async buffer is_last) calls) c h = cc

  -- If its callback makes no write, `AfterShim` runs to its end.
  pub after_shim-returns :
      (inside : Calls) (c : Ctx C.State)
      → writes_nothing inside ≡ true
      → returns (after_shim (exec_all C inside) true c) ≡ true
  unfolding after_shim check_error send_error finish_write
  after_shim-returns inside c h =
      let c0 = record c { work = no_work } in
      ground (
        arith,
        exec_all-returns inside (emit (on_error (get_error_string c.err) (error_code c.err)) c0) h,
        exec_all-returns inside
            (emit (callback c.output_buffer (is_done c.state)) (finish_write c0).2) h,
      )

  -- A close that was asked for during a write is carried out when the write ends, with or without an
  -- error and whatever the callback does, as long as it returns: the coder is freed, no write is in
  -- progress and no close is pending.
  pub pending_close_frees :
      (s : C.State) (c c' : Ctx C.State) (w : WorkData) (inside : Calls)
      → Reach C s c
      → c.work ≡ processed w
      → c.pending_close ≡ true
      → after_shim (exec_all C inside) true c ≡ return c'
      → (c'.coder ≡ none) × (c'.write_in_progress ≡ false) × (c'.pending_close ≡ false)
  pending_close_frees s c c' w inside r q pending e =
      let busy : c.write_in_progress ≡ true = (Reach-Inv C r).0.in_flight ∙ ap is_busy q in
      Delivered-closed inside (record c { work = no_work }) c' pending
        (after_shim-cases C (exec_all C inside) c c' (exec_all-IsQuiet C inside) busy e)

  -- If the callback makes no write, the write ends without a failed assertion, and the pending close
  -- is carried out.
  pub pending_close_completes :
      (s : C.State) (c : Ctx C.State) (w : WorkData) (inside : Calls)
      → Reach C s c
      → c.work ≡ processed w
      → c.pending_close ≡ true
      → writes_nothing inside ≡ true
      → (c' : Ctx C.State) × (after_shim (exec_all C inside) true c ≡ return c')
        × (c'.coder ≡ none)
        × (c'.write_in_progress ≡ false)
  pending_close_completes s c w inside r q pending quiet =
      let (c', e) = returns-cases _ (after_shim-returns inside c quiet) in
      let (gone, free, _) = pending_close_frees s c c' w inside r q pending e in (c', e, gone, free)

  -- Without a coder every write dies in the assertion "attempt to write after finalization", and
  -- `close` leaves it so.
  pub closed_refuses_writes :
      (c : Ctx C.State) (buffer : Bytes) (is_last : Bool) (inside : Calls)
      → c.coder ≡ none
      → (exec C (write_sync buffer is_last inside) c ≡ abort write_after_finalization)
        × (exec C (write_async buffer is_last) c ≡ abort write_after_finalization)
        × ((close c).coder ≡ none)
  unfolding exec write close
  closed_refuses_writes c buffer is_last inside gone = ground arith
