-- ===== src/Ctx/Turn.antt =====
-- An asynchronous write that nothing interrupts, from a context without callbacks to react to.
use node_vcdiff.Base.{Bool, true, false, [], ◌∷◌, Bytes, ◌≡◌, ◌⊎◌, inl, inr, arith}
use node_vcdiff.Base.Run.{return, returns, >>=-eq-return}
use node_vcdiff.Codec.{Coder, is_ok, get_error_string, error_code}
use node_vcdiff.Ctx.Defs.{Ctx, is_done, on_error}
use node_vcdiff.Ctx.Process.{process}
use node_vcdiff.Ctx.Process.Laws.{Processed, process-Processed, process-returns}
use node_vcdiff.Ctx.Write.{
  Written, result, no_result, write, write_now, check_error, send_error, finish_write,
}
use node_vcdiff.Ctx.Write.Cases.{CanWrite, begin_write, WroteNow, write_sync-cases, write_now-cases}
use node_vcdiff.Ctx.Calls.{nothing, exec_all}
use node_vcdiff.Ctx.Calls.Laws.{exec_all-IsQuiet}
use node_vcdiff.Ctx.Invariant.{Inv}
use node_vcdiff.Ctx.Session.{delivered}

module _ (C : Coder) (chunk : Bytes) (is_last : Bool) (c : Ctx C.State) where
  pub write-returns :
      Inv c → CanWrite C c → returns (write C (exec_all C nothing) chunk is_last false c) ≡ true
  unfolding write write_now check_error send_error finish_write exec_all
  write-returns v (alive, free, open_still) =
      ground (arith, process-returns C chunk is_last (begin_write C chunk c) alive v.fresh)

  -- The write delivered its output, and the context can take another one; or it reported its error.
  abbrev pub Ended : Written × Ctx C.State → Type 0
  Ended r =
      ((is_ok r.1.err ≡ true)
        × ((finished : Bool) × (r.0 ≡ result (delivered C r.0) finished))
        × (r.1.events ≡ [])
        × CanWrite C r.1)
      ⊎ ((is_ok r.1.err ≡ false)
          × (r.0 ≡ no_result)
          × (r.1.events ≡ on_error (get_error_string r.1.err) (error_code r.1.err) ∷ []))

  WroteNow-Ended :
      (c1 : Ctx C.State) (r : Written × Ctx C.State)
      → CanWrite C c
      → Processed C (begin_write C chunk c) c1
      → c.events ≡ []
      → WroteNow C c1 r
      → Ended r
  unfolding finish_write
  WroteNow-Ended c1 r (alive, free, open_still) p quiet (inl (fine, e)) =
      inl (ground arith, (is_done c1.state, ground arith), ground arith, ground arith)
  WroteNow-Ended c1 r can p quiet (inr (bad, e, f)) = inr (ground arith, e, ground arith)

  pub write-Ended :
      {r : Written × Ctx C.State}
      → Inv c
      → CanWrite C c
      → c.events ≡ []
      → write C (exec_all C nothing) chunk is_last false c ≡ return r
      → Ended r
  unfolding write_now
  write-Ended {r} v (alive, free, open_still) quiet e =
      let (can, e0) = write_sync-cases C (exec_all C nothing) chunk is_last c e in
      let busy = begin_write C chunk c in
      let (c1, e1, e2) = >>=-eq-return (process C chunk is_last busy) _ e0 in
      let p = process-Processed C chunk is_last busy alive v.fresh v.settled v.failed e1 in
      WroteNow-Ended c1 r can p quiet (
        write_now-cases C (exec_all C nothing) chunk is_last busy c1 (exec_all-IsQuiet C nothing) e1
          p.write_in_progress e0)
