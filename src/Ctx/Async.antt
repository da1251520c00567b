-- ===== src/Ctx/Async.antt =====
-- `write` against `writeSync`.
use node_vcdiff.Base.{Bool, true, false, Bytes, ◌≡◌, arith}
use node_vcdiff.Base.Run.{Run, return, ◌>>=◌, returns-cases}
use node_vcdiff.Codec.{Coder}
use node_vcdiff.Ctx.Defs.{Ctx, WorkData, Work, no_work, queued, processed, callback, emit}
use node_vcdiff.Ctx.Process.{process}
use node_vcdiff.Ctx.Process.Laws.{process-Processed, process-returns}
use node_vcdiff.Ctx.Write.{
  Written, result, write, write_now, check_error, send_error, finish_write, written_or_error,
  process_shim, after_shim,
}
use node_vcdiff.Ctx.Write.Cases.{CanWrite, begin_write}
use node_vcdiff.Ctx.Calls.{write_async, nothing, exec, exec_all}
use node_vcdiff.Ctx.Invariant.{Inv}

module _ (C : Coder) where
  -- An asynchronous write from the call to the callback, with nothing in between.
  unfoldable pub async_turn : Bytes → Bool → Ctx C.State → Run (Ctx C.State)
  async_turn buffer is_last c =
      exec C (write_async buffer is_last) c
      >>= process_shim C (record { chunk = buffer; is_last = is_last })
      >>= after_shim (exec_all C nothing) true

  abbrev pub announce : Written × Ctx C.State → Ctx C.State
  announce (result out finished, c) = emit (callback out finished) c
  announce (_, c) = c

  process_work :
      (buffer : Bytes) (is_last : Bool) (c : Ctx C.State) (work : Work)
      → process C buffer is_last (record c { work = work })
        ≡ (process C buffer is_last c >>= λ c'. return (record c' { work = work }))
  unfolding process
  process_work buffer is_last c work = ground arith

  -- After `Process`, the event loop makes of the context what the synchronous call makes of it.
  after_shim-write_now :
      (w : WorkData) (c1 : Ctx C.State)
      → c1.work ≡ no_work
      → c1.pending_close ≡ false
      → after_shim (exec_all C nothing) true (record c1 { work = processed w }) ≡ (
          check_error (exec_all C nothing) c1 >>= λ checked.
          return (announce (written_or_error checked)))
  unfolding after_shim check_error send_error finish_write exec_all
  after_shim-write_now w c1 idle open_still = ground arith

  -- An asynchronous write that nothing interrupts leaves the context just as the synchronous write
  -- of the same chunk leaves it, errors included, but that it hands the result to `callback`
  -- where the other returns it.
  pub async_turn_lem :
      (buffer : Bytes) (is_last : Bool) (c : Ctx C.State)
      → Inv c
      → CanWrite C c
      → async_turn buffer is_last c
        ≡ (write C (exec_all C nothing) buffer is_last false c >>= λ r. return (announce r))
  unfolding async_turn write exec write_now process_shim
  async_turn_lem buffer is_last c v (alive, free, open_still) =
      let busy = begin_write C buffer c in
      let w : WorkData = record { chunk = buffer; is_last = is_last } in
      let (c1, e) =
        returns-cases (process C buffer is_last busy)
          (process-returns C buffer is_last busy alive v.fresh) in
      let p = process-Processed C buffer is_last busy alive v.fresh v.settled v.failed e in
      ground (arith, e, process_work buffer is_last busy (queued w), after_shim-write_now w c1)
