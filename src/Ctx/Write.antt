-- ===== src/Ctx/Write.antt =====
-- `Write`, `FinishWrite`, `CheckError`, `SendError` and the two shims of the thread pool.
-- `js` is what the JavaScript function that `node::MakeCallback` enters does to the context.
pub mod Errors
pub mod Cases
use node_vcdiff.Base.{Bool, true, false, not, none, some, [], Bytes, if◌then◌else◌, is_some}
use node_vcdiff.Base.Run.{
  Run, return, ◌>>=◌, ◌>>◌, assert, write_after_finalization, write_already_in_progress,
  close_is_pending, bad_work_status,
}
use node_vcdiff.Codec.{Coder, get_error_string, error_code}
use node_vcdiff.Ctx.Defs.{
  Ctx, WorkData, no_work, queued, processed, is_done, on_error, callback, close, has_error, emit,
}
use node_vcdiff.Ctx.Process.{process}

-- What `Write` returns: an empty handle, the result array, or the handle of the context.
pub data Written : Type 0 where
  no_result : Written
  result : Bytes → Bool → Written
  handle : Written

-- Where a context stands in what JavaScript can change: the context alone, or one of several.
pub record Focus (S W : Type 0) : Type 0 where
  pub get : W → Ctx S
  pub put : Ctx S → W → W

abbrev pub itself : {S : Type 0} → Focus S (Ctx S)
itself = record { get = λ c. c; put = λ c _. c }

module _ {S : Type 0} where
  -- `VcdCtx::GetOutputBuffer`: a buffer with a copy of the output.
  abbrev pub get_output_buffer : Ctx S → Bytes
  get_output_buffer c = c.output_buffer

  -- `VcdCtx::FinishWrite`: the two entries of the result array, and the context.
  unfoldable pub finish_write : Ctx S → Bytes × Bool × Ctx S
  finish_write c = (
    get_output_buffer c,
    is_done c.state,
    record c { write_in_progress = false; in_buffer = none; output_buffer = [] },
  )

module _ {S W : Type 0} (F : Focus S W) where
  -- `VcdCtx::SendError`
  unfoldable pub send_error_in : (W → Run W) → W → Run W
  send_error_in js w = do
    let c = F.get w
    w1 ← js (F.put (emit (on_error (get_error_string c.err) (error_code c.err)) c) w)
    let c2 = record (F.get w1) { write_in_progress = false }
    return (F.put (if c2.pending_close then close c2 else c2) w1)

  -- `VcdCtx::CheckError`
  unfoldable pub check_error_in : (W → Run W) → W → Run (Bool × W)
  unfolding send_error_in
  check_error_in js w =
      if has_error (F.get w)
      then (send_error_in js w >>= λ w'. return (false, w'))
      else return (true, w)

  abbrev pub written_or_error_in : Bool × W → Written × W
  written_or_error_in (false, w) = (no_result, w)
  written_or_error_in (true, w) =
      let (out, finished, c') = finish_write (F.get w) in (result out finished, F.put c' w)

  -- The last lines of `VcdCtx::AfterShim`, from the call of `CheckError`.
  abbrev pub deliver_or_error_in : (W → Run W) → Bool × W → Run W
  deliver_or_error_in js (false, w) = return w
  deliver_or_error_in js (true, w) = do
    let (out, finished, c') = finish_write (F.get w)
    w' ← js (F.put (emit (callback out finished) c') w)
    let c'' = F.get w'
    return (F.put (if c''.pending_close then close c'' else c'') w')

  -- `VcdCtx::AfterShim`, on the event loop. `status_is_zero` is `status == 0`.
  unfoldable pub after_shim_in : (W → Run W) → Bool → W → Run W
  unfolding check_error_in finish_write
  after_shim_in js status_is_zero w = do
    assert status_is_zero bad_work_status
    checked ← check_error_in js (F.put (record (F.get w) { work = no_work }) w)
    deliver_or_error_in js checked

module _ (C : Coder) {W : Type 0} (F : Focus C.State W) where
  -- The two branches of `VcdCtx::Write` after its assertions.
  unfoldable pub write_now_in : (W → Run W) → Bytes → Bool → W → Run (Written × W)
  unfolding process check_error_in finish_write
  write_now_in js chunk is_last w = do
    c1 ← process C chunk is_last (F.get w)
    checked ← check_error_in F js (F.put c1 w)
    return (written_or_error_in F checked)

  abbrev pub queue_work_in : Bytes → Bool → W → Run (Written × W)
  queue_work_in chunk is_last w = return (
    handle,
    F.put (record (F.get w) { work = queued (record { chunk = chunk; is_last = is_last }) }) w,
  )

  -- `VcdCtx::Write`
  unfoldable pub write_in : (W → Run W) → Bytes → Bool → Bool → W → Run (Written × W)
  unfolding write_now_in
  write_in js buffer is_last async w = do
    let c = F.get w
    assert (is_some c.coder) write_after_finalization
    assert (not c.write_in_progress) write_already_in_progress
    assert (not c.pending_close) close_is_pending
    let w' = F.put (record c { write_in_progress = true; in_buffer = some buffer }) w
    if async then queue_work_in buffer is_last w' else write_now_in js buffer is_last w'

-- The operations where the context stands alone.
module _ {S : Type 0} where
  unfoldable pub send_error : (Ctx S → Run (Ctx S)) → Ctx S → Run (Ctx S)
  unfolding send_error_in
  send_error = send_error_in itself

  unfoldable pub check_error : (Ctx S → Run (Ctx S)) → Ctx S → Run (Bool × Ctx S)
  unfolding check_error_in send_error
  check_error = check_error_in itself

  abbrev pub written_or_error : Bool × Ctx S → Written × Ctx S
  written_or_error = written_or_error_in itself

  abbrev pub deliver_or_error : (Ctx S → Run (Ctx S)) → Bool × Ctx S → Run (Ctx S)
  deliver_or_error = deliver_or_error_in itself

  unfoldable pub after_shim : (Ctx S → Run (Ctx S)) → Bool → Ctx S → Run (Ctx S)
  unfolding after_shim_in check_error
  after_shim = after_shim_in itself

module _ (C : Coder) where
  unfoldable pub write_now :
      (Ctx C.State → Run (Ctx C.State)) → Bytes → Bool → Ctx C.State → Run (Written × Ctx C.State)
  unfolding write_now_in check_error
  write_now = write_now_in C itself

  abbrev pub queue_work : Bytes → Bool → Ctx C.State → Run (Written × Ctx C.State)
  queue_work = queue_work_in C itself

  unfoldable pub write :
      (Ctx C.State → Run (Ctx C.State))
      → Bytes
      → Bool
      → Bool
      → Ctx C.State
      → Run (Written × Ctx C.State)
  unfolding write_in write_now
  write = write_in C itself

  -- `VcdCtx::ProcessShim`, on the thread pool.
  unfoldable pub process_shim : WorkData → Ctx C.State → Run (Ctx C.State)
  unfolding process
  process_shim w c = do
    c' ← process C w.chunk w.is_last c
    return (record c' { work = processed w })
