-- ===== src/Ctx/Process.antt =====
-- `VcdCtx::Process`, the part that runs on the thread pool.
pub mod Laws
pub mod Output
use node_vcdiff.Base.{Bool, Option, none, some, Bytes, if◌then◌else◌, is_empty}
use node_vcdiff.Base.Run.{
  Run, return, abort, ◌>>=◌, ◌>>◌, assert, write_after_finalization, output_buffer_not_empty,
}
use node_vcdiff.Codec.{is_ok, Coder}
use node_vcdiff.Ctx.Defs.{State, idle, processing, finalizing, done, Ctx}

module _ (C : Coder) where
  -- The three `if`s of the body, each with the coder in hand. An early `return` leaves the state
  -- at DONE, where the `if`s that follow do nothing.
  unfoldable pub start_if_idle : State → C.State → Ctx C.State → Run (Ctx C.State)
  start_if_idle idle s c = do
    assert (is_empty c.output_buffer) output_buffer_not_empty
    let (e, out, s') = C.start s c.output_buffer
    return (record c {
      coder = some s';
      output_buffer = out;
      err = e;
      state = if is_ok e then processing else done;
    })
  start_if_idle _ s c = return c

  unfoldable pub process_if_processing : Bytes → Bool → State → C.State → Ctx C.State → Ctx C.State
  process_if_processing chunk is_last processing s c =
      let (e, out, s') = C.process s chunk c.output_buffer in
      record c {
        coder = some s';
        output_buffer = out;
        err = e;
        state = if is_ok e then (if is_last then finalizing else c.state) else done;
      }
  process_if_processing chunk is_last _ s c = c

  unfoldable pub finish_if_finalizing : State → C.State → Ctx C.State → Ctx C.State
  finish_if_finalizing finalizing s c =
      let (e, out, s') = C.finish s c.output_buffer in
      record c { coder = some s'; output_buffer = out; err = e; state = done }
  finish_if_finalizing _ s c = c

  -- `assert(coder_.get() && ...)`, and the coder.
  abbrev pub get_coder : Option C.State → Run C.State
  get_coder (some s) = return s
  get_coder none = abort write_after_finalization

  unfoldable pub process : Bytes → Bool → Ctx C.State → Run (Ctx C.State)
  unfolding start_if_idle process_if_processing finish_if_finalizing
  process chunk is_last c = do
    s ← get_coder c.coder
    c1 ← start_if_idle c.state s c
    s1 ← get_coder c1.coder
    let c2 = process_if_processing chunk is_last c1.state s1 c1
    s2 ← get_coder c2.coder
    return (finish_if_finalizing c2.state s2 c2)
