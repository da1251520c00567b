-- ===== src/Ctx/Finished.antt =====
-- Writes to a context whose coder is through: `state_` is DONE.
use node_vcdiff.Base.{
  Bool, true, false, none, some, [], ◌∷◌, ◌++◌, Bytes, ◌≡◌, arith, if◌then◌else◌,
}
use node_vcdiff.Base.Run.{Run, return, ◌>>=◌}
use node_vcdiff.Codec.{Coder, is_ok, get_error_string, error_code}
use node_vcdiff.Ctx.Defs.{Ctx, done, on_error, close}
use node_vcdiff.Ctx.Process.{process}
use node_vcdiff.Ctx.Write.{
  result, no_result, write, write_now, check_error, send_error, finish_write,
}
use node_vcdiff.Ctx.Write.Cases.{CanWrite}
use node_vcdiff.Ctx.Invariant.{Inv}

module _ (C : Coder) where
  -- Once the last chunk went through without an error, a write delivers nothing and says so, gives
  -- the coder nothing, and changes nothing but the reference to the input buffer.
  write_when_done :
      (js : Ctx C.State → Run (Ctx C.State)) (c : Ctx C.State) (buffer : Bytes) (is_last : Bool)
      → Inv c
      → CanWrite C c
      → c.state ≡ done
      → is_ok c.err ≡ true
      → write C js buffer is_last false c ≡ return (result [] true, record c { in_buffer = none })
  unfolding write write_now process check_error finish_write
  write_when_done js c buffer is_last v (alive, free, open_still) over fine = ground arith

  -- After an error every further `writeSync` reports the same error again, whatever `onerror` does: it
  -- enters `onerror` with the coder as it was, returns nothing, and carries out a close that `onerror`
  -- asked for.
  pub write_after_error :
      (js : Ctx C.State → Run (Ctx C.State)) (c : Ctx C.State) (buffer : Bytes) (is_last : Bool)
      → Inv c
      → CanWrite C c
      → is_ok c.err ≡ false
      → write C js buffer is_last false c ≡ (
          js (record c {
            in_buffer = some buffer;
            write_in_progress = true;
            events = c.events ++ on_error (get_error_string c.err) (error_code c.err) ∷ [];
          })
          >>= λ c1.
              let c2 = record c1 { write_in_progress = false } in
              return (no_result, if c2.pending_close then close c2 else c2))
  unfolding write write_now process check_error send_error
  write_after_error js c buffer is_last v (alive, free, open_still) bad =
      ground (arith, v.failed bad)
