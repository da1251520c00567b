-- ===== src/Ctx/Session/Writes.antt =====
-- One `writeSync` in the middle of a session.
use node_vcdiff.Base.{Bool, true, false, some, [], ◌∷◌, ◌++◌, Bytes, ◌≡◌, arith, append-nil}
use node_vcdiff.Base.Run.{return, returns}
use node_vcdiff.Codec.{Coder, Error, is_ok}
use node_vcdiff.Ctx.Defs.{Ctx, processing, close}
use node_vcdiff.Ctx.Process.{process}
use node_vcdiff.Ctx.Write.{Written, write, write_now, check_error, send_error, finish_write}
use node_vcdiff.Ctx.Calls.{nothing, exec_all}
use node_vcdiff.Ctx.Session.{direct_chunks, delivered}

module _ (C : Coder) where
  -- Between two writes, with the coder started and `out` not delivered yet.
  pub record IsOpen (s : C.State) (out : Bytes) (c : Ctx C.State) : Type 0 where
    pub coder : c.coder ≡ some s
    pub state : c.state ≡ processing
    pub free : c.write_in_progress ≡ false
    pub open_still : c.pending_close ≡ false
    pub output_buffer : c.output_buffer ≡ out

  -- What the codec made of the chunks, `spec`, is what was delivered and what an error left behind.
  pub record Matches (spec : Error × Bytes) (r : Bytes × Ctx C.State) : Type 0 where
    pub err : r.1.err ≡ spec.0
    pub output : r.0 ++ r.1.output_buffer ≡ spec.1
    pub flushed : is_ok spec.0 ≡ true → r.1.output_buffer ≡ []

  abbrev pub of_write : Written × Ctx C.State → Bytes × Ctx C.State
  of_write r = (delivered C r.0, r.1)

  module _ (chunk : Bytes) (is_last : Bool) (c : Ctx C.State) where
    pub write_open-returns :
        (s : C.State) (out : Bytes)
        → IsOpen s out c
        → returns (write C (exec_all C nothing) chunk is_last false c) ≡ true
    unfolding write write_now process check_error send_error finish_write exec_all close
    write_open-returns s out h = ground arith

    pub write-IsOpen-Matches :
        (s : C.State) (out : Bytes) {r : Written × Ctx C.State}
        → is_last ≡ false
        → IsOpen s out c
        → write C (exec_all C nothing) chunk is_last false c ≡ return r
        → let (e, out', s') = C.process s chunk out in
          Matches (e, out') (of_write r) × (is_ok e ≡ true → IsOpen s' [] r.1)
    unfolding write write_now process check_error send_error finish_write exec_all close
    write-IsOpen-Matches s out more h e = ground (arith, append-nil {0} (C.process s chunk out).1)

    pub write_last-Matches :
        (s : C.State) (out : Bytes) {r : Written × Ctx C.State}
        → is_last ≡ true
        → IsOpen s out c
        → write C (exec_all C nothing) chunk is_last false c ≡ return r
        → Matches (direct_chunks C s (chunk ∷ []) out) (of_write r)
    unfolding write write_now process check_error send_error finish_write exec_all close
        direct_chunks
    write_last-Matches s out more h e =
        let s' = (C.process s chunk out).2 in
        let out' = (C.process s chunk out).1 in
        ground (arith, append-nil {0} out', append-nil {0} (C.finish s' out').1)
