-- ===== src/Ctx/Session/Whole.antt =====
-- All of the data in one `writeSync`, as the synchronous functions of lib/vcdiff.js use it.
use node_vcdiff.Base.{refl, some, true, false, [], ◌∷◌, Bytes, ◌≡◌, sym, inl, inr, arith}
use node_vcdiff.Base.Run.{return, returns, >>=-eq-return, return_inj}
use node_vcdiff.Codec.{Coder, Error, is_ok}
use node_vcdiff.Ctx.Defs.{Ctx, idle, done, make_ctx}
use node_vcdiff.Ctx.Process.{process}
use node_vcdiff.Ctx.Write.{
  Written, no_result, result, write, write_now, check_error, send_error, finish_write,
}
use node_vcdiff.Ctx.Process.Laws.{process_keeps}
use node_vcdiff.Ctx.Write.Cases.{begin_write, WroteNow, write_sync-cases, write_now-cases}
use node_vcdiff.Ctx.Calls.{no_js}
use node_vcdiff.Ctx.Session.{direct, direct_chunks}

module _ (C : Coder) (s : C.State) (chunk : Bytes) where
  pub write_whole-returns : returns (write C (no_js C) chunk true false (make_ctx s)) ≡ true
  unfolding make_ctx write write_now process check_error send_error finish_write
  write_whole-returns = ground arith

  -- One run of `Process` on all of the data ends as the direct calls of the codec do.
  pub process_whole :
      (c c' : Ctx C.State)
      → (c.coder ≡ some s) × (c.state ≡ idle) × (c.output_buffer ≡ [])
      → process C chunk true c ≡ return c'
      → let (e, out) = direct C s (chunk ∷ []) in
        (c'.err ≡ e) × (c'.state ≡ done) × (is_ok e ≡ true → c'.output_buffer ≡ out)
  unfolding process direct direct_chunks
  process_whole c c' new e = ground arith

  -- What the write returns of a context that is through.
  WroteNow-result :
      (c : Ctx C.State) (r : Written × Ctx C.State) (spec : Error × Bytes)
      → (c.err ≡ spec.0) × (c.state ≡ done) × (is_ok spec.0 ≡ true → c.output_buffer ≡ spec.1)
      → WroteNow C c r
      → (is_ok spec.0 ≡ true → r.0 ≡ result spec.1 true)
        × (is_ok spec.0 ≡ false → r.0 ≡ no_result)
        × (r.1.err ≡ spec.0)
  unfolding finish_write
  WroteNow-result c r spec (err, state, output) (inl (fine, e)) = ground arith
  WroteNow-result c r spec (err, state, output) (inr (bad, stop, f)) = ground (arith, f.err)

  -- The write returns all of the codec's output and that it is finished, or nothing if a call failed.
  pub write_whole :
      {r : Written × Ctx C.State}
      → write C (no_js C) chunk true false (make_ctx s) ≡ return r
      → let (e, out) = direct C s (chunk ∷ []) in
        (is_ok e ≡ true → r.0 ≡ result out true)
        × (is_ok e ≡ false → r.0 ≡ no_result)
        × (r.1.err ≡ e)
  unfolding make_ctx write_now finish_write
  write_whole {r} e =
      let busy = begin_write C chunk (make_ctx s) in
      let (can, e0) = write_sync-cases C (no_js C) chunk true (make_ctx s) e in
      let (c, e1, e2) = >>=-eq-return (process C chunk true busy) _ e0 in
      let (still, _, _) = process_keeps C chunk true busy c e1 in
      let wrote =
        write_now-cases C (no_js C) chunk true busy c (λ x x' b h. inl (sym (return_inj h))) e1
          still e0 in
      WroteNow-result c r _ (process_whole busy c (refl, refl, refl) e1) wrote
