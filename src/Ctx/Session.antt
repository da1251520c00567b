-- ===== src/Ctx/Session.antt =====
-- A whole session through a `VcdCtx`, against a direct use of the codec on one output string.
pub mod Whole
pub mod Flags
pub mod Writes
pub mod Refinement
pub mod Codecs
pub mod Alone
use node_vcdiff.Base.{false, List, [], ◌∷◌, ◌++◌, Bytes, if◌then◌else◌, is_empty, ◌≡◌}
use node_vcdiff.Base.Run.{Run, return, ◌>>=◌}
use node_vcdiff.Codec.{Coder, Error, is_ok}
use node_vcdiff.Ctx.Defs.{Ctx, has_error}
use node_vcdiff.Ctx.Write.{Written, no_result, result, handle, write}
use node_vcdiff.Ctx.Calls.{nothing, exec_all}

module _ (C : Coder) where
  -- The pattern of calls that google/vcencoder.h shows: start, each chunk in turn, finish, all on one
  -- output string, and nothing more after a call that fails. The result is the last error code and
  -- the string.
  unfoldable pub direct_chunks : C.State → List Bytes → Bytes → Error × Bytes
  direct_chunks s [] out = let (e, out', s') = C.finish s out in (e, out')
  direct_chunks s (chunk ∷ rest) out =
      let (e, out', s') = C.process s chunk out in
      let more = direct_chunks s' rest out' in if is_ok e then more else (e, out')

  unfoldable pub direct : C.State → List Bytes → Error × Bytes
  unfolding direct_chunks
  direct s chunks =
      let (e, out, s') = C.start s [] in if is_ok e then direct_chunks s' chunks out else (e, out)

  -- The codec only appends to the output string, and does not look at what is there.
  pub record IsAppending : Type 0 where
    pub start_appends :
        (s : C.State) (out : Bytes)
        → let (e, o, s') = C.start s [] in C.start s out ≡ (e, out ++ o, s')
    pub process_appends :
        (s : C.State) (chunk out : Bytes)
        → let (e, o, s') = C.process s chunk [] in C.process s chunk out ≡ (e, out ++ o, s')
    pub finish_appends :
        (s : C.State) (out : Bytes)
        → let (e, o, s') = C.finish s [] in C.finish s out ≡ (e, out ++ o, s')

  -- What a `writeSync` delivered.
  abbrev pub delivered : Written → Bytes
  delivered (result out finished) = out
  delivered no_result = []
  delivered handle = []

  -- `writeSync` of each chunk, the last one marked so, up to the first error; the deliveries joined.
  unfoldable pub write_all : List Bytes → Ctx C.State → Run (Bytes × Ctx C.State)
  write_all [] c = return ([], c)
  write_all (chunk ∷ rest) c =
      write C (exec_all C nothing) chunk (is_empty rest) false c >>= λ (w, c').
      let more = write_all rest c' >>= λ (out, c''). return (delivered w ++ out, c'') in
      if has_error c' then return (delivered w, c') else more
