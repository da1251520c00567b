-- ===== src/Ctx/Session/Refinement.antt =====
-- The session refines the direct use of the codec.
use node_vcdiff.Base.{
  Bool, true, false, some, List, [], ◌∷◌, ◌++◌, Bytes, is_empty, ◌≡◌, refl, ap, ◌∙◌, inl, inr,
  arith, append_assoc, append-nil, Bool-cases,
}
use node_vcdiff.Base.Run.{return, returns, returns-cases}
use node_vcdiff.Codec.{Coder, is_ok}
use node_vcdiff.Ctx.Defs.{Ctx, processing, make_ctx}
use node_vcdiff.Ctx.Process.{process}
use node_vcdiff.Ctx.Write.{Written, write, write_now, check_error, send_error}
use node_vcdiff.Ctx.Calls.{nothing, exec_all}
use node_vcdiff.Ctx.Session.{direct, direct_chunks, IsAppending, write_all, delivered}
use node_vcdiff.Ctx.Session.Writes.{
  IsOpen, Matches, of_write, write_open-returns, write-IsOpen-Matches, write_last-Matches,
}

module _ (C : Coder) where
  -- The codec's calls on a string that holds `before` already only put `before` in front.
  direct_chunks-append :
      IsAppending C
      → (s : C.State) (chunks : List Bytes) (before out : Bytes)
      → direct_chunks C s chunks (before ++ out)
        ≡ (let (e, o) = direct_chunks C s chunks out in (e, before ++ o))
  unfolding direct_chunks
  direct_chunks-append a s [] before out = ground (
    arith,
    a.finish_appends s out,
    a.finish_appends s (before ++ out),
    append_assoc before out (C.finish s []).1,
  )
  direct_chunks-append a s (chunk ∷ rest) before out = ground (
    arith,
    a.process_appends s chunk out,
    a.process_appends s chunk (before ++ out),
    append_assoc before out (C.process s chunk []).1,
    direct_chunks-append a (C.process s chunk []).2 rest before (out ++ (C.process s chunk []).1),
  )

  -- A chunk that went through, and a rest that matches.
  pub continue-Matches :
      IsAppending C
      → (s : C.State) (out chunk : Bytes) (rest : List Bytes) (r r' : Bytes × Ctx C.State)
      → is_ok (C.process s chunk out).0 ≡ true
      → Matches C ((C.process s chunk out).0, (C.process s chunk out).1) r
      → Matches C (direct_chunks C (C.process s chunk out).2 rest []) r'
      → Matches C (direct_chunks C s (chunk ∷ rest) out) (r.0 ++ r'.0, r'.1)
  unfolding direct_chunks
  continue-Matches a s out chunk rest r r' fine m m' =
      let s' = (C.process s chunk out).2 in
      let out' = (C.process s chunk out).1 in
      ground (
        arith,
        direct_chunks-append a s' rest out' [],
        append-nil {0} out',
        append-nil {0} r.0,
        append_assoc {0} r.0 r'.0 r'.1.output_buffer,
      )

  -- A chunk that failed, and nothing after it.
  pub stop-Matches :
      (s : C.State) (out chunk : Bytes) (rest : List Bytes) (r : Bytes × Ctx C.State)
      → is_ok (C.process s chunk out).0 ≡ false
      → Matches C ((C.process s chunk out).0, (C.process s chunk out).1) r
      → Matches C (direct_chunks C s (chunk ∷ rest) out) r
  unfolding direct_chunks
  stop-Matches s out chunk rest r bad m = ground arith

  module _ (chunk : Bytes) (rest : List Bytes) (c : Ctx C.State) (r : Written × Ctx C.State)
      (e : write C (exec_all C nothing) chunk (is_empty rest) false c ≡ return r) where
    write_all-continue :
        (r' : Bytes × Ctx C.State)
        → is_ok r.1.err ≡ true
        → write_all C rest r.1 ≡ return r'
        → write_all C (chunk ∷ rest) c ≡ return (delivered C r.0 ++ r'.0, r'.1)
    unfolding write_all
    write_all-continue r' fine e' = rw (e, fine, e')

    write_all-stop : is_ok r.1.err ≡ false → write_all C (chunk ∷ rest) c ≡ return (of_write C r)
    unfolding write_all
    write_all-stop bad = rw (e, bad)

  write_all-open :
      IsAppending C
      → (s : C.State) (out chunk : Bytes) (rest : List Bytes) (c : Ctx C.State) → IsOpen C s out c
      → (r : Bytes × Ctx C.State) × (write_all C (chunk ∷ rest) c ≡ return r)
        × Matches C (direct_chunks C s (chunk ∷ rest) out) r
  unfolding write_all
  write_all-open a s out chunk [] c h =
      let (r, e) = returns-cases _ (write_open-returns C chunk true c s out h) in
      let m = write_last-Matches C chunk true c s out refl h e in
      ((delivered C r.0, r.1), ground (arith, e, append-nil {0} (delivered C r.0)), m)
  write_all-open a s out chunk (next ∷ rest) c h =
      let (r, e) = returns-cases _ (write_open-returns C chunk false c s out h) in
      let (m, still) = write-IsOpen-Matches C chunk false c s out refl h e in
      elim (Bool-cases (is_ok (C.process s chunk out).0)) [
        | inl fine ↦
            let (r', e', m') =
              write_all-open a (C.process s chunk out).2 [] next rest r.1 (still fine) in
            (
              (delivered C r.0 ++ r'.0, r'.1),
              write_all-continue chunk (next ∷ rest) c r e r' (ap is_ok m.err ∙ fine) e',
              continue-Matches a s out chunk (next ∷ rest) (of_write C r) r' fine m m',
            )
        | inr bad ↦ (
          of_write C r,
          write_all-stop chunk (next ∷ rest) c r e (ap is_ok m.err ∙ bad),
          stop-Matches s out chunk (next ∷ rest) (of_write C r) bad m,
        )
      ]

  -- The context after `Start`, as the first write goes on with it.
  abbrev pub started : C.State → Ctx C.State
  started s =
      let (e, out, s') = C.start s [] in
      record (make_ctx s) { coder = some s'; state = processing; err = e; output_buffer = out }

  pub started-IsOpen : (s : C.State) → IsOpen C (C.start s []).2 (C.start s []).1 (started s)
  unfolding make_ctx
  started-IsOpen s = ground arith

  module _ (s : C.State) (chunk : Bytes) (is_last : Bool) where
    pub write_first-started :
        is_ok (C.start s []).0 ≡ true
        → write C (exec_all C nothing) chunk is_last false (make_ctx s)
          ≡ write C (exec_all C nothing) chunk is_last false (started s)
    unfolding make_ctx write write_now process
    write_first-started fine = ground arith

    pub write_first-fails :
        is_ok (C.start s []).0 ≡ false
        → (returns (write C (exec_all C nothing) chunk is_last false (make_ctx s)) ≡ true)
          × ((r : Written × Ctx C.State)
              → write C (exec_all C nothing) chunk is_last false (make_ctx s) ≡ return r
              → Matches C ((C.start s []).0, (C.start s []).1) (of_write C r))
    unfolding make_ctx write write_now process check_error send_error exec_all
    write_first-fails bad = (ground arith, λ r e. ground arith)

  pub Matches-direct_chunks :
      (s : C.State) (chunks : List Bytes) (r : Bytes × Ctx C.State)
      → is_ok (C.start s []).0 ≡ true
      → Matches C (direct_chunks C (C.start s []).2 chunks (C.start s []).1) r
      → Matches C (direct C s chunks) r
  unfolding direct
  Matches-direct_chunks s chunks r fine m = rw fine m

  pub Matches-direct_failed :
      (s : C.State) (chunks : List Bytes) (r : Bytes × Ctx C.State)
      → is_ok (C.start s []).0 ≡ false
      → Matches C ((C.start s []).0, (C.start s []).1) r
      → Matches C (direct C s chunks) r
  unfolding direct
  Matches-direct_failed s chunks r bad m = rw bad m

  write_all-started :
      (s : C.State) (chunk : Bytes) (rest : List Bytes)
      → is_ok (C.start s []).0 ≡ true
      → write_all C (chunk ∷ rest) (make_ctx s) ≡ write_all C (chunk ∷ rest) (started s)
  unfolding write_all
  write_all-started s chunk rest fine = rw (write_first-started s chunk (is_empty rest) fine)

  -- Chunks written one after the other to a new context, the last one marked so, come out as the
  -- codec's calls on one string would have put them there. Until the first error all of the output
  -- is delivered; what a call that fails appended stays in the context, which keeps its error code.
  pub session_refines :
      IsAppending C
      → (s : C.State) (chunk : Bytes) (rest : List Bytes)
      → (r : Bytes × Ctx C.State) × (write_all C (chunk ∷ rest) (make_ctx s) ≡ return r)
        × Matches C (direct C s (chunk ∷ rest)) r
  session_refines a s chunk rest = elim (Bool-cases (is_ok (C.start s []).0)) [
    | inl fine ↦
        let (r, e, m) =
          write_all-open a (C.start s []).2 (C.start s []).1 chunk rest (started s)
            (started-IsOpen s) in
        (
          r,
          write_all-started s chunk rest fine ∙ e,
          Matches-direct_chunks s (chunk ∷ rest) r fine m,
        )
    | inr bad ↦
        let (goes, fails) = write_first-fails s chunk (is_empty rest) bad in
        let (r, e) = returns-cases _ goes in
        let m = fails r e in
        (
          of_write C r,
          write_all-stop chunk rest (make_ctx s) r e (ap is_ok m.err ∙ bad),
          Matches-direct_failed s (chunk ∷ rest) (of_write C r) bad m,
        )
  ]
