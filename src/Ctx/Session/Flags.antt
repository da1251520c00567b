-- ===== src/Ctx/Session/Flags.antt =====
-- A session in which the caller says for each write whether it is the last, as a stream does. After a
-- write that is marked so only empty chunks may follow.
pub mod Cases
use node_vcdiff.Base.{
  Bool, true, false, none, is_some, List, [], ◌∷◌, ◌++◌, Bytes, flatten, ◌≡◌, refl, ap, ◌∙◌, inl,
  inr, arith, append-nil, Bool-cases, if◌then◌else◌,
}
use node_vcdiff.Base.Run.{Run, return, ◌>>=◌, returns-cases}
use node_vcdiff.Codec.{Coder, is_ok}
use node_vcdiff.Ctx.Defs.{Ctx, done, make_ctx, has_error, close}
use node_vcdiff.Ctx.Process.{process}
use node_vcdiff.Ctx.Write.{Written, result, write, write_now, check_error, send_error, finish_write}
use node_vcdiff.Ctx.Calls.{nothing, exec_all}
use node_vcdiff.Ctx.Session.{direct, direct_chunks, IsAppending, delivered}
use node_vcdiff.Ctx.Session.Writes.{
  IsOpen, Matches, of_write, write_open-returns, write-IsOpen-Matches, write_last-Matches,
}
use node_vcdiff.Ctx.Session.Refinement.{
  continue-Matches, stop-Matches, started, started-IsOpen, write_first-started, write_first-fails,
  Matches-direct_chunks, Matches-direct_failed,
}

abbrev pub windows : List (Bytes × Bool) → List Bytes
windows [] = []
windows ((window, is_last) ∷ rest) = window ∷ windows rest

-- The windows up to the first that is marked.
abbrev pub upto_last : List (Bytes × Bool) → List Bytes
upto_last [] = []
upto_last ((window, true) ∷ rest) = window ∷ []
upto_last ((window, false) ∷ rest) = window ∷ upto_last rest

-- One window is marked, and the bytes end with the first that is.
abbrev pub Flagged : List (Bytes × Bool) → Type 0
Flagged [] = ⊥
Flagged ((window, true) ∷ rest) = flatten (windows rest) ≡ []
Flagged ((window, false) ∷ rest) = Flagged rest

module _ (C : Coder) where
  -- `writeSync` of each window with its mark, up to the first error; the deliveries joined.
  unfoldable pub write_each : List (Bytes × Bool) → Ctx C.State → Run (Bytes × Ctx C.State)
  write_each [] c = return ([], c)
  write_each ((window, is_last) ∷ rest) c =
      write C (exec_all C nothing) window is_last false c >>= λ (w, c').
      let more = write_each rest c' >>= λ (out, c''). return (delivered C w ++ out, c'') in
      if has_error c' then return (delivered C w, c') else more

  -- After the last chunk, with nothing left to deliver.
  pub record IsThrough (c : Ctx C.State) : Type 0 where
    pub alive : is_some c.coder ≡ true
    pub state : c.state ≡ done
    pub err : is_ok c.err ≡ true
    pub free : c.write_in_progress ≡ false
    pub open_still : c.pending_close ≡ false
    pub output_buffer : c.output_buffer ≡ []

  write_through :
      (chunk : Bytes) (is_last : Bool) (c : Ctx C.State)
      → IsThrough c
      → write C (exec_all C nothing) chunk is_last false c
        ≡ return (result [] true, (record c { in_buffer = none }))
  unfolding write write_now process check_error finish_write
  write_through chunk is_last c v = ground arith

  -- Empty windows after the last chunk deliver nothing.
  write_each-IsThrough :
      (l : List (Bytes × Bool)) (c : Ctx C.State)
      → IsThrough c
      → (c' : Ctx C.State) × (write_each l c ≡ return ([], c')) × IsThrough c' × (c'.err ≡ c.err)
  unfolding write_each
  write_each-IsThrough [] c v = (c, refl, v, refl)
  write_each-IsThrough ((window, is_last) ∷ rest) c v =
      let c1 = record c { in_buffer = none } in
      let v1 : IsThrough c1 = record {
        alive = v.alive;
        state = v.state;
        err = v.err;
        free = v.free;
        open_still = v.open_still;
        output_buffer = v.output_buffer;
      } in
      let (c', e, v', same) = write_each-IsThrough rest c1 v1 in
      (c', rw (write_through window is_last c v, v.err, e), v', same)

  write_last-IsThrough :
      (s : C.State) (out chunk : Bytes) (c : Ctx C.State) {r : Written × Ctx C.State}
      → IsOpen C s out c
      → write C (exec_all C nothing) chunk true false c ≡ return r
      → is_ok r.1.err ≡ true
      → IsThrough r.1
  unfolding write write_now process check_error send_error finish_write exec_all close
  write_last-IsThrough s out chunk c h e fine = ground arith

  module _ (window : Bytes) (is_last : Bool) (rest : List (Bytes × Bool)) (c : Ctx C.State)
      (r : Written × Ctx C.State)
      (e : write C (exec_all C nothing) window is_last false c ≡ return r) where
    write_each-continue :
        (r' : Bytes × Ctx C.State)
        → is_ok r.1.err ≡ true
        → write_each rest r.1 ≡ return r'
        → write_each ((window, is_last) ∷ rest) c ≡ return (delivered C r.0 ++ r'.0, r'.1)
    unfolding write_each
    write_each-continue r' fine e' = rw (e, fine, e')

    write_each-stop :
        is_ok r.1.err ≡ false → write_each ((window, is_last) ∷ rest) c ≡ return (of_write C r)
    unfolding write_each
    write_each-stop bad = rw (e, bad)

  write_each-last :
      (s : C.State) (out window : Bytes) (rest : List (Bytes × Bool)) (c : Ctx C.State)
      → IsOpen C s out c
      → (r : Bytes × Ctx C.State) × (write_each ((window, true) ∷ rest) c ≡ return r)
        × Matches C (direct_chunks C s (window ∷ []) out) r
  write_each-last s out window rest c h =
      let (r, e) = returns-cases _ (write_open-returns C window true c s out h) in
      let m = write_last-Matches C window true c s out refl h e in
      elim (Bool-cases (is_ok r.1.err)) [
        | inl fine ↦
            let v = write_last-IsThrough s out window c h e fine in
            let (c', e', v', same) = write_each-IsThrough rest r.1 v in
            (
              (delivered C r.0 ++ [], c'),
              write_each-continue window true rest c r e ([], c') fine e',
              record {
                err = same ∙ m.err;
                output = rw (append-nil, v'.output_buffer, ← v.output_buffer) m.output;
                flushed = λ h. v'.output_buffer;
              },
            )
        | inr bad ↦ (of_write C r, write_each-stop window true rest c r e bad, m)
      ]

  write_each-open :
      IsAppending C
      → (s : C.State) (out : Bytes) (l : List (Bytes × Bool)) (c : Ctx C.State) → IsOpen C s out c
      → Flagged l
      → (r : Bytes × Ctx C.State) × (write_each l c ≡ return r)
        × Matches C (direct_chunks C s (upto_last l) out) r
  write_each-open a s out [] c h f = absurd f
  write_each-open a s out ((window, true) ∷ rest) c h f = write_each-last s out window rest c h
  write_each-open a s out ((window, false) ∷ rest) c h f =
      let (r, e) = returns-cases _ (write_open-returns C window false c s out h) in
      let (m, still) = write-IsOpen-Matches C window false c s out refl h e in
      elim (Bool-cases (is_ok (C.process s window out).0)) [
        | inl fine ↦
            let (r', e', m') =
              write_each-open a (C.process s window out).2 [] rest r.1 (still fine) f in
            (
              (delivered C r.0 ++ r'.0, r'.1),
              write_each-continue window false rest c r e r' (ap is_ok m.err ∙ fine) e',
              continue-Matches C a s out window (upto_last rest) (of_write C r) r' fine m m',
            )
        | inr bad ↦ (
          of_write C r,
          write_each-stop window false rest c r e (ap is_ok m.err ∙ bad),
          stop-Matches C s out window (upto_last rest) (of_write C r) bad m,
        )
      ]

  write_each-started :
      (s : C.State) (window : Bytes) (is_last : Bool) (rest : List (Bytes × Bool))
      → is_ok (C.start s []).0 ≡ true
      → write_each ((window, is_last) ∷ rest) (make_ctx s)
        ≡ write_each ((window, is_last) ∷ rest) (started C s)
  unfolding write_each
  write_each-started s window is_last rest fine = rw (write_first-started C s window is_last fine)

  -- A failed start ends the session at its first write, whatever follows.
  write_each-failed :
      (s : C.State) (window : Bytes) (is_last : Bool) (rest : List (Bytes × Bool))
      (chunks : List Bytes)
      → is_ok (C.start s []).0 ≡ false
      → (r : Bytes × Ctx C.State) × (write_each ((window, is_last) ∷ rest) (make_ctx s) ≡ return r)
        × Matches C (direct C s chunks) r
  write_each-failed s window is_last rest chunks bad =
      let (goes, fails) = write_first-fails C s window is_last bad in
      let (r, e) = returns-cases _ goes in
      let m = fails r e in
      (
        of_write C r,
        write_each-stop window is_last rest (make_ctx s) r e (ap is_ok m.err ∙ bad),
        Matches-direct_failed C s chunks (of_write C r) bad m,
      )

  -- A session whose marks are right delivers what the codec makes of the windows up to the marked one
  -- when it is used directly.
  pub Flagged-session_refines :
      IsAppending C
      → (s : C.State) (l : List (Bytes × Bool)) → Flagged l
      → (r : Bytes × Ctx C.State) × (write_each l (make_ctx s) ≡ return r)
        × Matches C (direct C s (upto_last l)) r
  Flagged-session_refines a s [] f = absurd f
  Flagged-session_refines a s ((window, is_last) ∷ rest) f =
      let l = (window, is_last) ∷ rest in
      elim (Bool-cases (is_ok (C.start s []).0)) [
        | inl fine ↦
            let (r, e, m) =
              write_each-open a (C.start s []).2 (C.start s []).1 l (started C s)
                (started-IsOpen C s) f in
            (
              r,
              write_each-started s window is_last rest fine ∙ e,
              Matches-direct_chunks C s (upto_last l) r fine m,
            )
        | inr bad ↦ write_each-failed s window is_last rest (upto_last l) bad
      ]
