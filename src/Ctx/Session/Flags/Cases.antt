-- ===== src/Ctx/Session/Flags/Cases.antt =====
-- Inversion of a session that returned.
use node_vcdiff.Base.{Bool, true, false, List, ◌∷◌, ◌++◌, Bytes, ◌≡◌, arith}
use node_vcdiff.Base.Run.{return, >>=-eq-return}
use node_vcdiff.Codec.{Coder, is_ok}
use node_vcdiff.Ctx.Defs.{Ctx}
use node_vcdiff.Ctx.Write.{Written, write}
use node_vcdiff.Ctx.Calls.{nothing, exec_all}
use node_vcdiff.Ctx.Session.{delivered}
use node_vcdiff.Ctx.Session.Flags.{write_each}
use node_vcdiff.Ctx.Session.Writes.{of_write}

module _ (C : Coder) where
  -- Inversion of a session that returned.
  pub write_each-cases :
      (window : Bytes) (last : Bool) (l : List (Bytes × Bool)) (c : Ctx C.State)
      (r0 : Written × Ctx C.State) (r : Bytes × Ctx C.State)
      → write C (exec_all C nothing) window last false c ≡ return r0
      → is_ok r0.1.err ≡ true
      → write_each C ((window, last) ∷ l) c ≡ return r
      → (r1 : Bytes × Ctx C.State) × (write_each C l r0.1 ≡ return r1)
        × (r ≡ (delivered C r0.0 ++ r1.0, r1.1))
  unfolding write_each
  write_each-cases window last l c r0 r e0 fine e =
      let (r1, e1, e2) =
        >>=-eq-return (write_each C l r0.1) (λ (out, c''). return (delivered C r0.0 ++ out, c''))
          (rw (e0, fine) at e) in
      (r1, e1, ground arith)

  pub write_each-failed_cases :
      (window : Bytes) (last : Bool) (l : List (Bytes × Bool)) (c : Ctx C.State)
      (r0 : Written × Ctx C.State) (r : Bytes × Ctx C.State)
      → write C (exec_all C nothing) window last false c ≡ return r0
      → is_ok r0.1.err ≡ false
      → write_each C ((window, last) ∷ l) c ≡ return r
      → of_write C r0 ≡ r
  unfolding write_each
  write_each-failed_cases window last l c r0 r e0 bad e =
      let e1 : return (of_write C r0) ≡ return r = rw (e0, bad) at e in cc
