-- ===== src/Ctx/Several/Shims.antt =====
-- The end of an asynchronous write among several contexts.
use node_vcdiff.Base.{ℕ, true, false, ◌≡◌, ap, subst, ◌∙◌, Bool-cases, inl, inr}
use node_vcdiff.Base.Run.{Run, return, ◌>>=◌, >>=-eq-return, return_inj}
use node_vcdiff.Codec.{Coder}
use node_vcdiff.Ctx.Defs.{no_work, has_error}
use node_vcdiff.Ctx.Write.{
  finish_write, send_error_in, check_error_in, deliver_or_error_in, deliver_or_error, after_shim_in,
  after_shim, check_error,
}
use node_vcdiff.Ctx.Calls.{Calls, exec_all}
use node_vcdiff.Ctx.Several.{Contexts, set, at}
use node_vcdiff.Ctx.Several.Runs.{set_self, Runs}
use node_vcdiff.Ctx.Several.Writes.{Beside, entered, placed, beside_set, send_error-runs}

module _ (C : Coder) (js : Contexts C.State → Run (Contexts C.State))
    (runs : (all all' : Contexts C.State)
      → js all ≡ return all'
      → (j : ℕ) → Runs C (all j) (all' j))
    (i : ℕ) where
  deliver-runs :
      (all all' : Contexts C.State)
      → deliver_or_error_in (at i) js (true, all) ≡ return all'
      → (calls : Calls) × (deliver_or_error (exec_all C calls) (true, all i) ≡ return (all' i))
        × Beside C js runs i all all'
  unfolding finish_write
  deliver-runs all all' e =
      let (all1, e1, e2) = >>=-eq-return (js _) _ e in
      let ((calls, ek), beside) = entered C js runs i _ all all1 e1 in
      let (same, beside') = placed C js runs i _ all all1 all' (return_inj e2) beside in
      (calls, rw ek (ap return same), beside')

  -- From the call of `CheckError`.
  settled-runs :
      (all all' : Contexts C.State)
      → (check_error_in (at i) js all >>= deliver_or_error_in (at i) js) ≡ return all'
      → (calls : Calls) × ((check_error (exec_all C calls) (all i)
            >>= deliver_or_error (exec_all C calls))
          ≡ return (all' i))
        × Beside C js runs i all all'
  unfolding check_error
  settled-runs all all' e = elim (Bool-cases (has_error (all i))) [
    | inl bad ↦
        let (r, e1, e2) =
          >>=-eq-return (send_error_in (at i) js all >>= λ w. return (false, w))
            (deliver_or_error_in (at i) js) (rw bad at e) in
        let (all1, e3, e4) = >>=-eq-return (send_error_in (at i) js all) _ e1 in
        let (calls, ek, beside) = send_error-runs C js runs i all all1 e3 in
        let same : all1 ≡ all' =
          return_inj (ap (deliver_or_error_in (at i) js) (return_inj e4) ∙ e2) in
        (
          calls,
          rw (bad, ek) (ap (λ x. return (x i)) same),
          subst (Beside C js runs i all) same beside,
        )
    | inr fine ↦
        let (calls, ek, beside) = deliver-runs all all' (rw fine at e) in
        (calls, rw fine ek, beside)
  ]

  pub after_shim-runs :
      (all all' : Contexts C.State)
      → after_shim_in (at i) js true all ≡ return all'
      → (calls : Calls) × (after_shim (exec_all C calls) true (all i) ≡ return (all' i))
        × Beside C js runs i all all'
  unfolding after_shim
  after_shim-runs all all' e =
      let c = record (all i) { work = no_work } in
      let (calls, ek, beside) = settled-runs (set i c all) all' e in
      (
        calls,
        subst
            (λ x.
              (check_error (exec_all C calls) x >>= deliver_or_error (exec_all C calls))
              ≡ return (all' i))
            (set_self i c all) ek,
        beside_set C js runs i c all all' beside,
      )
