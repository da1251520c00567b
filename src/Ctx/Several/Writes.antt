-- ===== src/Ctx/Several/Writes.antt =====
-- A write among several contexts: its own context sees a write with some calls inside its callbacks,
-- and each other context sees some calls.
use node_vcdiff.Base.{
  ℕ, Bool, true, false, Bytes, ◌==◌, ◌≡◌, refl, sym, ap, subst, ◌∙◌, Bool-cases, inl, inr,
}
use node_vcdiff.Base.Run.{Run, return, >>=-eq-return, return_inj}
use node_vcdiff.Codec.{Coder}
use node_vcdiff.Ctx.Defs.{Ctx, has_error}
use node_vcdiff.Ctx.Process.{process}
use node_vcdiff.Ctx.Write.{
  Written, finish_write, send_error, send_error_in, check_error, check_error_in, written_or_error,
  written_or_error_in, write_now, write_now_in, write, write_in,
}
use node_vcdiff.Ctx.Write.Cases.{begin_write, write_in-cases, write_now_steps, write-write_now}
use node_vcdiff.Ctx.Calls.{Calls, nothing, exec_all}
use node_vcdiff.Ctx.Several.{Contexts, set, at}
use node_vcdiff.Ctx.Several.Runs.{set_self, set_other, Runs, Runs-refl}

module _ (C : Coder) where
  module _ (js : Contexts C.State → Run (Contexts C.State))
      (runs : (all all' : Contexts C.State)
        → js all ≡ return all'
        → (j : ℕ) → Runs C (all j) (all' j))
      (i : ℕ) where
    -- What the contexts other than the `i`th see.
    abbrev pub Beside : Contexts C.State → Contexts C.State → Type 0
    Beside all all' = (j : ℕ) → (j == i) ≡ false → Runs C (all j) (all' j)

    -- The callback is entered with the `i`th context changed to `c`, and leaves `c1`.
    pub entered :
        (c : Ctx C.State) (all all1 : Contexts C.State)
        → js (set i c all) ≡ return all1
        → Runs C c (all1 i) × Beside all all1
    entered c all all1 e = (
      rw (set_self i c all) at (runs (set i c all) all1 e i),
      λ j other. rw (set_other i j c all other) at (runs (set i c all) all1 e j),
    )

    -- The last thing that an operation does is to put its context back.
    pub placed :
        (c : Ctx C.State) (all all1 all' : Contexts C.State)
        → set i c all1 ≡ all'
        → Beside all all1
        → (c ≡ all' i) × Beside all all'
    placed c all all1 all' e beside = (
      sym (set_self i c all1) ∙ ap (λ f. f i) e,
      λ j other.
          subst (Runs C (all j)) (sym (set_other i j c all1 other) ∙ ap (λ f. f j) e)
            (beside j other),
    )

    pub beside_set :
        (c : Ctx C.State) (all all' : Contexts C.State)
        → Beside (set i c all) all'
        → Beside all all'
    beside_set c all all' beside =
        λ j other. subst (λ x. Runs C x (all' j)) (set_other i j c all other) (beside j other)

    pub send_error-runs :
        (all all' : Contexts C.State)
        → send_error_in (at i) js all ≡ return all'
        → (calls : Calls) × (send_error (exec_all C calls) (all i) ≡ return (all' i))
          × Beside all all'
    unfolding send_error
    send_error-runs all all' e =
        let (all1, e1, e2) = >>=-eq-return (js _) _ e in
        let ((calls, ek), beside) = entered _ all all1 e1 in
        let (same, beside') = placed _ all all1 all' (return_inj e2) beside in
        (calls, rw ek (ap return same), beside')

    check_error-runs :
        (all : Contexts C.State) (r : Bool × Contexts C.State)
        → check_error_in (at i) js all ≡ return r
        → (calls : Calls) × (check_error (exec_all C calls) (all i) ≡ return (r.0, r.1 i))
          × Beside all r.1
    unfolding check_error
    check_error-runs all r e = elim (Bool-cases (has_error (all i))) [
      | inl bad ↦
          let (all1, e1, e2) = >>=-eq-return (send_error_in (at i) js all) _ (rw bad at e) in
          let (calls, ek, beside) = send_error-runs all all1 e1 in
          let same : (false, all1) ≡ r = return_inj e2 in
          (
            calls,
            rw (bad, ek) (ap (λ x. return (x.0, x.1 i)) same),
            subst (λ x. Beside all x.1) same beside,
          )
      | inr fine ↦
          let same : (true, all) ≡ r = return_inj (rw fine at e) in
          (
            nothing,
            rw fine (ap (λ x. return (x.0, x.1 i)) same),
            subst (λ x. Beside all x.1) same (λ j other. Runs-refl C (all j) (all j) refl),
          )
    ]

    written-runs :
        (all : Contexts C.State) (checked : Bool × Contexts C.State)
        (r : Written × Contexts C.State)
        → written_or_error_in (at i) checked ≡ r
        → Beside all checked.1
        → (written_or_error (checked.0, checked.1 i) ≡ (r.0, r.1 i)) × Beside all r.1
    unfolding finish_write
    written-runs all (false, all1) r e beside =
        (ap (λ x. (x.0, x.1 i)) e, subst (λ x. Beside all x.1) e beside)
    written-runs all (true, all1) r e beside =
        let (same, beside') = placed _ all all1 r.1 (ap (λ x. x.1) e) beside in
        (
          ap (λ x. (x, (finish_write (all1 i)).2)) (ap (λ x. x.0) e) ∙ ap (λ x. (r.0, x)) same,
          beside',
        )

    abbrev WrittenAll : Type 0
    WrittenAll = Written × Contexts C.State

    write_now-runs :
        (chunk : Bytes) (is_last : Bool) (all : Contexts C.State) (r : WrittenAll)
        → write_now_in C (at i) js chunk is_last all ≡ return r
        → (calls : Calls) × (write_now C (exec_all C calls) chunk is_last (all i)
            ≡ return (r.0, r.1 i))
          × Beside all r.1
    unfolding write_now
    write_now-runs chunk is_last all r e =
        let (c1, e1, e2) = >>=-eq-return (process C chunk is_last (all i)) _ e in
        let (checked, e3, e4) = >>=-eq-return (check_error_in (at i) js (set i c1 all)) _ e2 in
        let (calls, ek, beside) = check_error-runs (set i c1 all) checked e3 in
        let ek' =
          subst (λ x. check_error (exec_all C calls) x ≡ return (checked.0, checked.1 i))
            (set_self i c1 all) ek in
        let (same, beside') =
          written-runs all checked r (return_inj e4) (beside_set c1 all checked.1 beside) in
        (
          calls,
          write_now_steps C (exec_all C calls) chunk is_last (all i) c1 _ e1 ek' ∙ ap return same,
          beside',
        )

    pub write_sync-runs :
        (buffer : Bytes) (is_last : Bool) (all : Contexts C.State) (r : WrittenAll)
        → write_in C (at i) js buffer is_last false all ≡ return r
        → (calls : Calls) × (write C (exec_all C calls) buffer is_last false (all i)
            ≡ return (r.0, r.1 i))
          × Beside all r.1
    unfolding write_in
    write_sync-runs buffer is_last all r e =
        let (can, e1) = write_in-cases C (at i) js buffer is_last all e in
        let c = begin_write C buffer (all i) in
        let (calls, ek, beside) = write_now-runs buffer is_last (set i c all) r e1 in
        let ek' =
          subst (λ x. write_now C (exec_all C calls) buffer is_last x ≡ return (r.0, r.1 i))
            (set_self i c all) ek in
        (
          calls,
          write-write_now C (exec_all C calls) buffer is_last (all i) can ∙ ek',
          beside_set c all r.1 beside,
        )
