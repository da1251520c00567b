-- ===== src/Ctx/Several/Frame.antt =====
-- Calls on some contexts leave the others alone.
use node_vcdiff.Base.{
  ℕ, Bool, true, false, ◌&&◌, Bytes, ◌==◌, ◌≡◌, refl, sym, ap, ◌∙◌, arith, Bool-cases, inl, inr,
}
use node_vcdiff.Base.Run.{Run, return, >>=-eq-return, return_inj}
use node_vcdiff.Codec.{Coder}
use node_vcdiff.Ctx.Defs.{Ctx, no_work}
use node_vcdiff.Ctx.Process.{process}
use node_vcdiff.Ctx.Write.{
  Written, finish_write, send_error_in, check_error_in, written_or_error_in, deliver_or_error_in,
  write_now_in, write_in, after_shim_in,
}
use node_vcdiff.Ctx.Write.Cases.{begin_write, write_in-cases, check_error_in-cases}
use node_vcdiff.Ctx.Several.{
  Contexts, set, at, MethodCall, MethodCalls, sync, async, shut, stop, call, enters_none, exec_call,
  exec_calls,
}
use node_vcdiff.Ctx.Calls.{close_method}
use node_vcdiff.Ctx.Several.Runs.{set_other}
use node_vcdiff.Ctx.Several.Projection.{write_in-queues}

both : (a b : Bool) → (a && b) ≡ true → (a ≡ true) × (b ≡ true)
both a b e = ground arith

-- Whether the calls, and those made inside callbacks, are all on contexts for which `held` is true.
unfoldable mutual
  pub are_on : (ℕ → Bool) → MethodCalls → Bool
  are_on held stop = true
  are_on held (call first rest) = is_on held first && are_on held rest

  pub is_on : (ℕ → Bool) → MethodCall → Bool
  is_on held (sync i buffer is_last inside) = held i && are_on held inside
  is_on held (async i buffer is_last) = held i
  is_on held (shut i) = held i

module _ (C : Coder) (j : ℕ) where
  abbrev Keeps : Contexts C.State → Contexts C.State → Type 0
  Keeps all all' = all' j ≡ all j

  module _ (js : Contexts C.State → Run (Contexts C.State))
      (keeps : (all all' : Contexts C.State) → js all ≡ return all' → Keeps all all') (i : ℕ)
      (other : (j == i) ≡ false) where
    put-Keeps : (c : Ctx C.State) (all : Contexts C.State) → Keeps all (set i c all)
    put-Keeps c all = set_other i j c all other

    send_error-Keeps :
        (all all' : Contexts C.State) → send_error_in (at i) js all ≡ return all' → Keeps all all'
    unfolding send_error_in
    send_error-Keeps all all' e =
        let (all1, e1, e2) = >>=-eq-return (js _) _ e in
        sym (ap (λ f. f j) (return_inj e2)) ∙ put-Keeps _ all1 ∙ keeps _ all1 e1 ∙ put-Keeps _ all

    check_error-Keeps :
        (all : Contexts C.State) (r : Bool × Contexts C.State)
        → check_error_in (at i) js all ≡ return r
        → Keeps all r.1
    check_error-Keeps all r e = elim (check_error_in-cases (at i) js all e) [
      | inl (fine, same) ↦ ap (λ x. x.1 j) same
      | inr (all1, sent, same) ↦ ap (λ x. x.1 j) same ∙ send_error-Keeps all all1 sent
    ]

    written-Keeps :
        (checked : Bool × Contexts C.State) → Keeps checked.1 (written_or_error_in (at i) checked).1
    unfolding finish_write
    written-Keeps (false, all) = refl
    written-Keeps (true, all) = put-Keeps _ all

    pub write_sync-Keeps :
        (buffer : Bytes) (is_last : Bool) (all : Contexts C.State) (r : Written × Contexts C.State)
        → write_in C (at i) js buffer is_last false all ≡ return r
        → Keeps all r.1
    unfolding write_now_in
    write_sync-Keeps buffer is_last all r e =
        let (can, e1) = write_in-cases C (at i) js buffer is_last all e in
        let all1 = set i (begin_write C buffer (all i)) all in
        let (c, e2, e3) = >>=-eq-return (process C buffer is_last (all1 i)) _ e1 in
        let (checked, e4, e5) = >>=-eq-return (check_error_in (at i) js (set i c all1)) _ e3 in
        sym (ap (λ x. x.1 j) (return_inj e5))
        ∙ written-Keeps checked
        ∙ check_error-Keeps (set i c all1) checked e4
        ∙ put-Keeps c all1
        ∙ put-Keeps _ all

    deliver-Keeps :
        (checked : Bool × Contexts C.State) (all' : Contexts C.State)
        → deliver_or_error_in (at i) js checked ≡ return all'
        → Keeps checked.1 all'
    unfolding finish_write
    deliver-Keeps (false, all) all' e = sym (ap (λ f. f j) (return_inj e))
    deliver-Keeps (true, all) all' e =
        let (all1, e1, e2) = >>=-eq-return (js _) _ e in
        sym (ap (λ f. f j) (return_inj e2)) ∙ put-Keeps _ all1 ∙ keeps _ all1 e1 ∙ put-Keeps _ all

    pub after_shim-Keeps :
        (all all' : Contexts C.State)
        → after_shim_in (at i) js true all ≡ return all'
        → Keeps all all'
    unfolding after_shim_in
    after_shim-Keeps all all' e =
        let all1 = set i (record (all i) { work = no_work }) all in
        let (checked, e1, e2) =
          >>=-eq-return (check_error_in (at i) js all1) (deliver_or_error_in (at i) js) e in
        deliver-Keeps checked all' e2 ∙ check_error-Keeps all1 checked e1 ∙ put-Keeps _ all

  module _ (held : ℕ → Bool) (lost : held j ≡ false) where
    pub not_same : (i : ℕ) → held i ≡ true → (j == i) ≡ false
    not_same i h = elim (Bool-cases (j == i)) [
      | inl self ↦
          let same : j ≡ i = ground arith in let there : held j ≡ true = ap held same ∙ h in cc
      | inr other ↦ other
    ]

    async-Keeps :
        (i : ℕ) (buffer : Bytes) (is_last : Bool) (all all' : Contexts C.State)
        → (j == i) ≡ false
        → exec_call C (async i buffer is_last) all ≡ return all'
        → Keeps all all'
    unfolding exec_call
    async-Keeps i buffer is_last all all' other e =
        let (r, e1, e2) =
          >>=-eq-return (write_in C (at i) (enters_none C) buffer is_last true all) _ e in
        let (can, same) = write_in-queues C i (enters_none C) buffer is_last all r e1 in
        let all1 = set i (begin_write C buffer (all i)) all in
        sym (ap (λ f. f j) (return_inj e2))
        ∙ ap (λ f. f j) same
        ∙ set_other i j _ all1 other
        ∙ set_other i j _ all other

    shut-Keeps :
        (i : ℕ) (all all' : Contexts C.State)
        → (j == i) ≡ false
        → exec_call C (shut i) all ≡ return all'
        → Keeps all all'
    unfolding exec_call close_method
    shut-Keeps i all all' other e = sym (ap (λ f. f j) (return_inj e)) ∙ set_other i j _ all other

    sync-Keeps :
        (i : ℕ) (buffer : Bytes) (is_last : Bool) (inside : MethodCalls)
        (all all' : Contexts C.State)
        → (j == i) ≡ false
        → ((x x' : Contexts C.State) → exec_calls C inside x ≡ return x' → Keeps x x')
        → exec_call C (sync i buffer is_last inside) all ≡ return all'
        → Keeps all all'
    unfolding exec_call
    sync-Keeps i buffer is_last inside all all' other keeps e =
        let (r, e1, e2) =
          >>=-eq-return (write_in C (at i) (exec_calls C inside) buffer is_last false all) _ e in
        sym (ap (λ f. f j) (return_inj e2))
        ∙ write_sync-Keeps (exec_calls C inside) keeps i other buffer is_last all r e1

    -- A context that is not held stays as it is.
    pub exec_calls-Keeps :
        (calls : MethodCalls) (all all' : Contexts C.State)
        → are_on held calls ≡ true
        → exec_calls C calls all ≡ return all'
        → Keeps all all'
    unfolding exec_calls are_on
    exec_calls-Keeps stop all all' on e = sym (ap (λ f. f j) (return_inj e))
    exec_calls-Keeps (call (sync i buffer is_last inside) rest) all all' on e =
        let (all1, e1, e2) =
          >>=-eq-return (exec_call C (sync i buffer is_last inside) all) (exec_calls C rest) e in
        let (first, later) = both _ (are_on held rest) on in
        let (mine, within) = both (held i) (are_on held inside) first in
        exec_calls-Keeps rest all1 all' later e2
        ∙ sync-Keeps i buffer is_last inside all all1 (not_same i mine)
            (λ x x' h. exec_calls-Keeps inside x x' within h) e1
    exec_calls-Keeps (call (async i buffer is_last) rest) all all' on e =
        let (all1, e1, e2) =
          >>=-eq-return (exec_call C (async i buffer is_last) all) (exec_calls C rest) e in
        let (first, later) = both (held i) (are_on held rest) on in
        exec_calls-Keeps rest all1 all' later e2
        ∙ async-Keeps i buffer is_last all all1 (not_same i first) e1
    exec_calls-Keeps (call (shut i) rest) all all' on e =
        let (all1, e1, e2) = >>=-eq-return (exec_call C (shut i) all) (exec_calls C rest) e in
        let (first, later) = both (held i) (are_on held rest) on in
        exec_calls-Keeps rest all1 all' later e2 ∙ shut-Keeps i all all1 (not_same i first) e1
