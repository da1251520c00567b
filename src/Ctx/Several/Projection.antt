-- ===== src/Ctx/Several/Projection.antt =====
-- A program with several contexts, as each of them sees it.
use node_vcdiff.Base.{
  ℕ, Bool, true, false, Bytes, ◌==◌, ◌≡◌, refl, sym, ap, subst, ◌∙◌, arith, Bool-cases, inl, inr,
}
use node_vcdiff.Base.Run.{Run, return, ◌>>=◌, >>=-eq-return, return_inj}
use node_vcdiff.Codec.{Coder}
use node_vcdiff.Ctx.Defs.{Ctx, queued, close}
use node_vcdiff.Ctx.Write.{Written, write_in, process_shim, write}
use node_vcdiff.Ctx.Write.Cases.{CanWrite, begin_write}
use node_vcdiff.Ctx.Calls.{
  Call, write_sync, write_async, close_call, nothing, first, exec, exec_all, close_method,
}
use node_vcdiff.Ctx.System.{Reach}
use node_vcdiff.Ctx.System
use node_vcdiff.Ctx.Several.{
  Contexts, set, at, MethodCalls, sync, async, shut, stop, call, enters_none, exec_call, exec_calls,
  pool_on, pool_on, SeveralStep, js, pool, loop, SeveralReach, start, later,
}
use node_vcdiff.Ctx.Several.Runs.{set_self, set_other, set-set, Runs, Runs-refl, Runs-trans}
use node_vcdiff.Ctx.Several.Writes.{write_sync-runs}
use node_vcdiff.Ctx.Several.Shims.{after_shim-runs}

module _ (C : Coder) where
  pub same_number : (i j : ℕ) → (j == i) ≡ true → i ≡ j
  same_number i j e = ground arith

  -- To see what the `i`th context sees, and what the others see, is to see what each sees.
  each :
      (i : ℕ) (all all' : Contexts C.State)
      → Runs C (all i) (all' i)
      → ((j : ℕ) → (j == i) ≡ false → Runs C (all j) (all' j))
      → (j : ℕ) → Runs C (all j) (all' j)
  each i all all' mine beside j = elim (Bool-cases (j == i)) [
    | inl self ↦ subst (λ k. Runs C (all k) (all' k)) (same_number i j self) mine
    | inr other ↦ beside j other
  ]

  one_call : (c c' : Ctx C.State) (m : Call) → exec C m c ≡ return c' → Runs C c c'
  unfolding exec_all
  one_call c c' m e = (first m nothing, rw e refl)

  sync-runs :
      (i : ℕ) (buffer : Bytes) (is_last : Bool) (inside : MethodCalls) (all all' : Contexts C.State)
      → ((all1 all2 : Contexts C.State)
          → exec_calls C inside all1 ≡ return all2
          → (j : ℕ) → Runs C (all1 j) (all2 j))
      → exec_call C (sync i buffer is_last inside) all ≡ return all'
      → (j : ℕ) → Runs C (all j) (all' j)
  unfolding exec_call exec
  sync-runs i buffer is_last inside all all' runs e =
      let (r, e1, e2) =
        >>=-eq-return (write_in C (at i) (exec_calls C inside) buffer is_last false all) _ e in
      let (calls, ek, beside) =
        write_sync-runs C (exec_calls C inside) runs i buffer is_last all r e1 in
      let same : r.1 ≡ all' = return_inj e2 in
      each i all all'
        (one_call (all i) (all' i) (write_sync buffer is_last calls)
          (ap (λ m. m >>= λ x. return x.1) ek ∙ ap (λ x. return (x i)) same))
        (λ j other. subst (λ x. Runs C (all j) (x j)) same (beside j other))

  pub write_in-queues :
      (i : ℕ) (enters : Contexts C.State → Run (Contexts C.State)) (buffer : Bytes) (is_last : Bool)
      (all : Contexts C.State) (r : Written × Contexts C.State)
      → write_in C (at i) enters buffer is_last true all ≡ return r
      → let c = begin_write C buffer (all i) in
        CanWrite C (all i)
        × (r.1
            ≡ set i
                (record (set i c all i) {
                  work = queued (record { chunk = buffer; is_last = is_last });
                })
                (set i c all))
  unfolding write_in
  write_in-queues i enters buffer is_last all r e = ground arith

  exec_queues :
      (buffer : Bytes) (is_last : Bool) (c : Ctx C.State)
      → CanWrite C c
      → exec C (write_async buffer is_last) c
        ≡ return (record (begin_write C buffer c) {
          work = queued (record { chunk = buffer; is_last = is_last });
        })
  unfolding exec write
  exec_queues buffer is_last c (alive, free, open_still) = ground arith

  put-runs :
      (i : ℕ) (c : Ctx C.State) (all all' : Contexts C.State)
      → all' ≡ set i c all
      → Runs C (all i) c
      → (j : ℕ) → Runs C (all j) (all' j)
  put-runs i c all all' same mine =
      each i all all' (subst (Runs C (all i)) (sym (ap (λ f. f i) same ∙ set_self i c all)) mine)
        (λ j other.
          Runs-refl C (all j) (all' j) (sym (ap (λ f. f j) same ∙ set_other i j c all other)))

  async-runs :
      (i : ℕ) (buffer : Bytes) (is_last : Bool) (all all' : Contexts C.State)
      → exec_call C (async i buffer is_last) all ≡ return all'
      → (j : ℕ) → Runs C (all j) (all' j)
  unfolding exec_call
  async-runs i buffer is_last all all' e =
      let (r, e1, e2) =
        >>=-eq-return (write_in C (at i) (enters_none C) buffer is_last true all) _ e in
      let (can, same) = write_in-queues i (enters_none C) buffer is_last all r e1 in
      let w = queued (record { chunk = buffer; is_last = is_last }) in
      let c = begin_write C buffer (all i) in
      let once : set i (record (set i c all i) { work = w }) (set i c all)
          ≡ set i (record c { work = w }) all =
        set-set i c _ all ∙ ap (λ x. set i (record x { work = w }) all) (set_self i c all) in
      put-runs i (record c { work = w }) all all' (sym (return_inj e2) ∙ same ∙ once)
        (one_call (all i) _ (write_async buffer is_last) (exec_queues buffer is_last (all i) can))

  shut-runs :
      (i : ℕ) (all all' : Contexts C.State)
      → exec_call C (shut i) all ≡ return all'
      → (j : ℕ) → Runs C (all j) (all' j)
  unfolding exec_call exec close_method
  shut-runs i all all' e =
      put-runs i (close (all i)) all all' (sym (return_inj e))
        (one_call (all i) (close (all i)) close_call refl)

  -- Whatever calls JavaScript makes, each context sees some calls.
  pub exec_calls-runs :
      (calls : MethodCalls) (all all' : Contexts C.State)
      → exec_calls C calls all ≡ return all'
      → (j : ℕ) → Runs C (all j) (all' j)
  unfolding exec_calls
  exec_calls-runs stop all all' e j = Runs-refl C (all j) (all' j) (ap (λ f. f j) (return_inj e))
  exec_calls-runs (call (sync i buffer is_last inside) rest) all all' e j =
      let (all1, e1, e2) =
        >>=-eq-return (exec_call C (sync i buffer is_last inside) all) (exec_calls C rest) e in
      Runs-trans C (all j) (all1 j) (all' j)
        (sync-runs i buffer is_last inside all all1 (exec_calls-runs inside) e1 j)
        (exec_calls-runs rest all1 all' e2 j)
  exec_calls-runs (call (async i buffer is_last) rest) all all' e j =
      let (all1, e1, e2) =
        >>=-eq-return (exec_call C (async i buffer is_last) all) (exec_calls C rest) e in
      Runs-trans C (all j) (all1 j) (all' j) (async-runs i buffer is_last all all1 e1 j)
        (exec_calls-runs rest all1 all' e2 j)
  exec_calls-runs (call (shut i) rest) all all' e j =
      let (all1, e1, e2) = >>=-eq-return (exec_call C (shut i) all) (exec_calls C rest) e in
      Runs-trans C (all j) (all1 j) (all' j) (shut-runs i all all1 e1 j)
        (exec_calls-runs rest all1 all' e2 j)

  -- Some calls are some steps.
  Runs-Reach : (s : C.State) (c c' : Ctx C.State) → Runs C c c' → Reach C s c → Reach C s c'
  unfolding exec_all
  Runs-Reach s c c' (nothing, e) r = subst (Reach C s) (return_inj e) r
  Runs-Reach s c c' (first m calls, e) r =
      let (c1, e1, e2) = >>=-eq-return (exec C m c) _ e in
      Runs-Reach s c1 c' (calls, e2) (System.later r (System.js m e1))

  Step-Reach :
      (s : ℕ → C.State) (all all' : Contexts C.State)
      → SeveralStep C all all'
      → ((i : ℕ) → Reach C (s i) (all i))
      → (i : ℕ) → Reach C (s i) (all' i)
  unfolding exec_calls pool_on
  Step-Reach s all all' (js m e) r i =
      Runs-Reach (s i) (all i) (all' i) (exec_calls-runs (call m stop) all all' (rw e refl) i) (r i)
  Step-Reach s all all' (pool k w q e) r i =
      let (c, e1, e2) = >>=-eq-return (process_shim C w (all k)) _ e in
      let same = return_inj e2 in
      elim (Bool-cases (i == k)) [
        | inl self ↦
            subst (λ j. Reach C (s j) (all' j)) (same_number k i self)
              (subst (Reach C (s k)) (sym (set_self k c all) ∙ ap (λ f. f k) same)
                (System.later (r k) (System.pool w q e1)))
        | inr other ↦
            subst (Reach C (s i)) (sym (set_other k i c all other) ∙ ap (λ f. f i) same) (r i)
      ]
  Step-Reach s all all' (loop k w inside q e) r i =
      let (calls, ek, beside) =
        after_shim-runs C (exec_calls C inside) (exec_calls-runs inside) k all all' e in
      elim (Bool-cases (i == k)) [
        | inl self ↦
            subst (λ j. Reach C (s j) (all' j)) (same_number k i self)
              (System.later (r k) (System.loop w calls q ek))
        | inr other ↦ Runs-Reach (s i) (all i) (all' i) (beside i other) (r i)
      ]

  -- Contexts do not disturb one another: whatever the pool, the event loop and JavaScript do with any
  -- of them, and whatever methods the callbacks of one call on the others, each context goes only
  -- through states that it can reach alone.
  pub SeveralReach-Reach :
      (s : ℕ → C.State) (all : Contexts C.State)
      → SeveralReach C s all
      → (i : ℕ) → Reach C (s i) (all i)
  SeveralReach-Reach s all start i = System.start
  SeveralReach-Reach s all (later {all = b} r st) i =
      Step-Reach s b all st (SeveralReach-Reach s b r) i
