-- ===== src/Ctx/Several/Alive.antt =====
-- No step makes a coder.
use node_vcdiff.Base.{
  ℕ, true, false, is_some, ◌==◌, ◌≡◌, refl, sym, ap, subst, ◌∙◌, Bool-cases, inl, inr,
}
use node_vcdiff.Base.Run.{>>=-eq-return, return_inj}
use node_vcdiff.Codec.{Coder}
use node_vcdiff.Ctx.Defs.{Ctx, is_busy}
use node_vcdiff.Ctx.Write.{process_shim}
use node_vcdiff.Ctx.Calls.{nothing, first, exec, exec_all}
use node_vcdiff.Ctx.Alive.{exec-alive, busy-alive}
use node_vcdiff.Ctx.Several.{
  Contexts, stop, call, exec_calls, pool_on, SeveralStep, js, pool, loop, SeveralReach,
}
use node_vcdiff.Ctx.Several.Runs.{set_other, Runs}
use node_vcdiff.Ctx.Several.Shims.{after_shim-runs}
use node_vcdiff.Ctx.Several.Projection.{same_number, exec_calls-runs, SeveralReach-Reach}

module _ (C : Coder) where
  Runs-alive : (c c' : Ctx C.State) → Runs C c c' → is_some c'.coder ≡ true → is_some c.coder ≡ true
  unfolding exec_all
  Runs-alive c c' (nothing, e) h = ap (λ x. is_some x.coder) (return_inj e) ∙ h
  Runs-alive c c' (first m calls, e) h =
      let (c1, e1, e2) = >>=-eq-return (exec C m c) _ e in
      exec-alive C m c c1 e1 (Runs-alive c1 c' (calls, e2) h)

  -- Before a step of the pool or the event loop on the `k`th context its coder is there.
  mine_or_other :
      (s : ℕ → C.State) (all all' : Contexts C.State) (j k : ℕ)
      → SeveralReach C s all
      → is_busy (all k).work ≡ true
      → ((j == k) ≡ false → is_some (all' j).coder ≡ true → is_some (all j).coder ≡ true)
      → is_some (all' j).coder ≡ true
      → is_some (all j).coder ≡ true
  mine_or_other s all all' j k r busy beside h = elim (Bool-cases (j == k)) [
    | inl self ↦
        subst (λ i. is_some (all i).coder ≡ true) (same_number C k j self)
          (busy-alive C (all k) (SeveralReach-Reach C s all r k) busy)
    | inr other ↦ beside other h
  ]

  pub SeveralStep-alive :
      (s : ℕ → C.State) (all all' : Contexts C.State) (j : ℕ)
      → SeveralReach C s all
      → SeveralStep C all all'
      → is_some (all' j).coder ≡ true
      → is_some (all j).coder ≡ true
  unfolding exec_calls pool_on
  SeveralStep-alive s all all' j r (js m e) h =
      Runs-alive (all j) (all' j) (exec_calls-runs C (call m stop) all all' (rw e refl) j) h
  SeveralStep-alive s all all' j r (pool k w q e) h =
      let (c, e1, e2) = >>=-eq-return (process_shim C w (all k)) _ e in
      mine_or_other s all all' j k r (ap is_busy q)
        (λ other h'.
          ap (λ x. is_some x.coder)
            (sym (set_other k j c all other) ∙ ap (λ f. f j) (return_inj e2))
          ∙ h')
        h
  SeveralStep-alive s all all' j r (loop k w inside q e) h =
      let (calls, ek, beside) =
        after_shim-runs C (exec_calls C inside) (exec_calls-runs C inside) k all all' e in
      mine_or_other s all all' j k r (ap is_busy q)
        (λ other h'. Runs-alive (all j) (all' j) (beside j other) h') h
