-- ===== src/Ctx/Several/Runs.antt =====
-- What calls that are entered on several contexts come to on each of them.
use node_vcdiff.Base.{ℕ, false, ◌==◌, ◌≡◌, refl, ap, fun_ext, arith}
use node_vcdiff.Base.Run.{return, >>=-eq-return}
use node_vcdiff.Codec.{Coder}
use node_vcdiff.Ctx.Defs.{Ctx}
use node_vcdiff.Ctx.Calls.{Calls, nothing, first, append, exec, exec_all}
use node_vcdiff.Ctx.Several.{Contexts, set}

module _ {S : Type 0} where
  pub set_self : (i : ℕ) (c : Ctx S) (all : Contexts S) → set i c all i ≡ c
  unfolding set
  set_self i c all = ground arith

  pub set_other :
      (i j : ℕ) (c : Ctx S) (all : Contexts S) → (j == i) ≡ false → set i c all j ≡ all j
  unfolding set
  set_other i j c all other = rw other refl

  pub set-set : (i : ℕ) (c d : Ctx S) (all : Contexts S) → set i d (set i c all) ≡ set i d all
  unfolding set
  set-set i c d all = fun_ext (λ j. ground arith)

module _ (C : Coder) where
  -- Some calls lead from one context to the other.
  abbrev pub Runs : Ctx C.State → Ctx C.State → Type 0
  Runs c c' = (calls : Calls) × (exec_all C calls c ≡ return c')

  exec_all-append :
      (calls more : Calls) (c c1 c' : Ctx C.State)
      → exec_all C calls c ≡ return c1
      → exec_all C more c1 ≡ return c'
      → exec_all C (append calls more) c ≡ return c'
  unfolding exec_all
  exec_all-append nothing more c c1 c' e e' = cc
  exec_all-append (first call calls) more c c1 c' e e' =
      let (c2, e2, e3) = >>=-eq-return (exec C call c) _ e in
      rw e2 (exec_all-append calls more c2 c1 c' e3 e')

  pub Runs-refl : (c c' : Ctx C.State) → c ≡ c' → Runs c c'
  unfolding exec_all
  Runs-refl c c' e = (nothing, ap return e)

  pub Runs-trans : (c c1 c' : Ctx C.State) → Runs c c1 → Runs c1 c' → Runs c c'
  Runs-trans c c1 c' (calls, e) (more, e') =
      (append calls more, exec_all-append calls more c c1 c' e e')
