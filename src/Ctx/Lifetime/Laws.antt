-- ===== src/Ctx/Lifetime/Laws.antt =====
-- What the collector leaves alone, and what it does not.
use node_vcdiff.Base.{Bool, true, false, none, is_some, ◌≡◌, refl, ap, arith}
use node_vcdiff.Codec.{Coder}
use node_vcdiff.Ctx.Defs.{Ctx, is_busy, make_ctx, reset}
use node_vcdiff.Ctx.System
use node_vcdiff.Ctx.System.{Reach}
use node_vcdiff.Ctx.Alive.{exec-alive, busy-alive}
use node_vcdiff.Ctx.Lifetime.{
  World, WorldStep, js, pool, loop, lose_handle, lose_dictionary, collect_handle,
  collect_dictionary, WorldReach, start, later, wrap, with_ctx, destroy,
}

module _ (C : Coder) (resets careful : Bool) where
  pub record IsKept (s : C.State) (w : World C.State) : Type 0 where
    pub real : w.freed ≡ false → Reach C s w.ctx
    pub gone : w.freed ≡ true → w.ctx.coder ≡ none
    pub pinned : is_some w.ctx.coder ≡ true → w.dictionary_pinned ≡ true
    pub kept : w.dictionary_pinned ≡ true → w.dictionary_freed ≡ false
    pub leaked : resets ≡ false → w.dictionary_pinned ≡ true

  with_ctx-IsKept :
      (s : C.State) (w : World C.State) (c : Ctx C.State)
      → w.freed ≡ false
      → IsKept s w
      → Reach C s c
      → (is_some c.coder ≡ true → is_some w.ctx.coder ≡ true)
      → IsKept s (with_ctx resets w c)
  unfolding with_ctx
  with_ctx-IsKept s w c alive v r still = record {
    real = λ h. r;
    gone = λ h. ground arith;
    pinned = λ h. ground (arith, v.pinned (still h));
    kept = λ h. ground (arith, v.kept);
    leaked = λ h. ground (arith, v.leaked h);
  }

  destroy-IsKept : (s : C.State) (w : World C.State) → IsKept s w → IsKept s (destroy resets w)
  unfolding destroy with_ctx reset
  destroy-IsKept s w v = record {
    real = λ h. cc;
    gone = λ h. refl;
    pinned = λ h. cc;
    kept = λ h. ground (arith, v.kept);
    leaked = λ h. ground (arith, v.leaked h);
  }

  WorldStep-IsKept :
      (s : C.State) (w w' : World C.State)
      → IsKept s w
      → WorldStep C resets careful w w'
      → IsKept s w'
  WorldStep-IsKept s w _ v (js call c held alive e) =
      with_ctx-IsKept s w c alive v (System.later (v.real alive) (System.js call e))
        (exec-alive C call w.ctx c e)
  WorldStep-IsKept s w _ v (pool request c alive q e) =
      with_ctx-IsKept s w c alive v (System.later (v.real alive) (System.pool request q e))
        (λ _. busy-alive C w.ctx (v.real alive) (ap is_busy q))
  WorldStep-IsKept s w _ v (loop request inside c alive q e) =
      with_ctx-IsKept s w c alive v (System.later (v.real alive) (System.loop request inside q e))
        (λ _. busy-alive C w.ctx (v.real alive) (ap is_busy q))
  WorldStep-IsKept s w _ v (lose_handle idle) = record {
    real = v.real;
    gone = v.gone;
    pinned = v.pinned;
    kept = v.kept;
    leaked = v.leaked;
  }
  WorldStep-IsKept s w _ v lose_dictionary = record {
    real = v.real;
    gone = v.gone;
    pinned = v.pinned;
    kept = v.kept;
    leaked = v.leaked;
  }
  WorldStep-IsKept s w _ v (collect_handle lost alive) = destroy-IsKept s w v
  WorldStep-IsKept s w _ v (collect_dictionary lost loose) = record {
    real = v.real;
    gone = v.gone;
    pinned = v.pinned;
    kept = λ h. cc;
    leaked = v.leaked;
  }

  wrap-IsKept : (s : C.State) → IsKept s (wrap (make_ctx s))
  unfolding wrap
  wrap-IsKept s = record {
    real = λ h. Reach.start;
    gone = λ h. cc;
    pinned = λ h. refl;
    kept = λ h. refl;
    leaked = λ h. refl;
  }

  pub WorldReach-IsKept :
      (s : C.State) (w : World C.State) → WorldReach C resets careful s w → IsKept s w
  WorldReach-IsKept s w start = wrap-IsKept s
  WorldReach-IsKept s w (later {w = u} r st) = WorldStep-IsKept s u w (WorldReach-IsKept s u r) st
