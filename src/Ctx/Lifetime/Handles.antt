-- ===== src/Ctx/Lifetime/Handles.antt =====
-- Whether the collector can take memory that is still in use.
use node_vcdiff.Base.{Bool, true, false, is_some, ◌≡◌, refl, ap, arith}
use node_vcdiff.Base.Run.{returns}
use node_vcdiff.Codec.{Coder}
use node_vcdiff.Ctx.Defs.{WorkData, queued, is_busy, make_ctx, reset}
use node_vcdiff.Ctx.Write.{process_shim}
use node_vcdiff.Ctx.Invariant.Steps.{Reach-Inv}
use node_vcdiff.Ctx.Pool.{pool_safe}
use node_vcdiff.Ctx.Lifetime.{
  World, WorldStep, js, pool, loop, lose_handle, lose_dictionary, collect_handle,
  collect_dictionary, WorldReach, start, later, wrap, with_ctx, destroy,
}
use node_vcdiff.Ctx.Lifetime.Laws.{WorldReach-IsKept}

module _ (C : Coder) (resets : Bool) where
  -- Whatever JavaScript loses and the collector takes, while the context has its coder its memory and
  -- the dictionary, into which the coder points, are there.
  pub dictionary_outlives_coder :
      (careful : Bool) (s : C.State) (w : World C.State)
      → WorldReach C resets careful s w
      → is_some w.ctx.coder ≡ true
      → (w.freed ≡ false) × (w.dictionary_freed ≡ false)
  dictionary_outlives_coder careful s w r alive =
      let v = WorldReach-IsKept C resets careful s w r in
      (ground (arith, v.gone), v.kept (v.pinned alive))

  -- The bug: if V8 does not reset persistent handles in their destructors, a dictionary that was given
  -- to a context is never collected, not after a `close` and not after the context was deleted.
  pub dictionary_leaks :
      (careful : Bool) (s : C.State) (w : World C.State)
      → resets ≡ false
      → WorldReach C resets careful s w
      → (w.dictionary_pinned ≡ true) × (w.dictionary_freed ≡ false)
  dictionary_leaks careful s w none_reset r =
      let v = WorldReach-IsKept C resets careful s w r in
      (v.leaked none_reset, v.kept (v.leaked none_reset))

  -- The handle of a context whose request the pool or the event loop has was not lost.
  abbrev IsHeld : World C.State → Type 0
  IsHeld w = is_busy w.ctx.work ≡ true → (w.held ≡ true) × (w.freed ≡ false)

  in_flight :
      (s : C.State) (w : World C.State)
      → WorldReach C resets true s w
      → w.freed ≡ false
      → w.ctx.write_in_progress ≡ is_busy w.ctx.work
  in_flight s w r alive =
      (Reach-Inv C ((WorldReach-IsKept C resets true s w r).real alive)).0.in_flight

  WorldStep-IsHeld :
      (s : C.State) (w w' : World C.State)
      → WorldReach C resets true s w
      → IsHeld w
      → WorldStep C resets true w w'
      → IsHeld w'
  unfolding with_ctx destroy reset
  WorldStep-IsHeld s w _ r h (js call c held alive e) busy = (held, alive)
  WorldStep-IsHeld s w _ r h (pool request c alive q e) busy = h (ap is_busy q)
  WorldStep-IsHeld s w _ r h (loop request inside c alive q e) busy = h (ap is_busy q)
  WorldStep-IsHeld s w _ r h (lose_handle idle) busy =
      ground (arith, idle refl, in_flight s w r (h busy).1)
  WorldStep-IsHeld s w _ r h lose_dictionary busy = h busy
  WorldStep-IsHeld s w _ r h (collect_handle lost alive) busy = ground (arith, h busy)
  WorldStep-IsHeld s w _ r h (collect_dictionary lost loose) busy = h busy

  WorldReach-IsHeld : (s : C.State) (w : World C.State) → WorldReach C resets true s w → IsHeld w
  unfolding wrap make_ctx
  WorldReach-IsHeld s w start = λ busy. cc
  WorldReach-IsHeld s w (later {w = u} r st) = WorldStep-IsHeld s u w r (WorldReach-IsHeld s u r) st

  -- If JavaScript keeps the handle during each write, the thread pool always finds the context that it
  -- works on, and the dictionary, and no assertion of `Process` fails.
  pool_memory_safe :
      (s : C.State) (w : World C.State) (request : WorkData)
      → WorldReach C resets true s w
      → w.ctx.work ≡ queued request
      → (w.freed ≡ false)
        × (w.dictionary_freed ≡ false)
        × (returns (process_shim C request w.ctx) ≡ true)
  pool_memory_safe s w request r q =
      let alive = (WorldReach-IsHeld s w r (ap is_busy q)).1 in
      let v = WorldReach-IsKept C resets true s w r in
      let (coder, goes, _) = pool_safe C s w.ctx request (v.real alive) q in
      (alive, v.kept (v.pinned coder), goes)
