-- ===== src/Ctx/Protocol.antt =====
-- In which order a `VcdCtx` calls its coder, over any sequence of writes.
use node_vcdiff.Base.{Bool, false, Option, none, some, List, [], Bytes, ◌≡◌, refl, subst, arith}
use node_vcdiff.Base.Run.{return}
use node_vcdiff.Codec.{Coder}
use node_vcdiff.Codec.Log.{Entry, logged, Phase, unstarted, running, over, phase_after}
use node_vcdiff.Ctx.Defs.{Ctx, State, idle, done, is_finalizing}
use node_vcdiff.Ctx.Process.{process}
use node_vcdiff.Ctx.System.{Reach}
use node_vcdiff.Ctx.Frame.{Reach-Holds}

-- The phase in which the state machine believes its coder to be.
abbrev pub phase_of : State → Phase
phase_of idle = unstarted
phase_of done = over
phase_of _ = running

module _ (C : Coder) where
  -- The calls so far were in order, and the state machine knows how far they went.
  abbrev pub InOrder : Option (C.State × List Entry) → State → Type 0
  InOrder none state = Unit {0}
  InOrder (some (s, log)) state = phase_after log ≡ some (phase_of state)

  pub process-InOrder :
      (chunk : Bytes) (is_last : Bool) (c c' : Ctx (C.State × List Entry))
      → is_finalizing c.state ≡ false
      → InOrder c.coder c.state
      → process (logged C) chunk is_last c ≡ return c'
      → InOrder c'.coder c'.state
  unfolding process
  process-InOrder chunk is_last c c' settled h e = ground arith

  -- Whatever JavaScript, the pool and the event loop do, the calls that the coder of a context has
  -- got are in the order that open-vcdiff allows, nothing follows a call that failed, and `state_`
  -- tells how far the coder is.
  pub calls_in_order :
      (s : C.State) (c : Ctx (C.State × List Entry)) (s' : C.State) (log : List Entry)
      → Reach (logged C) (s, []) c
      → c.coder ≡ some (s', log)
      → phase_after log ≡ some (phase_of c.state)
  calls_in_order s c s' log r e =
      subst (λ x. InOrder x c.state) e
        (Reach-Holds (logged C) (λ coder state err. InOrder coder state) (λ coder state err h. tt)
          process-InOrder (s, []) c refl r)
