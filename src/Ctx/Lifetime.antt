-- ===== src/Ctx/Lifetime.antt =====
-- Garbage collection. `VcdCtx` is a `node::ObjectWrap`: when JavaScript cannot reach its handle any
-- more, the collector deletes it. A coder holds a persistent handle to the dictionary's object,
-- into whose memory it points.
pub mod Laws
pub mod Handles
use node_vcdiff.Base.{Bool, true, false, not, ◌&&◌, ◌||◌, is_some, ◌≡◌}
use node_vcdiff.Base.Run.{return}
use node_vcdiff.Codec.{Coder}
use node_vcdiff.Ctx.Defs.{Ctx, WorkData, queued, processed, make_ctx, reset}
use node_vcdiff.Ctx.Write.{process_shim, after_shim}
use node_vcdiff.Ctx.Calls.{Call, Calls, exec, exec_all}

-- A context and the JavaScript objects around it. After `delete` the queue of the thread pool may
-- still refer to the context, whose memory is then free: `freed`.
pub record World (S : Type 0) : Type 0 where
  pub ctx : Ctx S
  pub freed : Bool
  -- Whether JavaScript can reach the handle, and the dictionary other than through the coder.
  pub held : Bool
  pub dictionary_held : Bool
  -- Whether a persistent handle refers to the dictionary, and whether it was collected.
  pub dictionary_pinned : Bool
  pub dictionary_freed : Bool

module _ {S : Type 0} where
  -- The context that `VcdCtx::New` wraps in its handle, with the persistent handle that the coder's
  -- constructor makes.
  unfoldable pub wrap : Ctx S → World S
  wrap c = record {
    ctx = c;
    freed = false;
    held = true;
    dictionary_held = true;
    dictionary_pinned = true;
    dictionary_freed = false;
  }

  -- The context after one of its methods. If the coder was destroyed, so was its persistent handle;
  -- `resets` says whether V8 resets a handle in its destructor.
  unfoldable pub with_ctx : Bool → World S → Ctx S → World S
  with_ctx resets w c = record w {
    ctx = c;
    dictionary_pinned = w.dictionary_pinned && (is_some c.coder || not resets);
  }

  -- `VcdCtx::~VcdCtx`
  unfoldable pub destroy : Bool → World S → World S
  unfolding with_ctx reset
  destroy resets w = record (with_ctx resets w (reset w.ctx)) { freed = true }

module _ (C : Coder) (resets careful : Bool) where
  -- JavaScript that is `careful` does not lose the handle during a write.
  pub data WorldStep (w : World C.State) : World C.State → Type 0 where
    js :
        (call : Call) (c : Ctx C.State)
        → w.held ≡ true
        → w.freed ≡ false
        → exec C call w.ctx ≡ return c
        → WorldStep w (with_ctx resets w c)
    pool :
        (request : WorkData) (c : Ctx C.State)
        → w.freed ≡ false
        → w.ctx.work ≡ queued request
        → process_shim C request w.ctx ≡ return c
        → WorldStep w (with_ctx resets w c)
    loop :
        (request : WorkData) (inside : Calls) (c : Ctx C.State)
        → w.freed ≡ false
        → w.ctx.work ≡ processed request
        → after_shim (exec_all C inside) true w.ctx ≡ return c
        → WorldStep w (with_ctx resets w c)
    lose_handle :
        (careful ≡ true → w.ctx.write_in_progress ≡ false) → WorldStep w (record w { held = false })
    lose_dictionary : WorldStep w (record w { dictionary_held = false })
    collect_handle : w.held ≡ false → w.freed ≡ false → WorldStep w (destroy resets w)
    collect_dictionary :
        w.dictionary_held ≡ false
        → w.dictionary_pinned ≡ false
        → WorldStep w (record w { dictionary_freed = true })

  pub data WorldReach (s : C.State) : World C.State → Type 0 where
    start : WorldReach s (wrap (make_ctx s))
    later : {w w' : World C.State} → WorldReach s w → WorldStep w w' → WorldReach s w'
