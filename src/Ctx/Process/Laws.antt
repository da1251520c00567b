-- ===== src/Ctx/Process/Laws.antt =====
-- What a run of `VcdCtx::Process` does to the context, whatever the codec answers.
use node_vcdiff.Base.{Bool, true, false, [], Bytes, ◌≡◌, arith, is_some}
use node_vcdiff.Base.Run.{return, returns}
use node_vcdiff.Codec.{Coder, is_ok}
use node_vcdiff.Ctx.Defs.{Ctx, is_done, is_idle, is_finalizing}
use node_vcdiff.Ctx.Process.{process}

module _ (C : Coder) where
  -- What `Process` leaves alone, and what it establishes.
  pub record Processed (c c' : Ctx C.State) : Type 0 where
    pub coder : is_some c'.coder ≡ true
    pub in_buffer : c'.in_buffer ≡ c.in_buffer
    pub work : c'.work ≡ c.work
    pub write_in_progress : c'.write_in_progress ≡ c.write_in_progress
    pub pending_close : c'.pending_close ≡ c.pending_close
    pub events : c'.events ≡ c.events
    pub begun : is_idle c'.state ≡ false
    pub settled : is_finalizing c'.state ≡ false
    pub failed : is_ok c'.err ≡ false → is_done c'.state ≡ true

  -- Whatever the state of the context, `Process` leaves the write in progress, its request and its input.
  pub process_keeps :
      (chunk : Bytes) (is_last : Bool) (c c' : Ctx C.State)
      → process C chunk is_last c ≡ return c'
      → (c'.write_in_progress ≡ c.write_in_progress)
        × (c'.work ≡ c.work)
        × (c'.in_buffer ≡ c.in_buffer)
  unfolding process
  process_keeps chunk is_last c c' e = ground arith

  module _ (chunk : Bytes) (is_last : Bool) (c : Ctx C.State) (alive : is_some c.coder ≡ true)
      (fresh : is_idle c.state ≡ true → c.output_buffer ≡ []) where
    -- With a coder, and with no output left over before the first chunk, no assertion fails.
    pub process-returns : returns (process C chunk is_last c) ≡ true
    unfolding process
    process-returns = ground arith

    pub process-Processed :
        {c' : Ctx C.State}
        → is_finalizing c.state ≡ false
        → (is_ok c.err ≡ false → is_done c.state ≡ true)
        → process C chunk is_last c ≡ return c'
        → Processed c c'
    unfolding process
    process-Processed settled failed e = ground arith
