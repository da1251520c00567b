-- ===== src/Ctx/Invariant.antt =====
-- The invariant of a `VcdCtx` whenever JavaScript can see it, and the ends of a write.
pub mod Calls
pub mod Steps
use node_vcdiff.Base.{
  true, false, some, [], ◌≡◌, refl, sym, subst, inl, inr, arith, is_some, if◌then◌else◌, Bool-cases,
}
use node_vcdiff.Codec.{Coder, is_ok}
use node_vcdiff.Ctx.Defs.{
  Ctx, Event, WorkData, queued, processed, is_busy, make_ctx, close, is_done, is_idle,
  is_finalizing, emit,
}
use node_vcdiff.Ctx.Process.Laws.{Processed}
use node_vcdiff.Ctx.Write.{Written, finish_write}
use node_vcdiff.Ctx.Write.Errors.{Failed}
use node_vcdiff.Ctx.Write.Cases.{WroteNow}

module _ {S : Type 0} where
  pub record Inv (c : Ctx S) : Type 0 where
    -- A write is in progress exactly while the pool or the event loop has its request.
    pub in_flight : c.write_in_progress ≡ is_busy c.work
    -- The coder outlives the write.
    pub alive : c.write_in_progress ≡ true → is_some c.coder ≡ true
    pub held : (w : WorkData) → c.work ≡ queued w → c.in_buffer ≡ some w.chunk
    pub fresh : is_idle c.state ≡ true → c.output_buffer ≡ []
    pub begun : (w : WorkData) → c.work ≡ processed w → is_idle c.state ≡ false
    pub settled : is_finalizing c.state ≡ false
    pub failed : is_ok c.err ≡ false → is_done c.state ≡ true
    pub delivered : c.write_in_progress ≡ false → is_ok c.err ≡ true → c.output_buffer ≡ []

  -- A request to close is pending only while a write is in progress.
  abbrev pub CloseWaits : Ctx S → Type 0
  CloseWaits c = c.pending_close ≡ true → c.write_in_progress ≡ true

  pub make_ctx-Inv : (s : S) → Inv (make_ctx s)
  unfolding make_ctx
  make_ctx-Inv s = record {
    in_flight = refl;
    alive = λ h. cc;
    held = λ w h. cc;
    fresh = λ h. refl;
    begun = λ w h. cc;
    settled = refl;
    failed = λ h. cc;
    delivered = λ h k. refl;
  }

  pub close-Inv : (c : Ctx S) → Inv c → Inv (close c)
  unfolding close
  close-Inv c v = grind arith

  pub emit-Inv : (e : Event) (c : Ctx S) → Inv c → Inv (emit e c)
  emit-Inv e c v = grind arith

  -- The last `if` of `AfterShim`.
  pub closed_if_pending-Inv :
      (c c' : Ctx S)
      → Inv c
      → c' ≡ (if c.pending_close then close c else c)
      → Inv c' × CloseWaits c'
  unfolding close
  closed_if_pending-Inv c c' v e = elim (Bool-cases c.pending_close) [
    | inl pending ↦
        let same : close c ≡ c' = ground arith in (subst Inv same (close-Inv c v), ground arith)
    | inr open_still ↦ let same : c ≡ c' = ground arith in (subst Inv same v, ground arith)
  ]

  pub Failed-Inv :
      (c c' : Ctx S)
      → Failed c c'
      → is_busy c.work ≡ false
      → is_idle c.state ≡ false
      → is_finalizing c.state ≡ false
      → (is_ok c.err ≡ false → is_done c.state ≡ true)
      → is_ok c.err ≡ false
      → Inv c'
  Failed-Inv c c' f quiet begun settled failed bad = grind arith

  pub finish_write-Inv :
      (c : Ctx S)
      → is_busy c.work ≡ false
      → is_idle c.state ≡ false
      → is_finalizing c.state ≡ false
      → (is_ok c.err ≡ false → is_done c.state ≡ true)
      → Inv (finish_write c).2
  unfolding finish_write
  finish_write-Inv c quiet begun settled failed = grind arith

module _ (C : Coder) where
  pub WroteNow-Inv :
      (c c1 : Ctx C.State) (r : Written × Ctx C.State)
      → Processed C c c1
      → is_busy c.work ≡ false
      → WroteNow C c1 r
      → Inv r.1
  WroteNow-Inv c c1 r p quiet (inl (fine, e)) =
      subst (λ x. Inv x.1) (sym e) (finish_write-Inv c1 (ground arith) p.begun p.settled p.failed)
  WroteNow-Inv c c1 r p quiet (inr (bad, stop, f)) =
      Failed-Inv c1 r.1 f (ground arith) p.begun p.settled p.failed bad
