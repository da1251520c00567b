-- ===== src/Js/Run/Idle.antt =====
-- Between two calls back of a run no write is in progress, so that a `close` there frees the coder.
use node_vcdiff.Base.{
  Bool, true, false, none, some, List, [], ◌∷◌, Bytes, ◌≡◌, refl, sym, subst, ◌∙◌, arith,
  Bool-cases, inl, inr,
}
use node_vcdiff.Base.Run.{return, >>=-eq-return, return_inj}
use node_vcdiff.Codec.{Coder}
use node_vcdiff.Codec.OpenVcdiff.{OpenVcdiff}
use node_vcdiff.Codec.Dispatch.{any_coder}
use node_vcdiff.Ctx.Defs.{Ctx, Event, WorkData, Work, no_work, queued, processed, callback}
use node_vcdiff.Ctx.Defs
use node_vcdiff.Ctx.Process.{process}
use node_vcdiff.Ctx.Process.Laws.{process_keeps}
use node_vcdiff.Ctx.Write.{write, process_shim, after_shim, finish_write}
use node_vcdiff.Ctx.Write.Cases.{Delivered, after_shim-cases}
use node_vcdiff.Ctx.Calls.{no_js, exec}
use node_vcdiff.Js.Options.{Vcdiff}
use node_vcdiff.Js.Outcome.{returned, native_call, >>=-eq-returned, ◌>>=◌}
use node_vcdiff.Js.Stream.{
  WritableState, Transformed, refused, accepted, buffer_chunk, submit, process_chunk, transform,
  flush, flush_end, on_error, close,
}
use node_vcdiff.Js.Turn.{react, complete}
use node_vcdiff.Js.Run.{Item, written, asked, flushed, run_work, feed, resume, run_stream}

abbrev is_queued : Work → Bool
is_queued (queued w) = true
is_queued _ = false

module _ (C : Coder) where
  Delivered-idle : (c c' : Ctx C.State) → Delivered C (no_js C) c c' → c'.write_in_progress ≡ false
  unfolding finish_write Defs.close
  Delivered-idle c c' (inl (fine, (c2, e1, e2))) = ground arith
  Delivered-idle c c' (inr (bad, f)) = f.idle

  -- A request that is run to its end leaves no write in progress.
  complete-idle :
      (w : WorkData) (c c' : Ctx C.State)
      → c.write_in_progress ≡ true
      → complete C w c ≡ return c'
      → c'.write_in_progress ≡ false
  unfolding complete process_shim
  complete-idle w c c' busy e =
      let (c0, e0, e1) = >>=-eq-return (process_shim C w c) _ e in
      let (c1, e2, e3) = >>=-eq-return (process C w.chunk w.is_last c) _ e0 in
      let (still, _, _) = process_keeps C w.chunk w.is_last c c1 e2 in
      Delivered-idle _ c' (
        after_shim-cases C (no_js C) (record c1 { work = processed w }) c'
          (λ x x' b h. inl (sym (return_inj h))) (still ∙ busy)
          (subst (λ x. after_shim (no_js C) true x ≡ return c') (sym (return_inj e3)) e1))

  run_work-idle :
      (work : Work) (c c' : Ctx C.State)
      → c.write_in_progress ≡ true
      → is_queued work ≡ true
      → run_work C work c ≡ return c'
      → c'.write_in_progress ≡ false
  unfolding run_work
  run_work-idle (queued w) c c' busy q e = complete-idle w c c' busy e
  run_work-idle (processed w) c c' busy q e = cc
  run_work-idle no_work c c' busy q e = cc

module _ (V : OpenVcdiff) where
  -- No write is in progress, or the one of the window that was handed on.
  abbrev IsWaiting : Transformed V → Type 0
  IsWaiting refused = Unit {0}
  IsWaiting (accepted none s) = s.ctx.write_in_progress ≡ false
  IsWaiting (accepted (some window) s) =
      (s.ctx.write_in_progress ≡ true) × (is_queued s.ctx.work ≡ true)

  transform-IsWaiting :
      (ws : WritableState) (chunk : Bytes) (b : Bool) (s : Vcdiff V) (t : Transformed V)
      → s.ctx.write_in_progress ≡ false
      → transform V ws chunk b s ≡ returned t
      → IsWaiting t
  unfolding transform process_chunk submit buffer_chunk exec write
  transform-IsWaiting ws chunk b s refused idle e = tt
  transform-IsWaiting ws chunk b s (accepted none s') idle e = ground arith
  transform-IsWaiting ws chunk b s (accepted (some window) s') idle e = (ground arith, ground arith)

  feed-IsWaiting :
      (item : Item) (s : Vcdiff V) (t : Transformed V)
      → s.ctx.write_in_progress ≡ false
      → feed V item s ≡ returned t
      → IsWaiting t
  unfolding feed flush flush_end
  feed-IsWaiting (written ws chunk) s t idle e = transform-IsWaiting ws chunk true s t idle e
  feed-IsWaiting (asked ws) s t idle e =
      let kept : (flush V ws s).1.ctx.write_in_progress ≡ false = ground (arith, idle) in
      let same : accepted none (flush V ws s).1 ≡ t = ground arith in subst IsWaiting same kept
  feed-IsWaiting (flushed ws) s t idle e =
      transform-IsWaiting ws [] false (record s { force_flush = true }) t idle e

  react-ctx : (events : List Event) (s : Vcdiff V) → (react V events s).1.ctx ≡ s.ctx
  unfolding react on_error
  react-ctx [] s = refl
  react-ctx (Defs.on_error message errno ∷ events) s = react-ctx events (on_error V s)
  react-ctx (callback out finished ∷ events) s = let h = react-ctx events s in ground (arith, h)

  resume-idle :
      (t : Transformed V) (r : List Bytes × Vcdiff V)
      → IsWaiting t
      → resume V t ≡ returned r
      → r.1.ctx.write_in_progress ≡ false
  unfolding resume
  resume-idle refused r v e = cc
  resume-idle (accepted none s) r v e = ground arith
  resume-idle (accepted (some window) s) r (busy, q) e =
      let (c, e1, e2) =
        >>=-eq-returned (native_call (run_work (any_coder V) s.ctx.work s.ctx)) _ e in
      let worked : run_work (any_coder V) s.ctx.work s.ctx ≡ return c = ground arith in
      let idle = run_work-idle (any_coder V) s.ctx.work s.ctx c busy q worked in
      let s' = record s { ctx = record c { events = [] } } in
      let same : react V c.events s' ≡ r = ground arith in
      subst (λ x. x.1.ctx.write_in_progress ≡ false) same (rw (react-ctx c.events s') idle)

  pub run_stream-idle :
      (items : List Item) (s : Vcdiff V) (r : List Bytes × Vcdiff V)
      → s.ctx.write_in_progress ≡ false
      → run_stream V items s ≡ returned r
      → r.1.ctx.write_in_progress ≡ false
  unfolding run_stream
  run_stream-idle [] s r idle e = ground arith
  run_stream-idle (item ∷ items) s r idle e =
      let (p, e1, e2) = >>=-eq-returned (feed V item s >>= resume V) _ e in
      let (t, e3, e4) = >>=-eq-returned (feed V item s) _ e1 in
      let h = resume-idle t p (feed-IsWaiting item s t idle e3) e4 in
      elim (Bool-cases p.1.had_error) [
        | inl bad ↦
            let same : p.1 ≡ r.1 = ground arith in
            subst (λ x. x.ctx.write_in_progress ≡ false) same h
        | inr fine ↦
            let e5 = (rw fine at e2) in
            let (q, e6, e7) = >>=-eq-returned (run_stream V items p.1) _ e5 in
            let same : q.1 ≡ r.1 = ground arith in
            subst (λ x. x.ctx.write_in_progress ≡ false) same (run_stream-idle items p.1 q h e6)
      ]

  -- A stream that is open, has its handle and no write in progress frees its coder when it is closed.
  pub close-frees :
      (s : Vcdiff V)
      → s.closed ≡ false
      → s.attached ≡ true
      → s.ctx.write_in_progress ≡ false
      → (s' : Vcdiff V) × (close V s ≡ returned s') × (s'.closed ≡ true) × (s'.ctx.coder ≡ none)
  unfolding close Defs.close
  close-frees s open_still attached idle =
      (record s { closed = true; ctx = Defs.reset s.ctx }, ground arith, refl, ground arith)
