-- ===== src/Js/Turn/Whole.antt =====
-- Data that fits one window, from `_flush` to the chunk that the stream pushes.
use node_vcdiff.Base.{
  refl, sym, subst, inl, inr, flatten, some, true, false, [], ◌∷◌, Bytes, ◌≡◌, arith,
}
use node_vcdiff.Base.Run.{return, returns, returns-cases, >>=-eq-return, return_inj}
use node_vcdiff.Codec.{Coder, Error, is_ok, get_error_string, error_code}
use node_vcdiff.Codec.OpenVcdiff.{OpenVcdiff}
use node_vcdiff.Codec.Dispatch.{any_coder, AnyCoder}
use node_vcdiff.Ctx.Defs.{
  Ctx, WorkData, make_ctx, callback, queued, done, processed, no_work, on_error,
}
use node_vcdiff.Ctx.Process.{process}
use node_vcdiff.Ctx.Write.{process_shim, after_shim, check_error, send_error, finish_write}
use node_vcdiff.Ctx.Process.Laws.{process-Processed}
use node_vcdiff.Ctx.Write.Cases.{Delivered, after_shim-cases}
use node_vcdiff.Ctx.Calls.{no_js}
use node_vcdiff.Ctx.Session.Whole.{process_whole}
use node_vcdiff.Ctx.Session.{direct}
use node_vcdiff.Js.Options.{Vcdiff}
use node_vcdiff.Js.Stream.{flush_end, accepted, WritableState}
use node_vcdiff.Js.Outcome.{returned}
use node_vcdiff.Js.Stream as Stream
use node_vcdiff.Js.Stream.Flushing.{queued_on, IsReady, flush_end_lem}
use node_vcdiff.Js.Turn.{react, complete}

module _ (C : Coder) (k : C.State) (window : Bytes) where
  -- A new context with its first and last request in the queue.
  abbrev pub queued_ctx : Ctx C.State
  queued_ctx = record (make_ctx k) {
    in_buffer = some window;
    work = queued (record { chunk = window; is_last = true });
    write_in_progress = true;
  }

  complete_whole-returns :
      returns (complete C (record { chunk = window; is_last = true }) queued_ctx) ≡ true
  unfolding make_ctx complete process_shim after_shim process check_error send_error finish_write
  complete_whole-returns = ground arith

  -- What `AfterShim` makes of a context that is through.
  Delivered-whole :
      (c c' : Ctx C.State) (spec : Error × Bytes)
      → (c.err ≡ spec.0) × (c.state ≡ done) × (is_ok spec.0 ≡ true → c.output_buffer ≡ spec.1)
      → (c.events ≡ []) × (c.pending_close ≡ false)
      → Delivered C (no_js C) c c'
      → let (e, out) = spec in
        (is_ok e ≡ true → c'.events ≡ callback out true ∷ [])
        × (is_ok e ≡ false → c'.events ≡ on_error (get_error_string e) (error_code e) ∷ [])
        × (c'.err ≡ e)
        × (c'.write_in_progress ≡ false)
  unfolding finish_write
  Delivered-whole c c' spec (err, state, output) (none_yet, open_still) (inl (fine, (c2, e1, e2))) =
      ground arith
  Delivered-whole c c' spec (err, state, output) (none_yet, open_still) (inr (bad, f)) =
      ground (arith, f.err, f.events, f.idle)

  complete_whole :
      {c : Ctx C.State}
      → complete C (record { chunk = window; is_last = true }) queued_ctx ≡ return c
      → let (e, out) = direct C k (window ∷ []) in
        (is_ok e ≡ true → c.events ≡ callback out true ∷ [])
        × (is_ok e ≡ false → c.events ≡ on_error (get_error_string e) (error_code e) ∷ [])
        × (c.err ≡ e)
        × (c.write_in_progress ≡ false)
  unfolding make_ctx complete process_shim
  complete_whole {c} e =
      let request : WorkData = record { chunk = window; is_last = true } in
      let (c0, e0, e1) = >>=-eq-return (process_shim C request queued_ctx) _ e in
      let (c1, e2, e3) = >>=-eq-return (process C window true queued_ctx) _ e0 in
      let p = process-Processed C window true queued_ctx refl (λ h. refl) refl (λ h. cc) e2 in
      let through = process_whole C k window queued_ctx c1 (refl, refl, refl) e2 in
      let c1' = record c1 { work = processed request } in
      Delivered-whole (record c1 { work = no_work }) c _ through (p.events, p.pending_close)
        (after_shim-cases C (no_js C) c1' c (λ x x' b h. inl (sym (return_inj h)))
          p.write_in_progress
          (subst (λ x. after_shim (no_js C) true x ≡ return c) (sym (return_inj e3)) e1))

module _ (V : OpenVcdiff) where
  -- A new stream whose data all fits its buffers hands it on in `_flush`, and when the pool and the
  -- event loop are through it has pushed what the codec makes of the data when it is used directly,
  -- as one chunk. If the codec fails the stream pushes nothing and has lost its handle.
  pub flush_end_delivers :
      (ws : WritableState) (s : Vcdiff V) (k : AnyCoder V)
      → IsReady V s
      → ws.ending ≡ true
      → ws.length ≡ 0
      → s.ctx ≡ make_ctx k
      → s.had_error ≡ false
      → let window = flatten s.buffers in
        let (e, out) = direct (any_coder V) k (window ∷ []) in
        (s' : Vcdiff V) × (c : Ctx (AnyCoder V)) × (flush_end V ws s
          ≡ returned (accepted (some window) s'))
        × (complete (any_coder V) (record { chunk = window; is_last = true }) s'.ctx ≡ return c)
        × (is_ok e ≡ true → (react V c.events s').0 ≡ out ∷ [])
        × (is_ok e ≡ false → react V c.events s' ≡ ([], Stream.on_error V s'))
  unfolding react
  flush_end_delivers ws s k v ending none_left new fine =
      let window = flatten s.buffers in
      let (c, e) = returns-cases _ (complete_whole-returns (any_coder V) k window) in
      let (good, bad, err, free) = complete_whole (any_coder V) k window e in
      (
        queued_on V window true (record s { force_flush = false; nread = 0; buffers = [] }),
        c,
        flush_end_lem V ws s v ending none_left,
        rw new e,
        λ h. rw (good h, fine),
        λ h. rw (bad h),
      )
