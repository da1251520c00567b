-- ===== src/Js/Run/Closing.antt =====
-- `close` of a stream while the thread pool has one of its windows.
use node_vcdiff.Base.{
  Bool, true, false, some, List, [], ◌∷◌, Bytes, ◌≡◌, refl, sym, ap, ◌∙◌, arith, if◌then◌else◌,
}
use node_vcdiff.Base.Run.{Run, return, abort, ◌>>=◌ as bind}
use node_vcdiff.Codec.{Coder}
use node_vcdiff.Codec.OpenVcdiff.{OpenVcdiff}
use node_vcdiff.Codec.Dispatch.{AnyCoder, any_coder}
use node_vcdiff.Ctx.Defs.{Ctx, Event, WorkData, callback}
use node_vcdiff.Ctx.Defs
use node_vcdiff.Ctx.Process.{process}
use node_vcdiff.Ctx.Pool.{process_shim-close_comm}
use node_vcdiff.Ctx.Write.{process_shim, after_shim, check_error, send_error, finish_write}
use node_vcdiff.Ctx.Calls.{no_js}
use node_vcdiff.Js.Options.{Vcdiff}
use node_vcdiff.Js.Outcome.{Outcome, returned, returned_inj, threw, aborted, native_call, ◌>>=◌}
use node_vcdiff.Js.Stream.{accepted, close, on_error}
use node_vcdiff.Js.Stream.Flushing.{IsReady, queued_on}
use node_vcdiff.Js.Turn.{react, complete}
use node_vcdiff.Js.Run.{run_work, resume}

module _ (C : Coder) where
  after_shim-close_comm :
      (c : Ctx C.State)
      → c.write_in_progress ≡ true
      → c.pending_close ≡ false
      → after_shim (no_js C) true (Defs.close c)
        ≡ bind (after_shim (no_js C) true c) (λ c'. return (Defs.close c'))
  unfolding after_shim check_error send_error finish_write Defs.close
  after_shim-close_comm c busy open_still = ground arith

  process_shim-flags :
      (w : WorkData) (c c' : Ctx C.State)
      → process_shim C w c ≡ return c'
      → (c'.write_in_progress ≡ c.write_in_progress) × (c'.pending_close ≡ c.pending_close)
  unfolding process_shim process
  process_shim-flags w c c' e = ground arith

  worked-close_comm :
      (m : Run (Ctx C.State))
      → ((c : Ctx C.State)
          → m ≡ return c
          → (c.write_in_progress ≡ true) × (c.pending_close ≡ false))
      → bind (bind m (λ c. return (Defs.close c))) (after_shim (no_js C) true)
        ≡ bind (bind m (after_shim (no_js C) true)) (λ c. return (Defs.close c))
  worked-close_comm (return c) h = after_shim-close_comm c (h c refl).0 (h c refl).1
  worked-close_comm (abort e) h = refl

  -- A close during an asynchronous write comes to the same as a close after it.
  complete-close_comm :
      (w : WorkData) (c : Ctx C.State)
      → c.write_in_progress ≡ true
      → c.pending_close ≡ false
      → complete C w (Defs.close c) ≡ bind (complete C w c) (λ c'. return (Defs.close c'))
  unfolding complete
  complete-close_comm w c busy open_still =
      ap (λ m. bind m (after_shim (no_js C) true)) (process_shim-close_comm C w c busy)
      ∙ worked-close_comm (process_shim C w c) (λ c' e.
        let (same, same') = process_shim-flags w c c' e in (same ∙ busy, same' ∙ open_still))

module _ (V : OpenVcdiff) where
  -- The stream marked as closed, with its native object closed.
  abbrev shut_down : Vcdiff V → Vcdiff V
  shut_down s = record s { closed = true; ctx = Defs.close s.ctx }

  react-shut_down :
      (events : List Event) (s : Vcdiff V)
      → react V events (shut_down s) ≡ ((react V events s).0, shut_down (react V events s).1)
  unfolding react on_error
  react-shut_down [] s = refl
  react-shut_down (Defs.on_error message errno ∷ events) s = react-shut_down events (on_error V s)
  react-shut_down (callback out finished ∷ events) s = ground (arith, react-shut_down events s)

  -- Neither the chunks that are pushed nor the stream tell when the context was closed.
  reacted-shut_down :
      (s : Vcdiff V) (c : Ctx (AnyCoder V))
      → let base = record s { ctx = record c { events = [] } } in
        react V
          (Defs.close c).events
          (record s { closed = true; ctx = record (Defs.close c) { events = [] } })
        ≡ ((react V c.events base).0, shut_down (react V c.events base).1)
  unfolding Defs.close
  reacted-shut_down s c =
      let base : Vcdiff V = record s { ctx = record c { events = [] } } in
      let heard : (Defs.close c).events ≡ c.events = ground arith in
      let moved : record s { closed = true; ctx = record (Defs.close c) { events = [] } }
          ≡ shut_down base =
        ground arith in
      ap (λ x. react V x (record s { closed = true; ctx = record (Defs.close c) { events = [] } }))
        heard
      ∙ ap (react V c.events) moved
      ∙ react-shut_down c.events base

  settled-shut_down :
      (s : Vcdiff V) (m : Run (Ctx (AnyCoder V)))
      → (native_call (bind m (λ c. return (Defs.close c))) >>= λ c.
          returned (react V c.events (record s { closed = true; ctx = record c { events = [] } })))
        ≡ ((native_call m >>= λ c.
              returned (react V c.events (record s { ctx = record c { events = [] } })))
            >>= λ (pushed, t). returned (pushed, shut_down t))
  settled-shut_down s (return c) = ap returned (reacted-shut_down s c)
  settled-shut_down s (abort e) = refl

  react-closed : (events : List Event) (s : Vcdiff V) → (react V events s).1.closed ≡ s.closed
  unfolding react on_error
  react-closed [] s = refl
  react-closed (Defs.on_error message errno ∷ events) s = react-closed events (on_error V s)
  react-closed (callback out finished ∷ events) s = ground (arith, react-closed events s)

  -- `close` of the stream, where it has its handle. A stream that met an error has lost it, and then
  -- `close` would throw: instead it is marked as closed and its native object is closed.
  abbrev pub close_even_lost : Vcdiff V → Outcome (Vcdiff V)
  close_even_lost s = if s.attached then close V s else returned (shut_down s)

  closed_after : (s : Vcdiff V) → s.closed ≡ false → close_even_lost s ≡ returned (shut_down s)
  unfolding close
  closed_after s open_still = ground arith

  -- What a turn pushed, and the stream closed after it.
  abbrev pub then_close : List Bytes × Vcdiff V → Outcome (List Bytes × Vcdiff V)
  then_close (pushed, s) = close_even_lost s >>= λ s'. returned (pushed, s')

  abbrev just_shut_down : List Bytes × Vcdiff V → Outcome (List Bytes × Vcdiff V)
  just_shut_down (pushed, s) = returned (pushed, shut_down s)

  closed_after_all :
      (m : Outcome (List Bytes × Vcdiff V))
      → ((r : List Bytes × Vcdiff V) → m ≡ returned r → r.1.closed ≡ false)
      → (m >>= just_shut_down) ≡ (m >>= then_close)
  closed_after_all (returned (pushed, t)) h = rw (closed_after t (h (pushed, t) refl)) refl
  closed_after_all (threw e) h = refl
  closed_after_all (aborted e) h = refl

  settled-closed :
      (s : Vcdiff V) (m : Run (Ctx (AnyCoder V))) (r : List Bytes × Vcdiff V)
      → (native_call m >>= λ c.
          returned (react V c.events (record s { ctx = record c { events = [] } })))
        ≡ returned r
      → r.1.closed ≡ s.closed
  settled-closed s (return c) r e =
      ap (λ r. r.1.closed) (sym (returned_inj e))
      ∙ react-closed c.events (record s { ctx = record c { events = [] } })
  settled-closed s (abort x) r e = cc

  -- A stream that is closed while the thread pool has one of its windows pushes the same chunks and
  -- meets the same error as one that is not closed. If the window meets no error, it is left in the
  -- same state as by `close` when the window is through. If it meets one, where that `close` would
  -- throw, the stream is closed and its native object too.
  pub close_waits :
      (window : Bytes) (is_last : Bool) (s s' : Vcdiff V)
      → IsReady V s
      → close V (queued_on V window is_last s) ≡ returned s'
      → resume V (accepted (some window) s')
        ≡ (resume V (accepted (some window) (queued_on V window is_last s)) >>= then_close)
  unfolding close resume run_work Defs.close
  close_waits window is_last s s' v e =
      let q = queued_on V window is_last s in
      let w : WorkData = record { chunk = window; is_last = is_last } in
      let m = complete (any_coder V) w q.ctx in
      let same : shut_down q ≡ s' = ground (arith, v.open_still, v.attached) in
      ap (λ x. resume V (accepted (some window) x)) (sym same)
      ∙ ap
          (λ m'. native_call m' >>= λ c.
            returned
              (react V c.events (record q { closed = true; ctx = record c { events = [] } })))
          (complete-close_comm (any_coder V) w q.ctx refl (v.sound.not_pending v.open_still))
      ∙ settled-shut_down q m
      ∙ closed_after_all _ (λ r e'. settled-closed q m r e' ∙ v.open_still)
