-- ===== src/Js/Events/Closes.antt =====
-- How often 'close' is emitted.
use node_vcdiff.Base.{
  ℕ, suc, ◌+◌, ◌≤◌, true, false, Option, none, some, List, [], ◌∷◌, ◌++◌, ◌≡◌, refl, sym, ap, subst,
  ◌∙◌, arith, Bool-cases, inl, inr,
}
use node_vcdiff.Codec.OpenVcdiff.{OpenVcdiff}
use node_vcdiff.Ctx.Defs.{Ctx}
use node_vcdiff.Ctx.Defs
use node_vcdiff.Js.Options.{Vcdiff}
use node_vcdiff.Js.Outcome.{returned, threw, >>=-eq-returned, returned_inj, null_handle}
use node_vcdiff.Js.Stream.{
  WritableState, FlushAction, call_back, await_end, await_drain, write_empty, close, flush,
}
use node_vcdiff.Js.Turn.{react}
use node_vcdiff.Js.Events.{
  Task, run_callback, emit_close, Listener, close_stream, end_callback, Events, make_events,
  next_tick, closing, close_with, flushing, flush_with, run_task, write_done, drain, emit_end,
  EventsReach, start, js_close, js_flush, ticked, drained, ended, fed, reacted,
}
use node_vcdiff.Js.Events
use node_vcdiff.Js.Events.Fed.{flush-same, feed-Same, react-Same}
use node_vcdiff.Js.Events.Cases.{close_with-cases, next_tick-stream}

abbrev pub emissions : List Task → ℕ
emissions [] = 0
emissions (emit_close ∷ l) = suc (emissions l)
emissions (run_callback n ∷ l) = emissions l

emissions-append :
    (l : List Task) (t : Task) → emissions (l ++ t ∷ []) ≡ emissions l + emissions (t ∷ [])
emissions-append [] t = omega arith
emissions-append (emit_close ∷ l) t = omega (arith, emissions-append l t)
emissions-append (run_callback n ∷ l) t = emissions-append l t

module _ (V : OpenVcdiff) where
  -- How often 'close' was emitted or is about to be.
  abbrev pub emitted : Events V → ℕ
  emitted w = w.closes + emissions w.ticks

  -- `n` emissions of a stream: none before `close`, one after it, and none or one if `close` found no
  -- handle.
  pub record IsOnce (s : Vcdiff V) (n : ℕ) : Type 0 where
    pub opened : s.closed ≡ false → n ≡ 0
    pub shut : s.closed ≡ true → s.attached ≡ true → n ≡ 1
    pub most : n ≤ 1

  IsOnce-moved :
      (s s' : Vcdiff V) (n n' : ℕ)
      → s'.closed ≡ s.closed
      → (s'.attached ≡ true → s.attached ≡ true)
      → n' ≡ n
      → IsOnce s n
      → IsOnce s' n'
  IsOnce-moved s s' n n' same back e v = record {
    opened = λ h. e ∙ v.opened (sym same ∙ h);
    shut = λ h a. e ∙ v.shut (sym same ∙ h) (back a);
    most = omega (arith, e, v.most);
  }

  abbrev Once : Events V → Type 0
  Once w = IsOnce w.stream (emitted w)

  next_tick-emitted : (c : Option ℕ) (w : Events V) → emitted (next_tick V c w) ≡ emitted w
  next_tick-emitted none w = refl
  next_tick-emitted (some n) w = omega (arith, emissions-append w.ticks (run_callback n))

  next_tick-Once : (c : Option ℕ) (w : Events V) → Once w → Once (next_tick V c w)
  next_tick-Once none w v = v
  next_tick-Once (some n) w v =
      IsOnce-moved w.stream w.stream _ _ refl (λ h. h) (next_tick-emitted (some n) w) v

  pub close-held :
      (s : Vcdiff V)
      → s.closed ≡ false
      → s.attached ≡ true
      → close V s ≡ returned (record s { closed = true; ctx = Defs.close s.ctx })
  unfolding close
  close-held s opened held = ground arith

  close-lost :
      (s : Vcdiff V) → s.closed ≡ false → s.attached ≡ false → close V s ≡ threw null_handle
  unfolding close
  close-lost s opened lost = ground arith

  closing-Once :
      (w : Events V) → w.stream.closed ≡ false → Once w → Once (closing V (close V w.stream) w).1
  closing-Once w opened v = elim (Bool-cases w.stream.attached) [
    | inl held ↦
        subst (λ o. Once (closing V o w).1) (sym (close-held w.stream opened held))
          (record {
            opened = λ h. cc;
            shut = λ h a. omega (arith, v.opened opened, emissions-append w.ticks emit_close);
            most = omega (arith, v.opened opened, emissions-append w.ticks emit_close);
          })
    | inr lost ↦
        subst (λ o. Once (closing V o w).1) (sym (close-lost w.stream opened lost))
          (record { opened = λ h. cc; shut = λ h a. cc; most = v.most })
  ]

  close_with-Once : (c : Option ℕ) (w : Events V) → Once w → Once (close_with V c w).1
  close_with-Once c w v =
      let same = next_tick-stream V c w in
      let w' = next_tick V c w in
      let v' = next_tick-Once c w v in
      elim (close_with-cases V c w) [
        | inl (shut, e) ↦ subst (λ x. Once x.1) (sym e) v'
        | inr (opened, e) ↦
            subst (λ x. Once x.1) (sym e)
              (subst (λ s. Once (closing V (close V s) w').1) same
                (closing-Once w' (ap (λ s. s.closed) same ∙ opened) v'))
      ]

  flushing-Once : (a : FlushAction) (c : Option ℕ) (w : Events V) → Once w → Once (flushing V a c w)
  flushing-Once call_back c w v = next_tick-Once c w v
  flushing-Once await_end none w v = v
  flushing-Once await_end (some n) w v = v
  flushing-Once await_drain c w v = v
  flushing-Once write_empty c w v = v

  flush_with-Once :
      (ws : WritableState) (c : Option ℕ) (w : Events V) → Once w → Once (flush_with V ws c w)
  unfolding flush_with
  flush_with-Once ws c w v =
      let (closed, attached) = flush-same V ws w.stream in
      flushing-Once (flush V ws w.stream).0 c (record w { stream = (flush V ws w.stream).1 })
        (IsOnce-moved w.stream (flush V ws w.stream).1 _ _ closed (λ h. sym attached ∙ h) refl v)

  drain-Once :
      (ws : WritableState) (l : List (Option ℕ)) (w : Events V) → Once w → Once (drain V ws l w)
  unfolding drain
  drain-Once ws [] w v = v
  drain-Once ws (c ∷ l) w v = drain-Once ws l (flush_with V ws c w) (flush_with-Once ws c w v)

  emit_end-Once :
      (l : List Listener) (w w' : Events V) → Once w → emit_end V l w ≡ returned w' → Once w'
  unfolding emit_end
  emit_end-Once [] w w' v e = subst Once (returned_inj e) v
  emit_end-Once (close_stream ∷ l) w w' v e =
      let (done, e1, e2) = >>=-eq-returned (close_with V none w).0 _ e in
      emit_end-Once l (close_with V none w).1 w' (close_with-Once none w v) e2
  emit_end-Once (end_callback n ∷ l) w w' v e =
      emit_end-Once l (record w { called = w.called ++ n ∷ [] }) w' v e

  run_task-Once :
      (t : Task) (rest : List Task) (w : Events V)
      → w.ticks ≡ t ∷ rest
      → Once w
      → Once (run_task V t (record w { ticks = rest }))
  run_task-Once (run_callback n) rest w e v =
      IsOnce-moved w.stream w.stream _ _ refl (λ h. h) (omega (arith, ap emissions e)) v
  run_task-Once emit_close rest w e v =
      IsOnce-moved w.stream w.stream _ _ refl (λ h. h) (omega (arith, ap emissions e)) v

  write_done-Once : (c : Option ℕ) (w : Events V) → Once w → Once (write_done V c w)
  write_done-Once none w v = v
  write_done-Once (some n) w v = v

  -- 'close' is emitted once for a stream, however often it is closed, by the program, at its end or
  -- twice at once: in every history, never before `close`, once after it if the stream has its handle,
  -- and at most once if it lost it.
  pub close_event-IsOnce :
      (s : Vcdiff V) (given : List ℕ) (w : Events V)
      → EventsReach V s given w
      → IsOnce w.stream (emitted w)
  unfolding make_events
  close_event-IsOnce s given w (start opened) = record {
    opened = λ h. omega arith;
    shut = λ h a. cc;
    most = omega arith;
  }
  close_event-IsOnce s _ _ (js_close {given} {w} c r) =
      close_with-Once c w (close_event-IsOnce s given w r)
  close_event-IsOnce s _ _ (js_flush {given} {w} ws c r) =
      flush_with-Once ws c w (close_event-IsOnce s given w r)
  close_event-IsOnce s given _ (ticked {w} t rest r e) =
      run_task-Once t rest w e (close_event-IsOnce s given w r)
  close_event-IsOnce s given _ (drained {w} ws r) =
      drain-Once ws w.on_drain (record w { on_drain = [] }) (close_event-IsOnce s given w r)
  close_event-IsOnce s given _ (Events.written {w} c rest r e) =
      write_done-Once c (record w { writes = rest }) (close_event-IsOnce s given w r)
  close_event-IsOnce s given w' (ended {w} r e) =
      emit_end-Once w.on_end (record w { on_end = [] }) w' (close_event-IsOnce s given w r) e
  close_event-IsOnce s given _ (fed {w} item window s' r e) =
      let (closed, back) = feed-Same V item w.stream s' window e in
      IsOnce-moved w.stream s' _ _ closed back refl (close_event-IsOnce s given w r)
  close_event-IsOnce s given _ (reacted {w} events c r) =
      let s1 = record w.stream { ctx = c } in
      let (closed, back) = react-Same V events s1 in
      IsOnce-moved w.stream (react V events s1).1 _ _ closed back refl
        (close_event-IsOnce s given w r)
