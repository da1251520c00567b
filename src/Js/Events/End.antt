-- ===== src/Js/Events/End.antt =====
-- What the event 'end' does to a stream.
use node_vcdiff.Base.{
  ℕ, Bool, true, false, Option, none, some, List, [], ◌∷◌, ◌++◌, ◌≡◌, ◌⊎◌, inl, inr, refl, sym, ap,
  subst, ◌∙◌, arith,
}
use node_vcdiff.Codec.OpenVcdiff.{OpenVcdiff}
use node_vcdiff.Js.Options.{Vcdiff}
use node_vcdiff.Js.Outcome.{Outcome, returned, threw, aborted, >>=-eq-returned, returned_inj, ◌>>=◌}
use node_vcdiff.Js.Stream.{
  WritableState, FlushAction, call_back, await_end, await_drain, write_empty, close, flush,
}
use node_vcdiff.Js.Turn.{react}
use node_vcdiff.Js.Events.{
  run_callback, emit_close, Listener, close_stream, end_callback, Events, make_events, next_tick,
  closing, close_with, flushing, flush_with, drain, emit_end, EventsReach, start, js_close,
  js_flush, ticked, drained, written, ended, fed, reacted,
}
use node_vcdiff.Js.Events.Closes.{emitted, close_event-IsOnce, close-held}
use node_vcdiff.Js.Events.Fed.{flush-same, feed-Same, react-Same}
use node_vcdiff.Js.Events.Cases.{close_with-cases, next_tick-stream}

abbrev has_close : List Listener → Bool
has_close [] = false
has_close (close_stream ∷ l) = true
has_close (end_callback n ∷ l) = has_close l

has_close-append : (l : List Listener) (n : ℕ) → has_close (l ++ end_callback n ∷ []) ≡ has_close l
has_close-append [] n = refl
has_close-append (close_stream ∷ l) n = refl
has_close-append (end_callback m ∷ l) n = has_close-append l n

module _ (V : OpenVcdiff) where
  -- The stream is closed, or 'end' will close it.
  abbrev WillClose : Events V → Type 0
  WillClose w = (has_close w.on_end ≡ true) ⊎ (w.stream.closed ≡ true)

  WillClose-moved :
      (w w' : Events V)
      → has_close w'.on_end ≡ has_close w.on_end
      → (w.stream.closed ≡ true → w'.stream.closed ≡ true)
      → WillClose w
      → WillClose w'
  WillClose-moved w w' same on (inl h) = inl (same ∙ h)
  WillClose-moved w w' same on (inr h) = inr (on h)

  next_tick-on_end : (c : Option ℕ) (w : Events V) → (next_tick V c w).on_end ≡ w.on_end
  next_tick-on_end none w = refl
  next_tick-on_end (some n) w = refl

  closing-closed :
      (w : Events V)
      → w.stream.closed ≡ false
      → (closing V (close V w.stream) w).1.stream.closed ≡ true
  unfolding close
  closing-closed w opened = ground arith

  closing-on_end : (o : Outcome (Vcdiff V)) (w : Events V) → (closing V o w).1.on_end ≡ w.on_end
  closing-on_end (returned s) w = refl
  closing-on_end (threw e) w = refl
  closing-on_end (aborted e) w = refl

  -- `close` closes, also where it throws.
  close_with-closed : (c : Option ℕ) (w : Events V) → (close_with V c w).1.stream.closed ≡ true
  close_with-closed c w =
      let same = next_tick-stream V c w in
      elim (close_with-cases V c w) [
        | inl (shut, e) ↦ ap (λ x. x.1.stream.closed) e ∙ ap (λ s. s.closed) same ∙ shut
        | inr (opened, e) ↦
            ap (λ x. x.1.stream.closed) e
            ∙ subst (λ s. (closing V (close V s) (next_tick V c w)).1.stream.closed ≡ true) same
                (closing-closed (next_tick V c w) (ap (λ s. s.closed) same ∙ opened))
      ]

  close_with-on_end : (c : Option ℕ) (w : Events V) → (close_with V c w).1.on_end ≡ w.on_end
  close_with-on_end c w = elim (close_with-cases V c w) [
    | inl (shut, e) ↦ ap (λ x. x.1.on_end) e ∙ next_tick-on_end c w
    | inr (opened, e) ↦
        ap (λ x. x.1.on_end) e
        ∙ closing-on_end (close V w.stream) (next_tick V c w)
        ∙ next_tick-on_end c w
  ]

  flushing-WillClose :
      (a : FlushAction) (c : Option ℕ) (w : Events V) → WillClose w → WillClose (flushing V a c w)
  flushing-WillClose call_back none w v = v
  flushing-WillClose call_back (some n) w v = v
  flushing-WillClose await_end none w v = v
  flushing-WillClose await_end (some n) w v =
      WillClose-moved w (flushing V await_end (some n) w) (has_close-append w.on_end n) (λ h. h) v
  flushing-WillClose await_drain c w v = v
  flushing-WillClose write_empty c w v = v

  flush_with-WillClose :
      (ws : WritableState) (c : Option ℕ) (w : Events V)
      → WillClose w
      → WillClose (flush_with V ws c w)
  unfolding flush_with
  flush_with-WillClose ws c w v =
      let w' = record w { stream = (flush V ws w.stream).1 } in
      flushing-WillClose (flush V ws w.stream).0 c w'
        (WillClose-moved w w' refl (λ h. (flush-same V ws w.stream).0 ∙ h) v)

  drain-WillClose :
      (ws : WritableState) (l : List (Option ℕ)) (w : Events V)
      → WillClose w
      → WillClose (drain V ws l w)
  unfolding drain
  drain-WillClose ws [] w v = v
  drain-WillClose ws (c ∷ l) w v =
      drain-WillClose ws l (flush_with V ws c w) (flush_with-WillClose ws c w v)

  emit_end-closed :
      (l : List Listener) (w w' : Events V)
      → emit_end V l w ≡ returned w'
      → (has_close l ≡ true) ⊎ (w.stream.closed ≡ true)
      → w'.stream.closed ≡ true
  unfolding emit_end
  emit_end-closed [] w w' e (inl h) = cc
  emit_end-closed [] w w' e (inr h) = sym (ap (λ x. x.stream.closed) (returned_inj e)) ∙ h
  emit_end-closed (close_stream ∷ l) w w' e v =
      let (done, e1, e2) = >>=-eq-returned (close_with V none w).0 _ e in
      emit_end-closed l (close_with V none w).1 w' e2 (inr (close_with-closed none w))
  emit_end-closed (end_callback n ∷ l) w w' e (inl h) =
      emit_end-closed l (record w { called = w.called ++ n ∷ [] }) w' e (inl h)
  emit_end-closed (end_callback n ∷ l) w w' e (inr h) =
      emit_end-closed l (record w { called = w.called ++ n ∷ [] }) w' e (inr h)

  EventsReach-WillClose :
      (s : Vcdiff V) (given : List ℕ) (w : Events V) → EventsReach V s given w → WillClose w
  unfolding make_events
  EventsReach-WillClose s given w (start opened) = inl refl
  EventsReach-WillClose s _ _ (js_close {given} {w} c r) = inr (close_with-closed c w)
  EventsReach-WillClose s _ _ (js_flush {given} {w} ws c r) =
      flush_with-WillClose ws c w (EventsReach-WillClose s given w r)
  EventsReach-WillClose s given _ (ticked {w} (run_callback n) rest r e) =
      EventsReach-WillClose s given w r
  EventsReach-WillClose s given _ (ticked {w} emit_close rest r e) =
      EventsReach-WillClose s given w r
  EventsReach-WillClose s given _ (drained {w} ws r) =
      drain-WillClose ws w.on_drain (record w { on_drain = [] }) (EventsReach-WillClose s given w r)
  EventsReach-WillClose s given _ (written {w} none rest r e) = EventsReach-WillClose s given w r
  EventsReach-WillClose s given _ (written {w} (some n) rest r e) =
      EventsReach-WillClose s given w r
  EventsReach-WillClose s given w' (ended {w} r e) =
      inr (
        emit_end-closed w.on_end (record w { on_end = [] }) w' e
          (EventsReach-WillClose s given w r))
  EventsReach-WillClose s given _ (fed {w} item window s' r e) =
      WillClose-moved w (record w { stream = s' }) refl
        (λ h. (feed-Same V item w.stream s' window e).0 ∙ h) (EventsReach-WillClose s given w r)
  EventsReach-WillClose s given _ (reacted {w} events c r) =
      let s1 = record w.stream { ctx = c } in
      WillClose-moved w (record w { stream = (react V events s1).1 }) refl
        (λ h. (react-Same V events s1).0 ∙ h) (EventsReach-WillClose s given w r)

  -- With its handle, `close` of a stream throws nothing and leaves it its handle.
  close_with-attached :
      (w : Events V)
      → w.stream.attached ≡ true
      → ((close_with V none w).0 ≡ returned tt) × ((close_with V none w).1.stream.attached ≡ true)
  close_with-attached w held = elim (close_with-cases V none w) [
    | inl (shut, e) ↦ (ap (λ x. x.0) e, ap (λ x. x.1.stream.attached) e ∙ held)
    | inr (opened, e) ↦
        let done = e ∙ ap (λ o. closing V o w) (close-held V w.stream opened held) in
        (ap (λ x. x.0) done, ap (λ x. x.1.stream.attached) done ∙ held)
  ]

  emit_end-returns :
      (l : List Listener) (w : Events V)
      → w.stream.attached ≡ true
      → (w' : Events V) × (emit_end V l w ≡ returned w')
        × (w'.on_end ≡ w.on_end)
        × (w'.stream.attached ≡ true)
  unfolding emit_end
  emit_end-returns [] w held = (w, refl, refl, held)
  emit_end-returns (close_stream ∷ l) w held =
      let w1 = (close_with V none w).1 in
      let (goes, held1) = close_with-attached w held in
      let (w', e, same, held') = emit_end-returns l w1 held1 in
      (w', ap (λ o. o >>= λ _. emit_end V l w1) goes ∙ e, same ∙ close_with-on_end none w, held')
  emit_end-returns (end_callback n ∷ l) w held =
      emit_end-returns l (record w { called = w.called ++ n ∷ [] }) held

  -- In every history, 'end' of a stream that has its handle throws nothing and closes the stream,
  -- unless that is done, so that 'close' is emitted once, and no callback of `flush` waits for 'end'
  -- any more.
  pub end_closes :
      (s : Vcdiff V) (given : List ℕ) (w : Events V)
      → EventsReach V s given w
      → w.stream.attached ≡ true
      → (w' : Events V) × (emit_end V w.on_end (record w { on_end = [] }) ≡ returned w')
        × (w'.stream.closed ≡ true)
        × (emitted V w' ≡ 1)
        × (w'.on_end ≡ [])
  end_closes s given w r held =
      let w0 = record w { on_end = [] } in
      let (w', e, none_left, held') = emit_end-returns w.on_end w0 held in
      let shut = emit_end-closed w.on_end w0 w' e (EventsReach-WillClose s given w r) in
      let once = close_event-IsOnce V s given w' (ended r e) in
      (w', e, shut, once.shut shut held', none_left)
