-- ===== src/Js/Events/Counts.antt =====
-- Where each callback is that a stream was given, and how often 'close' is emitted.
use node_vcdiff.Base.{
  ℕ, suc, ◌+◌, Option, none, some, List, [], ◌∷◌, ◌++◌, ◌≡◌, refl, ap, ◌∙◌, ◌==◌, arith,
  if◌then◌else◌, inl, inr,
}
use node_vcdiff.Codec.OpenVcdiff.{OpenVcdiff}
use node_vcdiff.Js.Options.{Vcdiff}
use node_vcdiff.Js.Outcome.{Outcome, returned, threw, aborted, >>=-eq-returned, returned_inj}
use node_vcdiff.Js.Stream.{
  WritableState, FlushAction, call_back, await_end, await_drain, write_empty, close, flush,
}
use node_vcdiff.Js.Events.{
  Task, run_callback, emit_close, Listener, close_stream, end_callback, numbers, Events,
  make_events, next_tick, closing, close_with, flushing, flush_with, run_task, write_done, drain,
  emit_end, EventsReach, start, js_close, js_flush, ticked, drained, written, ended, fed, reacted,
}
use node_vcdiff.Js.Events.Cases.{close_with-cases}

-- How often `n` stands in a list.
abbrev pub count : ℕ → List ℕ → ℕ
count n [] = 0
count n (x ∷ l) = if x == n then suc (count n l) else count n l

abbrev pub of_ticks : List Task → List ℕ
of_ticks [] = []
of_ticks (run_callback n ∷ l) = n ∷ of_ticks l
of_ticks (emit_close ∷ l) = of_ticks l

abbrev pub of_listeners : List Listener → List ℕ
of_listeners [] = []
of_listeners (close_stream ∷ l) = of_listeners l
of_listeners (end_callback n ∷ l) = n ∷ of_listeners l

count-append : (n : ℕ) (xs ys : List ℕ) → count n (xs ++ ys) ≡ count n xs + count n ys
count-append n [] ys = omega arith
count-append n (x ∷ xs) ys = ground (arith, count-append n xs ys)

count-ticks :
    (n : ℕ) (l : List Task) (t : Task)
    → count n (of_ticks (l ++ t ∷ [])) ≡ count n (of_ticks l) + count n (of_ticks (t ∷ []))
count-ticks n [] t = omega arith
count-ticks n (run_callback m ∷ l) t = ground (arith, count-ticks n l t)
count-ticks n (emit_close ∷ l) t = count-ticks n l t

count-listeners :
    (n : ℕ) (l : List Listener) (m : ℕ)
    → count n (of_listeners (l ++ end_callback m ∷ []))
      ≡ count n (of_listeners l) + count n (m ∷ [])
count-listeners n [] m = omega arith
count-listeners n (close_stream ∷ l) m = count-listeners n l m
count-listeners n (end_callback k ∷ l) m = ground (arith, count-listeners n l m)

count-numbers :
    (n : ℕ) (l : List (Option ℕ)) (c : Option ℕ)
    → count n (numbers (l ++ c ∷ [])) ≡ count n (numbers l) + count n (numbers (c ∷ []))
count-numbers n [] c = omega arith
count-numbers n (none ∷ l) c = count-numbers n l c
count-numbers n (some m ∷ l) c = ground (arith, count-numbers n l c)

module _ (V : OpenVcdiff) (n : ℕ) where
  -- How often `n` waits to be called, and how often it waits or was called.
  abbrev pub waiting : Events V → ℕ
  waiting w =
      count n (of_ticks w.ticks)
      + count n (of_listeners w.on_end)
      + count n (numbers w.on_drain)
      + count n (numbers w.writes)

  abbrev pub tally : Events V → ℕ
  tally w = count n w.called + waiting w

  abbrev of_one : Option ℕ → ℕ
  of_one c = count n (numbers (c ∷ []))

  next_tick-tally : (c : Option ℕ) (w : Events V) → tally (next_tick V c w) ≡ tally w + of_one c
  next_tick-tally none w = omega arith
  next_tick-tally (some m) w = omega (arith, count-ticks n w.ticks (run_callback m))

  closing-tally : (o : Outcome (Vcdiff V)) (w : Events V) → tally (closing V o w).1 ≡ tally w
  closing-tally (returned s) w = omega (arith, count-ticks n w.ticks emit_close)
  closing-tally (threw e) w = refl
  closing-tally (aborted e) w = refl

  close_with-tally : (c : Option ℕ) (w : Events V) → tally (close_with V c w).1 ≡ tally w + of_one c
  close_with-tally c w = elim (close_with-cases V c w) [
    | inl (shut, same) ↦ ap (λ x. tally x.1) same ∙ next_tick-tally c w
    | inr (opened, same) ↦
        ap (λ x. tally x.1) same
        ∙ closing-tally (close V w.stream) (next_tick V c w)
        ∙ next_tick-tally c w
  ]

  flushing-tally :
      (a : FlushAction) (c : Option ℕ) (w : Events V)
      → tally (flushing V a c w) ≡ tally w + of_one c
  flushing-tally call_back c w = next_tick-tally c w
  flushing-tally await_end none w = omega arith
  flushing-tally await_end (some m) w = omega (arith, count-listeners n w.on_end m)
  flushing-tally await_drain c w = omega (arith, count-numbers n w.on_drain c)
  flushing-tally write_empty c w = omega (arith, count-numbers n w.writes c)

  flush_with-tally :
      (ws : WritableState) (c : Option ℕ) (w : Events V)
      → tally (flush_with V ws c w) ≡ tally w + of_one c
  unfolding flush_with
  flush_with-tally ws c w =
      flushing-tally (flush V ws w.stream).0 c (record w { stream = (flush V ws w.stream).1 })

  numbers-count :
      (c : Option ℕ) (l : List (Option ℕ))
      → count n (numbers (c ∷ l)) ≡ of_one c + count n (numbers l)
  numbers-count none l = omega arith
  numbers-count (some m) l = ground arith

  drain-tally :
      (ws : WritableState) (l : List (Option ℕ)) (w : Events V)
      → tally (drain V ws l w) ≡ tally w + count n (numbers l)
  unfolding drain
  drain-tally ws [] w = omega arith
  drain-tally ws (c ∷ l) w =
      omega
        (arith, drain-tally ws l (flush_with V ws c w), flush_with-tally ws c w, numbers-count c l)

  called-tally :
      (m : ℕ) (w : Events V)
      → tally (record w { called = w.called ++ m ∷ [] }) ≡ tally w + count n (m ∷ [])
  called-tally m w = omega (arith, count-append n w.called (m ∷ []))

  emit_end-tally :
      (l : List Listener) (w w' : Events V)
      → emit_end V l w ≡ returned w'
      → tally w' ≡ tally w + count n (of_listeners l)
  unfolding emit_end
  emit_end-tally [] w w' e = let same : w ≡ w' = returned_inj e in omega (arith, ap tally same)
  emit_end-tally (close_stream ∷ l) w w' e =
      let (done, e1, e2) = >>=-eq-returned (close_with V none w).0 _ e in
      omega (arith, emit_end-tally l (close_with V none w).1 w' e2, close_with-tally none w)
  emit_end-tally (end_callback m ∷ l) w w' e =
      let w1 = record w { called = w.called ++ m ∷ [] } in
      omega (
        arith,
        emit_end-tally l w1 w' e,
        called-tally m w,
        count-append n (m ∷ []) (of_listeners l),
      )

  run_task-tally :
      (t : Task) (rest : List Task) (w : Events V)
      → w.ticks ≡ t ∷ rest
      → tally (run_task V t (record w { ticks = rest })) ≡ tally w
  run_task-tally (run_callback m) rest w e = omega (
    arith,
    called-tally m (record w { ticks = rest }),
    ap (λ l. count n (of_ticks l)) e,
    count-append n (m ∷ []) (of_ticks rest),
  )
  run_task-tally emit_close rest w e = omega (arith, ap (λ l. count n (of_ticks l)) e)

  write_done-tally :
      (c : Option ℕ) (rest : List (Option ℕ)) (w : Events V)
      → w.writes ≡ c ∷ rest
      → tally (write_done V c (record w { writes = rest })) ≡ tally w
  write_done-tally none rest w e = omega (arith, ap (λ l. count n (numbers l)) e)
  write_done-tally (some m) rest w e = omega (
    arith,
    called-tally m (record w { writes = rest }),
    ap (λ l. count n (numbers l)) e,
    numbers-count (some m) rest,
  )

  -- No callback is lost or called twice: whatever happens to a stream, each callback that `close` and
  -- `flush` were given was called, or waits in the queue of `process.nextTick`, for 'end', for 'drain'
  -- or for its empty chunk, as often in all as it was given.
  pub callbacks_kept :
      (s : Vcdiff V) (given : List ℕ) (w : Events V)
      → EventsReach V s given w
      → count n w.called + waiting w ≡ count n given
  unfolding make_events
  callbacks_kept s given w (start opened) = omega arith
  callbacks_kept s _ _ (js_close {given} {w} c r) = omega (
    arith,
    callbacks_kept s given w r,
    close_with-tally c w,
    count-append n given (numbers (c ∷ [])),
  )
  callbacks_kept s _ _ (js_flush {given} {w} ws c r) = omega (
    arith,
    callbacks_kept s given w r,
    flush_with-tally ws c w,
    count-append n given (numbers (c ∷ [])),
  )
  callbacks_kept s given _ (ticked {w} t rest r e) =
      run_task-tally t rest w e ∙ callbacks_kept s given w r
  callbacks_kept s given _ (drained {w} ws r) =
      omega
        (arith, callbacks_kept s given w r, drain-tally ws w.on_drain (record w { on_drain = [] }))
  callbacks_kept s given _ (written {w} c rest r e) =
      write_done-tally c rest w e ∙ callbacks_kept s given w r
  callbacks_kept s given w' (ended {w} r e) =
      omega
        (arith, callbacks_kept s given w r, emit_end-tally w.on_end (record w { on_end = [] }) w' e)
  callbacks_kept s given _ (fed {w} item window s' r e) = callbacks_kept s given w r
  callbacks_kept s given _ (reacted {w} events c r) = callbacks_kept s given w r
