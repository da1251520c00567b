-- ===== src/Js/Events.antt =====
-- The events of a stream and the callbacks that `close` and `flush` are given: `process.nextTick`,
-- `this.once` and `this.emit` of lib/vcdiff.js.
pub mod Cases
pub mod Fed
pub mod Counts
pub mod Closes
pub mod End
use node_vcdiff.Base.{
  ℕ, suc, true, false, Option, none, some, List, [], ◌∷◌, ◌++◌, Bytes, ◌≡◌, if◌then◌else◌,
}
use node_vcdiff.Codec.OpenVcdiff.{OpenVcdiff}
use node_vcdiff.Codec.Dispatch.{AnyCoder}
use node_vcdiff.Ctx.Defs.{Ctx, Event}
use node_vcdiff.Js.Options.{Vcdiff}
use node_vcdiff.Js.Outcome.{Outcome, returned, threw, aborted, ◌>>=◌}
use node_vcdiff.Js.Stream.{
  WritableState, FlushAction, call_back, await_end, await_drain, write_empty, accepted, close,
  flush,
}
use node_vcdiff.Js.Turn.{react}
use node_vcdiff.Js.Run.{Item, feed}

-- What `process.nextTick` is given: a callback, by its number, or the emission of 'close'.
pub data Task : Type 0 where
  run_callback : ℕ → Task
  emit_close : Task

-- The listeners of 'end': `this.close`, which the constructor puts there, and the callbacks of `flush`.
pub data Listener : Type 0 where
  close_stream : Listener
  end_callback : ℕ → Listener

-- The callbacks that are there.
abbrev pub numbers : List (Option ℕ) → List ℕ
numbers [] = []
numbers (none ∷ l) = numbers l
numbers (some n ∷ l) = n ∷ numbers l

module _ (V : OpenVcdiff) where
  -- A stream and what is to come of it: the queue of `process.nextTick`, the listeners of 'end' and of
  -- 'drain', and the callbacks of the empty chunks that it wrote to itself; and what came of it: the
  -- callbacks that were called, and how often 'close' was emitted.
  pub record Events : Type 0 where
    pub stream : Vcdiff V
    pub ticks : List Task
    pub on_end : List Listener
    pub on_drain : List (Option ℕ)
    pub writes : List (Option ℕ)
    pub called : List ℕ
    pub closes : ℕ

  -- A stream as the constructor leaves it.
  unfoldable pub make_events : Vcdiff V → Events
  make_events s = record {
    stream = s;
    ticks = [];
    on_end = close_stream ∷ [];
    on_drain = [];
    writes = [];
    called = [];
    closes = 0;
  }

  -- `if (callback) process.nextTick(callback);`
  abbrev pub next_tick : Option ℕ → Events → Events
  next_tick none w = w
  next_tick (some n) w = record w { ticks = w.ticks ++ run_callback n ∷ [] }

  -- `close` from the call on the handle. What it throws, it throws when `_closed` is set.
  abbrev pub closing : Outcome (Vcdiff V) → Events → Outcome (Unit {0}) × Events
  closing (returned s) w =
      (returned tt, record w { stream = s; ticks = w.ticks ++ emit_close ∷ [] })
  closing (threw e) w = (threw e, record w { stream = record w.stream { closed = true } })
  closing (aborted e) w = (aborted e, w)

  -- `close(callback)`: how it ends, and what it leaves.
  unfoldable pub close_with : Option ℕ → Events → Outcome (Unit {0}) × Events
  unfolding close
  close_with callback w =
      let w' = next_tick callback w in
      if w.stream.closed then (returned tt, w') else closing (close V w.stream) w'

  abbrev pub flushing : FlushAction → Option ℕ → Events → Events
  flushing call_back callback w = next_tick callback w
  flushing await_end none w = w
  flushing await_end (some n) w = record w { on_end = w.on_end ++ end_callback n ∷ [] }
  flushing await_drain callback w = record w { on_drain = w.on_drain ++ callback ∷ [] }
  flushing write_empty callback w = record w { writes = w.writes ++ callback ∷ [] }

  -- `flush(callback)`
  unfoldable pub flush_with : WritableState → Option ℕ → Events → Events
  unfolding flush
  flush_with ws callback w =
      let (action, s) = flush V ws w.stream in flushing action callback (record w { stream = s })

  -- The event loop takes the first task.
  abbrev pub run_task : Task → Events → Events
  run_task (run_callback n) w = record w { called = w.called ++ n ∷ [] }
  run_task emit_close w = record w { closes = suc w.closes }

  -- Node calls back for the oldest empty chunk.
  abbrev pub write_done : Option ℕ → Events → Events
  write_done none w = w
  write_done (some n) w = record w { called = w.called ++ n ∷ [] }

  -- The event 'drain', with the listeners that it had: each was taken off and calls `flush` again.
  unfoldable pub drain : WritableState → List (Option ℕ) → Events → Events
  unfolding flush_with
  drain ws [] w = w
  drain ws (callback ∷ rest) w = drain ws rest (flush_with ws callback w)

  -- The event 'end', with the listeners that it had. What a listener throws, no other gets to see.
  unfoldable pub emit_end : List Listener → Events → Outcome Events
  unfolding close_with
  emit_end [] w = returned w
  emit_end (close_stream ∷ rest) w =
      let (done, w') = close_with none w in done >>= λ _. emit_end rest w'
  emit_end (end_callback n ∷ rest) w = emit_end rest (record w { called = w.called ++ n ∷ [] })

  -- Histories of a stream, with the callbacks that it was given. What a callback does in turn comes
  -- after it.
  pub data EventsReach (s : Vcdiff V) : List ℕ → Events → Type 0 where
    start : s.closed ≡ false → EventsReach s [] (make_events s)
    js_close :
        {given : List ℕ} {w : Events} (callback : Option ℕ)
        → EventsReach s given w
        → EventsReach s (given ++ numbers (callback ∷ [])) (close_with callback w).1
    js_flush :
        {given : List ℕ} {w : Events} (ws : WritableState) (callback : Option ℕ)
        → EventsReach s given w
        → EventsReach s (given ++ numbers (callback ∷ [])) (flush_with ws callback w)
    ticked :
        {given : List ℕ} {w : Events} (task : Task) (rest : List Task)
        → EventsReach s given w
        → w.ticks ≡ task ∷ rest
        → EventsReach s given (run_task task (record w { ticks = rest }))
    drained :
        {given : List ℕ} {w : Events} (ws : WritableState)
        → EventsReach s given w
        → EventsReach s given (drain ws w.on_drain (record w { on_drain = [] }))
    written :
        {given : List ℕ} {w : Events} (callback : Option ℕ) (rest : List (Option ℕ))
        → EventsReach s given w
        → w.writes ≡ callback ∷ rest
        → EventsReach s given (write_done callback (record w { writes = rest }))
    ended :
        {given : List ℕ} {w w' : Events}
        → EventsReach s given w
        → emit_end w.on_end (record w { on_end = [] }) ≡ returned w'
        → EventsReach s given w'
    fed :
        {given : List ℕ} {w : Events} (item : Item) (window : Option Bytes) (s' : Vcdiff V)
        → EventsReach s given w
        → feed V item w.stream ≡ returned (accepted window s')
        → EventsReach s given (record w { stream = s' })
    reacted :
        {given : List ℕ} {w : Events} (events : List Event) (c : Ctx (AnyCoder V))
        → EventsReach s given w
        → EventsReach s given
            (record w { stream = (react V events (record w.stream { ctx = c })).1 })
