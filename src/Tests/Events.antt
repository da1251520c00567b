-- ===== src/Tests/Events.antt =====
-- Callbacks of `flush` and `close`, and the events of a stream.
use node_vcdiff.Base.{◌+◌, true, false, some, [], ◌∷◌, ◌≡◌, refl}
use node_vcdiff.Js.Outcome.{returned}
use node_vcdiff.Js.Stream.{WritableState}
use node_vcdiff.Js.Events.{
  Events, make_events, close_with, flush_with, write_done, drain, emit_end, EventsReach, start,
  js_close, js_flush, drained, written,
}
use node_vcdiff.Js.Events.Counts.{count, waiting, callbacks_kept}
use node_vcdiff.Js.Events.Closes.{IsOnce, emitted, close_event-IsOnce}
use node_vcdiff.Js.Events.End.{end_closes}
use node_vcdiff.Tests.Streams.{stream}
use node_vcdiff.Tests.Toy.{toy}

abbrev full : WritableState
full = record { ended = false; ending = false; need_drain = true; length = 9 }

abbrev drained_state : WritableState
drained_state = record { ended = false; ending = false; need_drain = false; length = 0 }

abbrev ending : WritableState
ending = record { ended = false; ending = true; need_drain = false; length = 0 }

-- The first `flush` waits for 'drain' and then for its empty chunk, which is through. The second
-- waits for 'end', and `close` has a callback of its own.
abbrev flushed : Events toy
flushed = flush_with toy full (some 1) (make_events toy stream)

abbrev drain_seen : Events toy
drain_seen = drain toy drained_state (some 1 ∷ []) (record flushed { on_drain = [] })

abbrev written_through : Events toy
written_through = write_done toy (some 1) (record drain_seen { writes = [] })

abbrev asked_twice : Events toy
asked_twice = flush_with toy ending (some 2) written_through

abbrev closed_early : Events toy
closed_early = (close_with toy (some 3) asked_twice).1

reach_asked_twice : EventsReach toy stream (1 ∷ 2 ∷ []) asked_twice
unfolding make_events flush_with drain
reach_asked_twice =
    let r1 = js_flush full (some 1) (start refl) in
    let r2 = drained drained_state r1 in
    let r3 = written (some 1) [] r2 refl in js_flush ending (some 2) r3

reach_closed_early : EventsReach toy stream (1 ∷ 2 ∷ 3 ∷ []) closed_early
reach_closed_early = js_close (some 3) reach_asked_twice

callbacks_kept_example :
    count 2 closed_early.called + waiting toy 2 closed_early ≡ count 2 (1 ∷ 2 ∷ 3 ∷ [])
callbacks_kept_example =
    callbacks_kept toy 2 stream (1 ∷ 2 ∷ 3 ∷ []) closed_early reach_closed_early

close_event-IsOnce_example : IsOnce toy closed_early.stream (emitted toy closed_early)
close_event-IsOnce_example =
    close_event-IsOnce toy stream (1 ∷ 2 ∷ 3 ∷ []) closed_early reach_closed_early

asked_twice-attached : asked_twice.stream.attached ≡ true
unfolding make_events flush_with drain
asked_twice-attached = refl

end_closes_example :
    (w' : Events toy) × (emit_end toy asked_twice.on_end (record asked_twice { on_end = [] })
      ≡ returned w')
    × (w'.stream.closed ≡ true)
    × (emitted toy w' ≡ 1)
    × (w'.on_end ≡ [])
end_closes_example =
    end_closes toy stream (1 ∷ 2 ∷ []) asked_twice reach_asked_twice asked_twice-attached
