-- ===== src/Js/Collect/Laws.antt =====
-- When `vcdiffEncode` and `vcdiffDecode` call back, and with what.
use node_vcdiff.Base.{
  flatten, flatten-append, ◌+◌, Bool, true, false, List, [], ◌∷◌, ◌++◌, Bytes, length,
  length-append, append_assoc, append-nil, ◌≡◌, refl, arith, ◌||◌, if◌then◌else◌,
}
use node_vcdiff.Codec.OpenVcdiff.{OpenVcdiff}
use node_vcdiff.Ctx.Defs
use node_vcdiff.Js.Options.{Vcdiff}
use node_vcdiff.Js.Outcome.{Exception, returned, threw, null_handle, ◌>>=◌}
use node_vcdiff.Js.Stream.{close}
use node_vcdiff.Js.Stream as Stream
use node_vcdiff.Js.Stream.Buffering.{concat-all}
use node_vcdiff.Js.Collect.{
  failed, completed, Emitted, readable, error, end, Collector, flow, on_error, on_end, dispatch,
  dispatch_all, vcdiff_buffer,
}

-- The chunks of all reads, and the events that lead to them.
abbrev pub join : List (List Bytes) → List Bytes
join [] = []
join (chunks ∷ reads) = chunks ++ join reads

abbrev pub readings : List (List Bytes) → List Emitted
readings [] = []
readings (chunks ∷ reads) = readable chunks ∷ readings reads

abbrev pub only_reads : List Emitted → Bool
only_reads [] = true
only_reads (readable chunks ∷ events) = only_reads events
only_reads (_ ∷ events) = false

abbrev pub no_errors : List Emitted → Bool
no_errors [] = true
no_errors (error err ∷ events) = false
no_errors (_ ∷ events) = no_errors events

pub only_reads-no_errors :
    (events : List Emitted) → only_reads events ≡ true → no_errors events ≡ true
only_reads-no_errors [] h = refl
only_reads-no_errors (readable chunks ∷ events) h = only_reads-no_errors events h
only_reads-no_errors (end ∷ events) h = cc
only_reads-no_errors (error err ∷ events) h = cc

module _ (V : OpenVcdiff) where
  -- The collector once the chunks are read.
  abbrev having : List Bytes → Collector V → Collector V
  having chunks c = record c {
    readable_listener = true;
    buffers = c.buffers ++ chunks;
    nread = c.nread + length (flatten chunks);
  }

  having-having :
      (chunks more : List Bytes) (c : Collector V)
      → having more (having chunks c) ≡ having (chunks ++ more) c
  having-having chunks more c =
      let e : length (flatten (chunks ++ more)) ≡ length (flatten chunks) + length (flatten more) =
        rw (flatten-append, length-append) in
      let n : c.nread + length (flatten chunks) + length (flatten more)
          ≡ c.nread + length (flatten (chunks ++ more)) =
        omega (arith, e) in
      rw (n, append_assoc)

  flow-having : (chunks : List Bytes) (c : Collector V) → flow V chunks c ≡ having chunks c
  unfolding flow
  flow-having [] c = let z : c.nread + 0 ≡ c.nread = omega arith in rw (append-nil, z)
  flow-having (chunk ∷ chunks) c =
      let n : c.nread + length chunk + length (flatten chunks)
          ≡ c.nread + length (flatten (chunk ∷ chunks)) =
        omega (arith, length-append {0} chunk (flatten chunks)) in
      rw (flow-having chunks, n, append_assoc)

  having-nil : (c : Collector V) → c.readable_listener ≡ true → having [] c ≡ c
  having-nil c on = ground (arith, append-nil {0} c.buffers)

  -- Any number of reads comes to one.
  dispatch_all-readings :
      (reads : List (List Bytes)) (rest : List Emitted) (c : Collector V)
      → c.readable_listener ≡ true
      → dispatch_all V (readings reads ++ rest) c ≡ dispatch_all V rest (having (join reads) c)
  unfolding dispatch_all dispatch
  dispatch_all-readings [] rest c on = rw (having-nil c on)
  dispatch_all-readings (chunks ∷ reads) rest c on =
      rw (on, flow-having, dispatch_all-readings reads rest (having chunks c) refl, having-having)

  -- What the first `flow` leaves.
  new_collector : List Bytes → Vcdiff V → Collector V
  new_collector first s = having first (record {
    engine = s;
    buffers = [];
    nread = 0;
    end_listener = true;
    readable_listener = false;
    replies = [];
  })

  from_start :
      (first : List Bytes) (reads : List (List Bytes)) (rest : List Emitted) (s : Vcdiff V)
      → (vcdiff_buffer V true first s >>= dispatch_all V (readings reads ++ rest))
        ≡ dispatch_all V rest (having (join reads) (new_collector first s))
  unfolding vcdiff_buffer new_collector
  from_start first reads rest s =
      rw (flow-having, dispatch_all-readings reads rest (new_collector first s) refl)

  close_open :
      (s : Vcdiff V)
      → s.closed ≡ false
      → s.attached ≡ true
      → close V s ≡ returned (record s { closed = true; ctx = Defs.close s.ctx })
  unfolding close
  close_open s open_still held = ground arith

  -- `vcdiffBuffer` on an open stream that ends calls back once, with all that was read from the
  -- stream, in order and nothing else, and closes the stream.
  pub collect_completes :
      (first : List Bytes) (reads : List (List Bytes)) (s : Vcdiff V)
      → s.closed ≡ false
      → s.attached ≡ true
      → (c : Collector V) × ((vcdiff_buffer V true first s
            >>= dispatch_all V (readings reads ++ end ∷ []))
          ≡ returned c)
        × (c.replies ≡ completed (flatten (first ++ join reads)) ∷ [])
        × (c.engine.closed ≡ true)
  unfolding dispatch_all dispatch on_end new_collector
  collect_completes first reads s open_still held =
      let sum = length-append {0} (flatten first) (flatten (join reads)) in
      let n : 0 + length (flatten first) + length (flatten (join reads))
          ≡ length (flatten (first ++ join reads)) =
        rw flatten-append (omega (arith, sum)) in
      let all = concat-all (first ++ join reads) _ n in
      rw (from_start, on_end, close_open s open_still held, all) (_, refl, refl, refl)

  -- Without its listeners the collector stays as it is, but at 'end' the listener of the stream
  -- itself, `close`, throws if the stream was open.
  disconnected :
      (events : List Emitted) (c : Collector V)
      → no_errors events ≡ true
      → c.end_listener ≡ false
      → c.readable_listener ≡ false
      → c.engine.attached ≡ false
      → dispatch_all V events c
        ≡ (if c.engine.closed || only_reads events then returned c else threw null_handle)
  unfolding dispatch_all dispatch close
  disconnected [] c h e r lost = ground arith
  disconnected (readable chunks ∷ events) c h e r lost =
      ground (arith, disconnected events c h e r lost)
  disconnected (end ∷ events) c h e r lost = ground (arith, disconnected events c h e r lost)
  disconnected (error err ∷ events) c h e r lost = cc

  -- If the native object reports an error, `vcdiffBuffer` calls back once, with that error, however
  -- much was read before, and takes its listeners off: whatever events but a second error come
  -- afterwards, 'end' included, nothing more is read or called back. It does not call `close`, but the
  -- stream does at 'end', and that throws if the stream was open.
  pub collect_fails :
      (first : List Bytes) (reads : List (List Bytes)) (err : Exception) (later : List Emitted)
      (s : Vcdiff V)
      → no_errors later ≡ true
      → (c : Collector V) × ((vcdiff_buffer V true first s
            >>= dispatch_all V (readings reads ++ error err ∷ later))
          ≡ (if s.closed || only_reads later then returned c else threw null_handle))
        × (c.replies ≡ failed err ∷ [])
        × (c.buffers ≡ first ++ join reads)
        × (c.engine ≡ Stream.on_error V s)
  unfolding dispatch_all dispatch on_error new_collector Stream.on_error
  collect_fails first reads err later s quiet =
      let read = having (join reads) (new_collector first s) in
      let c = on_error V err (record read { engine = Stream.on_error V s }) in
      rw (from_start, disconnected later c quiet refl refl refl) (c, refl, refl, refl, refl)
