-- ===== src/Js/Stream/Flushing.antt =====
-- `flush` and `_flush`: what is still in the buffers goes to the native object.
use node_vcdiff.Base.{
  flatten, flatten-append, Bool, true, false, some, [], ◌++◌, Bytes, ◌≡◌, arith, append-nil, ◌+◌,
  ◌∷◌, ◌&&◌, ◌||◌, ◌==◌, leb, if◌then◌else◌, Bool-cases, inl, inr, is_some, length, ap, ◌∙◌,
}
use node_vcdiff.Codec.OpenVcdiff.{OpenVcdiff}
use node_vcdiff.Ctx.Defs.{queued}
use node_vcdiff.Ctx.Write.{write}
use node_vcdiff.Ctx.Calls.{exec}
use node_vcdiff.Js.Options.{Vcdiff}
use node_vcdiff.Js.Outcome.{returned}
use node_vcdiff.Js.Stream.{
  WritableState, accepted, write_empty, transform, flush, flush_end, buffer_chunk, submit,
  process_chunk, concat,
}
use node_vcdiff.Js.Stream.Buffering.{IsCounted, concat-all}
use node_vcdiff.Js.Stream.Closing.{IsSound}

module _ (V : OpenVcdiff) where
  -- The stream can take a chunk: it is open, with its handle, and no write is in progress.
  pub record IsReady (s : Vcdiff V) : Type 0 where
    pub sound : IsSound V s
    pub open_still : s.closed ≡ false
    pub attached : s.attached ≡ true
    pub free : s.ctx.write_in_progress ≡ false
    pub counted : IsCounted V s

  -- The stream once a window is in the queue of the thread pool.
  abbrev pub queued_on : Bytes → Bool → Vcdiff V → Vcdiff V
  queued_on window is_last s = record s {
    ctx = record s.ctx {
      write_in_progress = true;
      in_buffer = some window;
      work = queued (record { chunk = window; is_last = is_last });
    };
  }

  pub submit-queued :
      (window : Bytes) (is_last : Bool) (s : Vcdiff V)
      → s.closed ≡ false
      → s.attached ≡ true
      → is_some s.ctx.coder ≡ true
      → s.ctx.write_in_progress ≡ false
      → s.ctx.pending_close ≡ false
      → submit V is_last (some window, s) ≡ returned (some window, queued_on window is_last s)
  unfolding submit exec write
  submit-queued window is_last s open_still held alive free clear = ground arith

  all_buffers :
      (s : Vcdiff V)
      → IsCounted V s
      → concat (s.buffers ++ [] ∷ []) (s.nread + 0) ≡ flatten s.buffers
  all_buffers s counted =
      let n : s.nread + 0 ≡ length (flatten (s.buffers ++ [] ∷ [])) =
        rw (flatten-append, append-nil) (omega (arith, counted)) in
      rw (concat-all (s.buffers ++ [] ∷ []) (s.nread + 0) n, flatten-append, append-nil)

  buffer_empty :
      (s : Vcdiff V)
      → IsCounted V s
      → buffer_chunk V [] true s ≡ (some (flatten s.buffers), record s { nread = 0; buffers = [] })
  unfolding buffer_chunk
  buffer_empty s counted = ground (arith, all_buffers s counted)

  process_empty :
      (is_last : Bool) (s : Vcdiff V)
      → IsReady s
      → process_chunk V [] is_last true s
        ≡ returned (
          some (flatten s.buffers),
          queued_on (flatten s.buffers) is_last (record s { nread = 0; buffers = [] }),
        )
  unfolding process_chunk
  process_empty is_last s v =
      ap (submit V is_last) (buffer_empty s v.counted)
      ∙ submit-queued (flatten s.buffers) is_last (record s { nread = 0; buffers = [] })
          v.open_still v.attached (v.sound.alive v.open_still) v.free
          (v.sound.not_pending v.open_still)

  IsReady-forced : (b : Bool) (s : Vcdiff V) → IsReady s → IsReady (record s { force_flush = b })
  IsReady-forced b s v = record {
    sound = record { alive = v.sound.alive; not_pending = v.sound.not_pending };
    open_still = v.open_still;
    attached = v.attached;
    free = v.free;
    counted = v.counted;
  }

  -- `_flush`, which node calls when all chunks went through `_transform`, hands everything that is
  -- still buffered to the native object, as the last chunk, and leaves the buffers empty.
  pub flush_end_lem :
      (ws : WritableState) (s : Vcdiff V)
      → IsReady s
      → ws.ending ≡ true
      → ws.length ≡ 0
      → flush_end V ws s
        ≡ returned (
            accepted (some (flatten s.buffers)) (
              queued_on
                (flatten s.buffers)
                true
                (record s { force_flush = false; nread = 0; buffers = [] })))
  unfolding flush_end transform
  flush_end_lem ws s v ending none_left =
      let s' = record s { force_flush = false } in
      rw (ending, none_left, process_empty true s' (IsReady-forced false s v), v.open_still)

  -- Once the stream is asked to `flush`, not ending and with no need to drain, it writes an empty chunk.
  -- When that comes to `_transform`, whatever chunks came before it, the stream, if it can take a chunk,
  -- hands everything that is still buffered to the native object and leaves the buffers empty.
  pub flush_hands_on :
      (ws ws' : WritableState) (s s' : Vcdiff V)
      → IsReady s'
      → ws.ended ≡ false
      → ws.ending ≡ false
      → ws.need_drain ≡ false
      → let window = flatten s'.buffers in
        let force = if leb ws'.length 0 then false else s'.force_flush in
        ((flush V ws s).0 ≡ write_empty)
        × (transform V ws' [] true s'
            ≡ returned (
                accepted (some window) (
                  queued_on window
                    ((ws'.ending || ws'.ended) && ws'.length == 0)
                    (record s' { force_flush = force; nread = 0; buffers = [] }))))
  unfolding flush transform
  flush_hands_on ws ws' s s' v open_still not_ending drained = (
    ground arith,
    (let last = (ws'.ending || ws'.ended) && ws'.length == 0 in
        let forced : (s'.force_flush || true) ≡ true = ground arith in
        elim (Bool-cases (leb ws'.length 0)) [
          | inl all ↦
              let sent =
                process_empty last (record s' { force_flush = false })
                  (IsReady-forced false s' v) in
              rw (all, forced, sent, v.open_still)
          | inr some_left ↦ rw (some_left, forced, process_empty last s' v, v.open_still)
        ]),
  )
