-- ===== src/Js/Run/Feed.antt =====
-- How `_transform` and `_flush` of a stream that can take a chunk end: the chunk goes into the buffers,
-- and the window that comes of it, if any, into the queue of the thread pool.
use node_vcdiff.Base.{
  Bool, true, false, none, some, Option, is_some, [], ◌++◌, Bytes, flatten, length, leb, ◌==◌, ◌&&◌,
  ◌||◌, ◌≡◌, refl, ap, ◌∙◌, append-nil, if_false, arith, if◌then◌else◌,
}
use node_vcdiff.Codec.OpenVcdiff.{OpenVcdiff}
use node_vcdiff.Js.Options.{Vcdiff}
use node_vcdiff.Js.Outcome.{returned, ◌>>=◌}
use node_vcdiff.Js.Stream.{
  WritableState, Transformed, accepted, buffer_chunk, submit, process_chunk, transform, flush,
  flush_end,
}
use node_vcdiff.Js.Stream.Buffering.{IsCounted, bytes_of, buffer_chunk_lossless}
use node_vcdiff.Js.Stream.Flushing.{IsReady, queued_on, submit-queued}
use node_vcdiff.Js.Run.{Item, written, asked, flushed, feed}

abbrev pub bytes : Item → Bytes
bytes (written ws chunk) = chunk
bytes (asked ws) = []
bytes (flushed ws) = []

-- Whether the stream calls the item the last one.
abbrev pub is_last : Item → Bool
is_last (written ws chunk) = (ws.ending || ws.ended) && ws.length == length chunk
is_last (asked ws) = false
is_last (flushed ws) = (ws.ending || ws.ended) && ws.length == 0

module _ (V : OpenVcdiff) where
  abbrev cleared : Bool → Vcdiff V → Vcdiff V
  cleared b s = if b then record s { force_flush = false } else s

  -- The buffers after an item, and the window that is due.
  abbrev pub entered : Item → Vcdiff V → Option Bytes × Vcdiff V
  entered (written ws chunk) s =
      buffer_chunk V chunk (s.force_flush || length chunk == 0)
        (cleared (leb ws.length (length chunk)) s)
  entered (asked ws) s = (none, (flush V ws s).1)
  entered (flushed ws) s =
      buffer_chunk V [] true (cleared (leb ws.length 0) (record s { force_flush = true }))

  abbrev submitted : Bool → Option Bytes × Vcdiff V → Option Bytes × Vcdiff V
  submitted last (none, s) = (none, s)
  submitted last (some window, s) = (some window, queued_on V window last s)

  abbrev pub handed : Bool → Option Bytes × Vcdiff V → Transformed V
  handed last (none, s) = accepted none s
  handed last (some window, s) = accepted (some window) (queued_on V window last s)

  -- All but the buffers stays.
  pub record SameHandle (s s' : Vcdiff V) : Type 0 where
    pub ctx : s'.ctx ≡ s.ctx
    pub closed : s'.closed ≡ s.closed
    pub attached : s'.attached ≡ s.attached
    pub had_error : s'.had_error ≡ s.had_error

  buffer_chunk-SameHandle :
      (chunk : Bytes) (force : Bool) (s : Vcdiff V) → SameHandle s (buffer_chunk V chunk force s).1
  unfolding buffer_chunk
  buffer_chunk-SameHandle chunk force s = ground arith

  SameHandle-IsReady :
      (s s' : Vcdiff V) → SameHandle s s' → IsCounted V s' → IsReady V s → IsReady V s'
  SameHandle-IsReady s s' h counted v = record {
    sound = record {
      alive = λ e. rw h.ctx (v.sound.alive v.open_still);
      not_pending = λ e. rw h.ctx (v.sound.not_pending v.open_still);
    };
    open_still = h.closed ∙ v.open_still;
    attached = h.attached ∙ v.attached;
    free = rw h.ctx v.free;
    counted = counted;
  }

  submit-submitted :
      (last : Bool) (p : Option Bytes × Vcdiff V)
      → IsReady V p.1
      → submit V last p ≡ returned (submitted last p)
  unfolding submit
  submit-submitted last (none, s) v = refl
  submit-submitted last (some window, s) v =
      submit-queued V window last s v.open_still v.attached (v.sound.alive v.open_still) v.free
        (v.sound.not_pending v.open_still)

  buffer_chunk-IsReady :
      (chunk : Bytes) (force : Bool) (s : Vcdiff V)
      → IsReady V s
      → IsReady V (buffer_chunk V chunk force s).1
  buffer_chunk-IsReady chunk force s v =
      SameHandle-IsReady s _ (buffer_chunk-SameHandle chunk force s)
        (buffer_chunk_lossless V chunk force s v.counted).1 v

  process_chunk-submitted :
      (chunk : Bytes) (last force : Bool) (s : Vcdiff V)
      → IsReady V s
      → process_chunk V chunk last force s
        ≡ returned (submitted last (buffer_chunk V chunk force s))
  unfolding process_chunk
  process_chunk-submitted chunk last force s v =
      submit-submitted last (buffer_chunk V chunk force s) (buffer_chunk-IsReady chunk force s v)

  cleared-IsReady : (b : Bool) (s : Vcdiff V) → IsReady V s → IsReady V (cleared b s)
  cleared-IsReady true s v = SameHandle-IsReady s _ (ground arith) v.counted v
  cleared-IsReady false s v = v

  accepted-handed :
      (last : Bool) (p : Option Bytes × Vcdiff V)
      → (let (window, s) = submitted last p in accepted window s) ≡ handed last p
  accepted-handed last (none, s) = refl
  accepted-handed last (some window, s) = refl

  transform-handed :
      (ws : WritableState) (chunk : Bytes) (is_buffer : Bool) (s : Vcdiff V)
      → IsReady V s
      → transform V ws chunk is_buffer s
        ≡ returned (
            handed ((ws.ending || ws.ended) && ws.length == length chunk) (
              buffer_chunk V chunk
                (s.force_flush || (is_buffer && length chunk == 0))
                (cleared (leb ws.length (length chunk)) s)))
  unfolding transform
  transform-handed ws chunk is_buffer s v =
      let last = (ws.ending || ws.ended) && ws.length == length chunk in
      let force = s.force_flush || (is_buffer && length chunk == 0) in
      let s' = cleared (leb ws.length (length chunk)) s in
      let e = process_chunk-submitted chunk last force s' (cleared-IsReady _ s v) in
      if_false _ _ v.open_still
      ∙ ap (λ m. m >>= λ (window, s''). returned (accepted window s'')) e
      ∙ ap returned (accepted-handed last (buffer_chunk V chunk force s'))

  -- A stream that can take a chunk takes it: no assertion fails and nothing is thrown.
  pub feed-handed :
      (item : Item) (s : Vcdiff V)
      → IsReady V s
      → feed V item s ≡ returned (handed (is_last item) (entered item s))
  unfolding feed flush_end
  feed-handed (written ws chunk) s v = transform-handed ws chunk true s v
  feed-handed (asked ws) s v = refl
  feed-handed (flushed ws) s v =
      let s' = record s { force_flush = true } in
      transform-handed ws [] false s' (SameHandle-IsReady s s' (ground arith) v.counted v)

  -- What an item does to the buffers: nothing is lost, and a window takes all that was buffered.
  pub record Entered (item : Item) (s : Vcdiff V) (p : Option Bytes × Vcdiff V) : Type 0 where
    pub lossless : bytes_of p.0 ++ flatten p.1.buffers ≡ flatten s.buffers ++ bytes item
    pub emptied : is_some p.0 ≡ true → p.1.buffers ≡ []
    pub same : SameHandle s p.1
    pub ready : IsReady V p.1

  buffer_chunk-Entered :
      (item : Item) (force : Bool) (s s0 : Vcdiff V)
      → s0.buffers ≡ s.buffers
      → SameHandle s s0
      → IsReady V s0
      → Entered item s (buffer_chunk V (bytes item) force s0)
  unfolding buffer_chunk
  buffer_chunk-Entered item force s s0 buffers h v =
      let (kept, counted) = buffer_chunk_lossless V (bytes item) force s0 v.counted in
      let h' = buffer_chunk-SameHandle (bytes item) force s0 in
      record {
        lossless = rw (← buffers) kept;
        emptied = ground arith;
        same = ground (arith, h');
        ready = SameHandle-IsReady s0 _ h' counted v;
      }

  cleared-buffers : (b : Bool) (s : Vcdiff V) → (cleared b s).buffers ≡ s.buffers
  cleared-buffers b s = ground arith

  cleared-SameHandle : (b : Bool) (s : Vcdiff V) → SameHandle s (cleared b s)
  cleared-SameHandle b s = ground arith

  -- `flush` touches the buffers no more than the handle.
  flush-Entered :
      (ws : WritableState) (s : Vcdiff V)
      → IsReady V s
      → Entered (asked ws) s (none, (flush V ws s).1)
  unfolding flush
  flush-Entered ws s v =
      let h : SameHandle s (flush V ws s).1 = ground arith in
      record {
        lossless = ground (arith, append-nil (flatten s.buffers));
        emptied = λ e. cc;
        same = h;
        ready = SameHandle-IsReady s _ h (ground (arith, v.counted)) v;
      }

  pub entered-Entered : (item : Item) (s : Vcdiff V) → IsReady V s → Entered item s (entered item s)
  entered-Entered (written ws chunk) s v =
      let b = leb ws.length (length chunk) in
      buffer_chunk-Entered (written ws chunk) (s.force_flush || length chunk == 0) s (cleared b s)
        (cleared-buffers b s) (cleared-SameHandle b s) (cleared-IsReady b s v)
  entered-Entered (asked ws) s v = flush-Entered ws s v
  entered-Entered (flushed ws) s v =
      let s' = record s { force_flush = true } in
      let b = leb ws.length 0 in
      let v' = SameHandle-IsReady s s' (ground arith) v.counted v in
      buffer_chunk-Entered (flushed ws) true s (cleared b s') (cleared-buffers b s')
        (ground (arith, cleared-SameHandle b s')) (cleared-IsReady b s' v')

  some_window :
      (p : Option Bytes × Vcdiff V)
      → is_some p.0 ≡ true
      → (window : Bytes) × (s' : Vcdiff V) × (p ≡ (some window, s'))
  some_window (some window, s') h = (window, s', refl)
  some_window (none, s') h = cc

  -- `_flush` always hands on a window.
  pub entered-flushed :
      (ws : WritableState) (s : Vcdiff V)
      → (window : Bytes) × (s' : Vcdiff V) × (entered (flushed ws) s ≡ (some window, s'))
  unfolding buffer_chunk
  entered-flushed ws s = some_window (entered (flushed ws) s) (ground arith)
