-- ===== src/Js/Buffered/Laws.antt =====
-- With what `vcdiffEncode` and `vcdiffDecode` call back.
use node_vcdiff.Base.{
  ℕ, true, false, not, ◌||◌, Option, none, some, List, [], ◌∷◌, ◌++◌, Bytes, flatten, ◌≡◌, refl, ap,
  sym, ◌∙◌, arith, append-nil, Bool-cases, inl, inr, if◌then◌else◌,
}
use node_vcdiff.Codec.{Error, is_ok, encode, decode, mode_code}
use node_vcdiff.Codec.OpenVcdiff.{OpenVcdiff}
use node_vcdiff.Codec.Dispatch.{AnyCoder, any_coder}
use node_vcdiff.Ctx.Defs.{make_ctx}
use node_vcdiff.Ctx.Invariant.{make_ctx-Inv}
use node_vcdiff.Ctx.Session.{direct}
use node_vcdiff.Ctx.Session.Codecs.{AppendsOutput}
use node_vcdiff.Binding.{Object, hashed_dictionary}
use node_vcdiff.Js.Options.{Options, Vcdiff, make_vcdiff}
use node_vcdiff.Js.Options.Limits.{decoder_of, decoder_settings}
use node_vcdiff.Js.Options.Encoding.{encoder_of, make_vcdiff-encoder_of}
use node_vcdiff.Js.Outcome.{Exception, Outcome, native, returned, ◌>>=◌}
use node_vcdiff.Js.Stream.{WritableState}
use node_vcdiff.Js.Stream as Stream
use node_vcdiff.Js.Run.{Item, written, run_stream}
use node_vcdiff.Js.Run.Windows.{IsLive}
use node_vcdiff.Js.Run.Announced.{Announced}
use node_vcdiff.Js.Run.Delivery.{StreamOutput, stream_delivers}
use node_vcdiff.Js.Run.Open.{IsOpen, run_stream-IsOpen}
use node_vcdiff.Js.Collect.{
  Emitted, error, end, Reply, failed, completed, Collector, flow, dispatch_all, vcdiff_buffer,
}
use node_vcdiff.Js.Collect.Laws.{
  join, readings, only_reads, only_reads-no_errors, collect_completes, collect_fails,
}
use node_vcdiff.Js.Buffered.{end_with, failure, run_buffer, vcdiff_encode, vcdiff_decode}

-- What node documents of the events of a stream: all bytes that were pushed can be read, in order,
-- before the end, in what pieces ever, since `push` of an empty buffer adds nothing and `read` joins
-- what is buffered; an error that is emitted is heard, and since `_transform` does not call back then, the
-- stream does not end and nothing more is emitted but that it is readable.
pub record IsReadable (events : List Bytes → Option Exception → List Emitted) : Type 0 where
  pub ends :
      (pushed : List Bytes)
      → (reads : List (List Bytes)) × (events pushed none ≡ readings reads ++ end ∷ [])
        × (flatten (join reads) ≡ flatten pushed)
  pub fails :
      (pushed : List Bytes) (err : Exception)
      → (reads : List (List Bytes)) × (later : List Emitted) × (events pushed (some err)
          ≡ readings reads ++ error err ∷ later)
        × (only_reads later ≡ true)

abbrev pub reply_of : Error × Bytes → Reply
reply_of (e, out) = if is_ok e then completed out else failed (native e)

completed_reply :
    (spec : Error × Bytes) (out : Bytes)
    → is_ok spec.0 ≡ true
    → out ≡ spec.1
    → completed out ≡ reply_of spec
completed_reply (e, out') out fine same = rw (fine, same) refl

failed_reply :
    (spec : Error × Bytes) (e : Error)
    → is_ok spec.0 ≡ false
    → e ≡ spec.0
    → failed (native e) ≡ reply_of spec
failed_reply (e', out) e bad same = rw (same, bad) refl

module _ (V : OpenVcdiff) (events : List Bytes → Option Exception → List Emitted) where
  run_buffer-collected :
      (items : List Item) (s : Vcdiff V) (r : List Bytes × Vcdiff V)
      → run_stream V items s ≡ returned r
      → run_buffer V events true items s
        ≡ (vcdiff_buffer V true [] r.1 >>= dispatch_all V (events r.0 (failure V events r.1)))
  unfolding run_buffer vcdiff_buffer flow
  run_buffer-collected items s r e = rw e refl

  -- The one reply, given what the run pushed and the error that it met.
  collected :
      IsReadable events
      → (spec : Error × Bytes) (r : List Bytes × Vcdiff V) → IsOpen V r.1
      → StreamOutput V spec r
      → (c : Collector V) × ((vcdiff_buffer V true [] r.1
            >>= dispatch_all V (events r.0 (failure V events r.1)))
          ≡ returned c)
        × (c.replies ≡ reply_of spec ∷ [])
        × (c.engine.closed ≡ is_ok spec.0)
  unfolding Stream.on_error
  collected readable spec r v out = elim (Bool-cases (is_ok spec.0)) [
    | inl fine ↦
        let no_failure : r.1.had_error ≡ false = out.had_error ∙ ap not fine in
        let (reads, es, all) = readable.ends r.0 in
        let emitted : events r.0 (failure V events r.1) ≡ readings reads ++ end ∷ [] =
          ap (λ b. events r.0 (if b then some (native r.1.ctx.err) else none)) no_failure ∙ es in
        let (c, e, replies, closed) =
          collect_completes V [] reads r.1 v.open_still (v.attached no_failure) in
        let same : flatten (join reads) ≡ spec.1 = all ∙ out.complete fine in
        (
          c,
          rw emitted e,
          replies ∙ ap (λ x. x ∷ []) (completed_reply spec (flatten (join reads)) fine same),
          closed ∙ sym fine,
        )
    | inr bad ↦
        let failing : r.1.had_error ≡ true = out.had_error ∙ ap not bad in
        let (reads, later, es, quiet) = readable.fails r.0 (native r.1.ctx.err) in
        let emitted : events r.0 (failure V events r.1)
            ≡ readings reads ++ error (native r.1.ctx.err) ∷ later =
          ap (λ b. events r.0 (if b then some (native r.1.ctx.err) else none)) failing ∙ es in
        let (c, e, replies, _, engine) =
          collect_fails V [] reads (native r.1.ctx.err) later r.1
            (only_reads-no_errors later quiet) in
        (
          c,
          rw emitted (e ∙ rw (v.open_still, quiet) refl),
          replies ∙ ap (λ x. x ∷ []) (failed_reply spec r.1.ctx.err bad out.err),
          ap (λ x. x.closed) engine ∙ v.open_still ∙ sym bad,
        )
  ]

  make_vcdiff-IsLive :
      (opts : Options V) (mode : ℕ) (k : AnyCoder V) (s : Vcdiff V)
      → make_vcdiff V opts mode ≡ returned s
      → s.ctx ≡ make_ctx k
      → IsLive V s × (s.buffers ≡ [])
  unfolding make_vcdiff make_ctx
  make_vcdiff-IsLive opts mode k s e new = (
    record {
      ready = record {
        sound = record { alive = λ h. rw new refl; not_pending = λ h. rw new refl };
        open_still = ground arith;
        attached = ground arith;
        free = rw new refl;
        counted = ground arith;
      };
      fine = ground arith;
      inv = rw new (make_ctx-Inv k);
      quiet = rw new refl;
    },
    ground arith,
  )

  -- What node does with `engine.end(buffer)`.
  pub record Ended (ws : WritableState) (buffer : Bytes) (ws_end : WritableState) : Type 0 where
    pub announced : Announced (written ws buffer ∷ [])
    pub ending : (ws_end.ending || ws_end.ended) ≡ true
    pub none_left : ws_end.length ≡ 0

  -- One call of a function with a new stream, whose coder is `k`.
  abbrev pub CallsBack : AnyCoder V → Bytes → Outcome (Collector V) → Type 0
  CallsBack k buffer run =
      (wins : List Bytes) × (c : Collector V) × (flatten wins ≡ buffer)
      × (run ≡ returned c)
      × (c.replies ≡ reply_of (direct (any_coder V) k wins) ∷ [])
      × (c.engine.closed ≡ is_ok (direct (any_coder V) k wins).0)

  made-CallsBack :
      AppendsOutput V
      → IsReadable events
      → (k : AnyCoder V) (s : Vcdiff V) (opts : Options V) (mode : ℕ) (ws : WritableState)
        (buffer : Bytes) (ws_end : WritableState)
      → Ended ws buffer ws_end
      → make_vcdiff V opts mode ≡ returned s
      → s.ctx ≡ make_ctx k
      → CallsBack k buffer
          (make_vcdiff V opts mode >>= run_buffer V events true (end_with ws buffer ws_end))
  made-CallsBack a readable k s opts mode ws buffer ws_end ended made new =
      let (v, empty) = make_vcdiff-IsLive opts mode k s made new in
      let (wins, r, all, e, out) =
        stream_delivers V a k s (written ws buffer ∷ []) ws_end v new empty ended.announced
          ended.ending ended.none_left in
      let opened =
        run_stream-IsOpen V (end_with ws buffer ws_end) s r
          (record { open_still = v.ready.open_still; attached = λ h. v.ready.attached }) e in
      let (c, e', replies, closed) =
        collected readable (direct (any_coder V) k wins) r opened out in
      (
        wins,
        c,
        all ∙ append-nil buffer,
        rw made (run_buffer-collected (end_with ws buffer ws_end) s r e ∙ e'),
        replies,
        closed,
      )

  -- If the methods of open-vcdiff append to the output string and node treats the stream as it
  -- documents, `vcdiffEncode` of a buffer calls back once: with what the encoder with the settings of the options
  -- makes of some windows when it is used directly, and then closes the stream, or with the encoder's
  -- error. The windows are, end to end, the buffer.
  pub vcdiff_encode-CallsBack :
      AppendsOutput V
      → IsReadable events
      → (opts : Options V) (d : V.HashedDictionary) (s : Vcdiff V) (ws : WritableState)
        (buffer : Bytes) (ws_end : WritableState)
      → Ended ws buffer ws_end
      → opts.hashed_dictionary ≡ some (hashed_dictionary d)
      → make_vcdiff V opts (mode_code encode) ≡ returned s
      → CallsBack
          (encoder_of V opts d)
          buffer
          (vcdiff_encode V events true (end_with ws buffer ws_end) opts)
  unfolding vcdiff_encode
  vcdiff_encode-CallsBack a readable opts d s ws buffer ws_end ended h made =
      made-CallsBack a readable (encoder_of V opts d) s opts (mode_code encode) ws buffer ws_end
        ended made (make_vcdiff-encoder_of V opts d s h made)

  -- `vcdiffDecode` of a buffer calls back once, on the same conditions and in the same way.
  pub vcdiff_decode-CallsBack :
      AppendsOutput V
      → IsReadable events
      → (opts : Options V) (dictionary : Bytes) (s : Vcdiff V) (ws : WritableState) (buffer : Bytes)
        (ws_end : WritableState)
      → Ended ws buffer ws_end
      → opts.dictionary ≡ some (Object.buffer dictionary)
      → make_vcdiff V opts (mode_code decode) ≡ returned s
      → CallsBack
          (decoder_of V opts dictionary)
          buffer
          (vcdiff_decode V events true (end_with ws buffer ws_end) opts)
  unfolding vcdiff_decode
  vcdiff_decode-CallsBack a readable opts dictionary s ws buffer ws_end ended h made =
      made-CallsBack a readable (decoder_of V opts dictionary) s opts (mode_code decode) ws buffer
        ws_end ended made (decoder_settings V opts dictionary s h made)
