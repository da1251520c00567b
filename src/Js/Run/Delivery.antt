-- ===== src/Js/Run/Delivery.antt =====
-- A whole stream against the direct use of the codec.
use node_vcdiff.Base.{
  Bool, true, false, not, none, some, Option, List, [], ◌∷◌, ◌++◌, Bytes, flatten, ◌||◌, ◌≡◌, refl,
  sym, ap, subst, ◌∙◌, arith, append-nil,
}
use node_vcdiff.Codec.{Error, is_ok}
use node_vcdiff.Codec.OpenVcdiff.{OpenVcdiff}
use node_vcdiff.Codec.Dispatch.{AnyCoder, any_coder}
use node_vcdiff.Ctx.Defs.{make_ctx}
use node_vcdiff.Ctx.Session.{direct}
use node_vcdiff.Ctx.Session.Codecs.{AppendsOutput, any_coder-IsAppending}
use node_vcdiff.Ctx.Session.Flags.{windows, upto_last, Flagged, write_each, Flagged-session_refines}
use node_vcdiff.Js.Options.{Vcdiff}
use node_vcdiff.Js.Outcome.{returned}
use node_vcdiff.Js.Stream.{WritableState, close}
use node_vcdiff.Js.Run.{Item, flushed, run_stream}
use node_vcdiff.Js.Run.Feed.{is_last, entered, Entered, entered-Entered, entered-flushed}
use node_vcdiff.Js.Run.Windows.{item_bytes, IsLive, Mirrors, Planned, buffered}
use node_vcdiff.Js.Run.Announced.{
  session, Announced, item_bytes-session, nothing_follows, rest-Announced,
}
use node_vcdiff.Js.Run.Open.{IsOpen, run_stream-IsOpen}
use node_vcdiff.Js.Run.Idle.{run_stream-idle, close-frees}
use node_vcdiff.Js.Run.Windows.Filled.{windowed}

module _ (V : OpenVcdiff) where
  Flagged-cons :
      (window : Bytes) (last : Bool) (l : List (Bytes × Bool)) (after : Bytes)
      → (last ≡ true → after ≡ [])
      → (last ≡ false → Flagged l)
      → flatten (windows l) ≡ after
      → Flagged ((window, last) ∷ l)
  Flagged-cons window true l after ends f e = e ∙ ends refl
  Flagged-cons window false l after ends f e = f refl

  plan_item :
      (item : Item) (items : List Item) (s : Vcdiff V) (p : Option Bytes × Vcdiff V)
      → IsLive V s
      → is_ok s.ctx.err ≡ true
      → entered V item s ≡ p
      → (is_last item ≡ true → item_bytes items ≡ [])
      → ((s1 : Vcdiff V) → IsLive V s1 → is_ok s1.ctx.err ≡ true → Planned V Flagged items s1)
      → Planned V Flagged (item ∷ items) s
  plan_item item items s (none, s') v good e ends go_on =
      let h = subst (Entered V item s) e (entered-Entered V item s v.ready) in
      buffered V Flagged item items s s' v.ready h v.fine e (
        go_on s'
          (record {
            ready = h.ready;
            fine = h.same.had_error ∙ v.fine;
            inv = rw h.same.ctx v.inv;
            quiet = rw h.same.ctx v.quiet;
          })
          (rw h.same.ctx good))
  plan_item item items s (some window, s') v good e ends go_on =
      let h = subst (Entered V item s) e (entered-Entered V item s v.ready) in
      windowed V Flagged Flagged item items s s' window
        (λ l f all. Flagged-cons window (is_last item) l (item_bytes items) ends (λ _. f) all) v h e
        refl (λ s1 v1 empty good1. go_on s1 v1 good1)

  plan_nothing :
      (s : Vcdiff V)
      → IsLive V s
      → s.buffers ≡ []
      → is_ok s.ctx.err ≡ true
      → Planned V (λ l. Unit {0}) [] s
  unfolding run_stream write_each
  plan_nothing s v empty good = record {
    l = [];
    sound = tt;
    all = rw empty refl;
    runs = λ r w.
        let same : ([], s.ctx) ≡ r = cc in
        (
          ([], s),
          refl,
          subst (λ x. Mirrors V x ([], s)) same
              (record {
                pushed = refl;
                err = refl;
                output_buffer = refl;
                had_error = rw good v.fine;
              }),
        );
  }

  plan_flush :
      (ws : WritableState) (s : Vcdiff V)
      → IsLive V s
      → (ws.ending || ws.ended) ≡ true
      → ws.length ≡ 0
      → Planned V Flagged (flushed ws ∷ []) s
  plan_flush ws s v ending none_left =
      let (window, s', e) = entered-flushed V ws s in
      let h = subst (Entered V (flushed ws) s) e (entered-Entered V (flushed ws) s v.ready) in
      let last : is_last (flushed ws) ≡ true = ground arith in
      windowed V (λ l. Unit {0}) Flagged (flushed ws) [] s s' window
        (λ l f all. Flagged-cons window (is_last (flushed ws)) l [] (λ _. refl) (λ x. cc) all) v h e
        tt plan_nothing

  plan :
      (items : List Item) (ws : WritableState) (s : Vcdiff V)
      → IsLive V s
      → is_ok s.ctx.err ≡ true
      → Announced items
      → (ws.ending || ws.ended) ≡ true
      → ws.length ≡ 0
      → Planned V Flagged (session items ws) s
  plan [] ws s v good a ending none_left = plan_flush ws s v ending none_left
  plan (item ∷ rest) ws s v good a ending none_left =
      plan_item item (session rest ws) s (entered V item s) v good refl
        (nothing_follows item rest ws a)
        (λ s1 v1 good1. plan rest ws s1 v1 good1 (rest-Announced item rest a) ending none_left)

  upto_last-all :
      (l : List (Bytes × Bool)) → Flagged l → flatten (upto_last l) ≡ flatten (windows l)
  upto_last-all [] f = absurd f
  upto_last-all ((window, true) ∷ rest) f = rw f
  upto_last-all ((window, false) ∷ rest) f = rw (upto_last-all rest f)

  -- What a stream made of a run of the codec: it pushed the output, and `close`, which follows the end,
  -- frees the coder; or a call failed, the stream knows of the error, and what it did not push is left in
  -- the context.
  pub record StreamOutput (spec : Error × Bytes) (r : List Bytes × Vcdiff V) : Type 0 where
    pub err : r.1.ctx.err ≡ spec.0
    pub output : flatten r.0 ++ r.1.ctx.output_buffer ≡ spec.1
    pub complete : is_ok spec.0 ≡ true → flatten r.0 ≡ spec.1
    pub had_error : r.1.had_error ≡ not (is_ok spec.0)
    pub frees :
        is_ok spec.0 ≡ true
        → (s' : Vcdiff V) × (close V r.1 ≡ returned s') × (s'.closed ≡ true) × (s'.ctx.coder ≡ none)

  run_stream-frees :
      (items : List Item) (s : Vcdiff V) (r : List Bytes × Vcdiff V)
      → IsLive V s
      → run_stream V items s ≡ returned r
      → r.1.had_error ≡ false
      → (s' : Vcdiff V) × (close V r.1 ≡ returned s') × (s'.closed ≡ true) × (s'.ctx.coder ≡ none)
  run_stream-frees items s r v e fine =
      let open_still : IsOpen V s = record {
        open_still = v.ready.open_still;
        attached = λ h. v.ready.attached;
      } in
      let h = run_stream-IsOpen V items s r open_still e in
      close-frees V r.1 h.open_still (h.attached fine) (run_stream-idle V items s r v.ready.free e)

  -- If the methods of open-vcdiff append to the output string and node counts `writableLength` as it
  -- documents: on a new stream that is given chunks of any sizes and calls of `flush` in any order, each
  -- chunk once the one before went through the thread pool, and then ends, no assertion fails and
  -- nothing is thrown, and what it pushes is what the codec makes of some windows when it is used
  -- directly. The windows are, end to end, the bytes of the chunks. If no call of the
  -- codec fails, `close`, which follows the end, frees the coder. If one fails, the stream knows of the
  -- error, and what it pushed is what the codec put out, less what is left in the context.
  pub stream_delivers :
      AppendsOutput V
      → (k : AnyCoder V) (s : Vcdiff V) (items : List Item) (ws : WritableState) → IsLive V s
      → s.ctx ≡ make_ctx k
      → s.buffers ≡ []
      → Announced items
      → (ws.ending || ws.ended) ≡ true
      → ws.length ≡ 0
      → (wins : List Bytes) × (r : List Bytes × Vcdiff V) × (flatten wins ≡ item_bytes items)
        × (run_stream V (session items ws) s ≡ returned r)
        × StreamOutput (direct (any_coder V) k wins) r
  unfolding make_ctx
  stream_delivers a k s items ws v new empty announced ending none_left =
      let p = plan items ws s v (rw new refl) announced ending none_left in
      let (r, e, m) =
        Flagged-session_refines (any_coder V) (any_coder-IsAppending V a) k p.l p.sound in
      let (r', e', m') = p.runs r (rw new e) in
      (
        upto_last p.l,
        r',
        upto_last-all p.l p.sound ∙ p.all ∙ rw (empty, item_bytes-session items ws) refl,
        e',
        record {
          err = m'.err ∙ m.err;
          output = rw (m'.pushed, m'.output_buffer) m.output;
          complete = λ h. m'.pushed ∙ sym (append-nil r.0) ∙ (rw (m.flushed h) at m.output);
          had_error = m'.had_error ∙ ap (λ x. not (is_ok x)) m.err;
          frees = λ h.
              let fine = m'.had_error ∙ ap (λ x. not (is_ok x)) m.err ∙ ap not h in
              run_stream-frees (session items ws) s r' v e' fine;
        },
      )
