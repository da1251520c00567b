-- ===== src/Js/Run/Windows.antt =====
-- The windows of a stream, one by one, against the writes of a session.
pub mod Filled
use node_vcdiff.Base.{
  Bool, true, false, not, none, some, List, [], ◌∷◌, ◌++◌, Bytes, flatten, ◌≡◌, refl, ◌∙◌,
  append_assoc,
}
use node_vcdiff.Base.Run.{return}
use node_vcdiff.Codec.{is_ok}
use node_vcdiff.Codec.OpenVcdiff.{OpenVcdiff}
use node_vcdiff.Codec.Dispatch.{AnyCoder, any_coder}
use node_vcdiff.Ctx.Defs.{Ctx}
use node_vcdiff.Ctx.Invariant.{Inv}
use node_vcdiff.Ctx.Session.Flags.{windows, write_each}
use node_vcdiff.Js.Options.{Vcdiff}
use node_vcdiff.Js.Outcome.{returned, ◌>>=◌ as bind}
use node_vcdiff.Js.Stream.{accepted}
use node_vcdiff.Js.Stream.Flushing.{IsReady, queued_on}
use node_vcdiff.Js.Run.{Item, resume, run_stream}
use node_vcdiff.Js.Run.Feed.{bytes, is_last, entered, feed-handed, Entered}

-- The bytes that are written to the stream.
abbrev pub item_bytes : List Item → Bytes
item_bytes [] = []
item_bytes (item ∷ items) = bytes item ++ item_bytes items

module _ (V : OpenVcdiff) where
  -- Between two items, before any error.
  pub record IsLive (s : Vcdiff V) : Type 0 where
    pub ready : IsReady V s
    pub fine : s.had_error ≡ false
    pub inv : Inv s.ctx
    pub quiet : s.ctx.events ≡ []

  -- The stream pushed what the session delivered, and knows of the same error.
  pub record Mirrors (r : Bytes × Ctx (AnyCoder V)) (r' : List Bytes × Vcdiff V) : Type 0 where
    pub pushed : flatten r'.0 ≡ r.0
    pub err : r'.1.ctx.err ≡ r.1.err
    pub output_buffer : r'.1.ctx.output_buffer ≡ r.1.output_buffer
    pub had_error : r'.1.had_error ≡ not (is_ok r.1.err)

  -- The windows that come of the items, and how the stream runs through them.
  pub record Planned (Sound : List (Bytes × Bool) → Type 0) (items : List Item) (s : Vcdiff V)
      : Type 0 where
    pub l : List (Bytes × Bool)
    pub sound : Sound l
    pub all : flatten (windows l) ≡ flatten s.buffers ++ item_bytes items
    pub runs :
        (r : Bytes × Ctx (AnyCoder V))
        → write_each (any_coder V) l s.ctx ≡ return r
        → (r' : List Bytes × Vcdiff V) × (run_stream V items s ≡ returned r') × Mirrors r r'

  module _ (item : Item) (items : List Item) (s s' : Vcdiff V) (v : IsReady V s) where
    run-none :
        s'.had_error ≡ false
        → entered V item s ≡ (none, s')
        → run_stream V (item ∷ items) s
          ≡ bind (run_stream V items s') (λ (rest, s''). returned (rest, s''))
    unfolding run_stream resume
    run-none fine e = rw (feed-handed V item s v, e, fine)

    module _ (window : Bytes) (e : entered V item s ≡ (some window, s')) (pushed : List Bytes)
        (s1 : Vcdiff V)
        (resumed : resume V (accepted (some window) (queued_on V window (is_last item) s'))
          ≡ returned (pushed, s1)) where
      pub run-failed : s1.had_error ≡ true → run_stream V (item ∷ items) s ≡ returned (pushed, s1)
      unfolding run_stream
      run-failed bad = rw (feed-handed V item s v, e, resumed, bad)

      pub run-pushed :
          (r' : List Bytes × Vcdiff V)
          → s1.had_error ≡ false
          → run_stream V items s1 ≡ returned r'
          → run_stream V (item ∷ items) s ≡ returned (pushed ++ r'.0, r'.1)
      unfolding run_stream
      run-pushed r' fine more = rw (feed-handed V item s v, e, resumed, more, fine)

  -- An item that stays in the buffers.
  pub buffered :
      (Sound : List (Bytes × Bool) → Type 0) (item : Item) (items : List Item) (s s' : Vcdiff V)
      → IsReady V s
      → Entered V item s (none, s')
      → s.had_error ≡ false
      → entered V item s ≡ (none, s')
      → Planned Sound items s'
      → Planned Sound (item ∷ items) s
  buffered Sound item items s s' v h fine e p = record {
    l = p.l;
    sound = p.sound;
    all = p.all ∙ rw (h.lossless, append_assoc) refl;
    runs = λ r w.
        let (r', e', m) = p.runs r (rw h.same.ctx w) in
        (r', run-none item items s s' v (h.same.had_error ∙ fine) e ∙ rw e' refl, m);
  }
