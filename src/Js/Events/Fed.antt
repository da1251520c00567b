-- ===== src/Js/Events/Fed.antt =====
-- A stream stays open or closed, and gets no handle back, when it is flushed, fed or called back.
use node_vcdiff.Base.{Bool, true, false, Option, List, [], ◌∷◌, Bytes, ◌≡◌, refl, arith}
use node_vcdiff.Codec.OpenVcdiff.{OpenVcdiff}
use node_vcdiff.Ctx.Defs.{Ctx, Event, callback}
use node_vcdiff.Ctx.Defs
use node_vcdiff.Js.Options.{Vcdiff}
use node_vcdiff.Js.Outcome.{returned}
use node_vcdiff.Js.Stream.{
  WritableState, flush, on_error, transform, flush_end, process_chunk, buffer_chunk, submit,
  accepted,
}
use node_vcdiff.Js.Turn.{react}
use node_vcdiff.Js.Run.{Item, written, asked, flushed, feed}

false-true : false ≡ true → ⊥
false-true e = cc

module _ (V : OpenVcdiff) where
  pub flush-same :
      (ws : WritableState) (s : Vcdiff V)
      → ((flush V ws s).1.closed ≡ s.closed) × ((flush V ws s).1.attached ≡ s.attached)
  unfolding flush
  flush-same ws s = (ground arith, ground arith)

  abbrev pub Same : Vcdiff V → Vcdiff V → Type 0
  Same s s' = (s'.closed ≡ s.closed) × (s'.attached ≡ true → s.attached ≡ true)

  transform-Same :
      (ws : WritableState) (chunk : Bytes) (b : Bool) (s s' : Vcdiff V) (window : Option Bytes)
      → transform V ws chunk b s ≡ returned (accepted window s')
      → Same s s'
  unfolding transform process_chunk submit buffer_chunk
  transform-Same ws chunk b s s' window e = (ground arith, λ h. ground arith)

  pub feed-Same :
      (item : Item) (s s' : Vcdiff V) (window : Option Bytes)
      → feed V item s ≡ returned (accepted window s')
      → Same s s'
  unfolding feed flush_end flush
  feed-Same (written ws chunk) s s' window e = transform-Same ws chunk true s s' window e
  feed-Same (asked ws) s s' window e = (ground arith, λ h. ground arith)
  feed-Same (flushed ws) s s' window e =
      transform-Same ws [] false (record s { force_flush = true }) s' window e

  pub react-Same : (events : List Event) (s : Vcdiff V) → Same s (react V events s).1
  unfolding react on_error
  react-Same [] s = (refl, λ h. h)
  react-Same (Defs.on_error message errno ∷ events) s =
      let (closed, back) = react-Same events (on_error V s) in
      (closed, λ h. absurd (false-true (back h)))
  react-Same (callback out finished ∷ events) s =
      let (closed, back) = react-Same events s in (ground (arith, closed), λ h. back (ground arith))
