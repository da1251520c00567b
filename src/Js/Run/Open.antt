-- ===== src/Js/Run/Open.antt =====
-- A run never closes its stream, and only an error takes its handle.
use node_vcdiff.Base.{
  Bool, true, false, none, some, List, [], ◌∷◌, Bytes, ◌≡◌, subst, arith, Bool-cases, inl, inr,
}
use node_vcdiff.Codec.OpenVcdiff.{OpenVcdiff}
use node_vcdiff.Codec.Dispatch.{any_coder}
use node_vcdiff.Ctx.Defs.{Event, callback}
use node_vcdiff.Ctx.Defs
use node_vcdiff.Js.Options.{Vcdiff}
use node_vcdiff.Js.Outcome.{returned, native_call, >>=-eq-returned, ◌>>=◌}
use node_vcdiff.Js.Stream.{
  WritableState, Transformed, refused, accepted, buffer_chunk, submit, process_chunk, transform,
  flush, flush_end, on_error,
}
use node_vcdiff.Js.Turn.{react}
use node_vcdiff.Js.Run.{Item, written, asked, flushed, run_work, feed, resume, run_stream}

module _ (V : OpenVcdiff) where
  pub record IsOpen (s : Vcdiff V) : Type 0 where
    pub open_still : s.closed ≡ false
    pub attached : s.had_error ≡ false → s.attached ≡ true

  abbrev KeepsOpen : Transformed V → Type 0
  KeepsOpen refused = Unit {0}
  KeepsOpen (accepted window s) = IsOpen s

  transform-KeepsOpen :
      (ws : WritableState) (chunk : Bytes) (b : Bool) (s : Vcdiff V) (t : Transformed V)
      → IsOpen s
      → transform V ws chunk b s ≡ returned t
      → KeepsOpen t
  unfolding transform process_chunk submit buffer_chunk
  transform-KeepsOpen ws chunk b s refused v e = tt
  transform-KeepsOpen ws chunk b s (accepted window s') v e = record {
    open_still = ground (arith, v.open_still);
    attached = ground (arith, v.attached);
  }

  feed-KeepsOpen :
      (item : Item) (s : Vcdiff V) (t : Transformed V)
      → IsOpen s
      → feed V item s ≡ returned t
      → KeepsOpen t
  unfolding feed flush flush_end
  feed-KeepsOpen (written ws chunk) s t v e = transform-KeepsOpen ws chunk true s t v e
  feed-KeepsOpen (asked ws) s t v e =
      let h : IsOpen (flush V ws s).1 = record {
        open_still = ground (arith, v.open_still);
        attached = ground (arith, v.attached);
      } in
      let same : accepted none (flush V ws s).1 ≡ t = ground arith in subst KeepsOpen same h
  feed-KeepsOpen (flushed ws) s t v e =
      transform-KeepsOpen ws [] false (record s { force_flush = true }) t
        (record { open_still = v.open_still; attached = v.attached }) e

  react-IsOpen : (events : List Event) (s : Vcdiff V) → IsOpen s → IsOpen (react V events s).1
  unfolding react on_error
  react-IsOpen [] s v = v
  react-IsOpen (Defs.on_error message errno ∷ events) s v =
      react-IsOpen events (on_error V s) (record { open_still = v.open_still; attached = λ h. cc })
  react-IsOpen (callback out finished ∷ events) s v =
      let h = react-IsOpen events s v in
      record { open_still = ground (arith, h.open_still); attached = ground (arith, h.attached) }

  resume-IsOpen :
      (t : Transformed V) (r : List Bytes × Vcdiff V)
      → KeepsOpen t
      → resume V t ≡ returned r
      → IsOpen r.1
  unfolding resume
  resume-IsOpen refused r v e = cc
  resume-IsOpen (accepted none s) r v e = let same : s ≡ r.1 = ground arith in subst IsOpen same v
  resume-IsOpen (accepted (some window) s) r v e =
      let (c, e1, e2) =
        >>=-eq-returned (native_call (run_work (any_coder V) s.ctx.work s.ctx)) _ e in
      let s' = record s { ctx = record c { events = [] } } in
      let h =
        react-IsOpen c.events s' (record { open_still = v.open_still; attached = v.attached }) in
      let same : (react V c.events s').1 ≡ r.1 = ground arith in subst IsOpen same h

  pub run_stream-IsOpen :
      (items : List Item) (s : Vcdiff V) (r : List Bytes × Vcdiff V)
      → IsOpen s
      → run_stream V items s ≡ returned r
      → IsOpen r.1
  unfolding run_stream
  run_stream-IsOpen [] s r v e = let same : s ≡ r.1 = ground arith in subst IsOpen same v
  run_stream-IsOpen (item ∷ items) s r v e =
      let (p, e1, e2) = >>=-eq-returned (feed V item s >>= resume V) _ e in
      let (t, e3, e4) = >>=-eq-returned (feed V item s) _ e1 in
      let h = resume-IsOpen t p (feed-KeepsOpen item s t v e3) e4 in
      elim (Bool-cases p.1.had_error) [
        | inl bad ↦ let same : p.1 ≡ r.1 = ground arith in subst IsOpen same h
        | inr fine ↦
            let e5 = (rw fine at e2) in
            let (q, e6, e7) = >>=-eq-returned (run_stream V items p.1) _ e5 in
            let same : q.1 ≡ r.1 = ground arith in
            subst IsOpen same (run_stream-IsOpen items p.1 q h e6)
      ]
