-- ===== src/Js/Run/Turn.antt =====
-- What one chunk comes to: it stays in the buffers, or its window goes through the context.
use node_vcdiff.Base.{
  Bool, true, false, some, List, [], ◌∷◌, Bytes, ℕ, String, ◌≡◌, sym, ap, ◌∙◌, inl, inr, arith,
  if◌then◌else◌,
}
use node_vcdiff.Base.Run.{return, ◌>>=◌}
use node_vcdiff.Codec.{Coder, is_ok}
use node_vcdiff.Codec.OpenVcdiff.{OpenVcdiff}
use node_vcdiff.Codec.Dispatch.{AnyCoder, any_coder}
use node_vcdiff.Ctx.Defs.{Ctx, queued}
use node_vcdiff.Ctx.Defs
use node_vcdiff.Ctx.Write.{Written, result, no_result, handle, write, process_shim, after_shim}
use node_vcdiff.Ctx.Write.Cases.{CanWrite, begin_write}
use node_vcdiff.Ctx.Calls.{write_async, nothing, exec, exec_all}
use node_vcdiff.Ctx.Invariant.{Inv}
use node_vcdiff.Ctx.Async.{async_turn, async_turn_lem, announce}
use node_vcdiff.Ctx.Session.{delivered}
use node_vcdiff.Ctx.Turn.{Ended}
use node_vcdiff.Js.Options.{Vcdiff}
use node_vcdiff.Js.Outcome.{returned}
use node_vcdiff.Js.Stream.{accepted, on_error}
use node_vcdiff.Js.Stream.Flushing.{queued_on}
use node_vcdiff.Js.Turn.{react, complete}
use node_vcdiff.Js.Run.{resume, run_work}

module _ (C : Coder) (chunk : Bytes) (is_last : Bool) (c : Ctx C.State) where
  abbrev queued_write : Ctx C.State
  queued_write = record (begin_write C chunk c) {
    work = queued (record { chunk = chunk; is_last = is_last });
  }

  exec-queued_write : CanWrite C c → exec C (write_async chunk is_last) c ≡ return queued_write
  unfolding exec write
  exec-queued_write (alive, free, open_still) = ground arith

  complete-announce :
      {r : Written × Ctx C.State}
      → Inv c
      → CanWrite C c
      → write C (exec_all C nothing) chunk is_last false c ≡ return r
      → complete C (record { chunk = chunk; is_last = is_last }) queued_write
        ≡ return (announce C r)
  unfolding complete async_turn exec_all
  complete-announce v can e =
      ap
        (λ m.
          m
          >>= process_shim C (record { chunk = chunk; is_last = is_last })
          >>= after_shim (exec_all C nothing) true)
        (sym (exec-queued_write can))
      ∙ async_turn_lem C chunk is_last c v can
      ∙ ap (λ m. m >>= λ r. return (announce C r)) e

module _ (V : OpenVcdiff) where
  -- How the stream reacts to what a write announced.
  abbrev settled : Vcdiff V → Written × Ctx (AnyCoder V) → List Bytes × Vcdiff V
  settled s r =
      react V (announce (any_coder V) r).events
        (record s { ctx = record (announce (any_coder V) r) { events = [] } })

  settled-written :
      (s : Vcdiff V) (w : Written) (c : Ctx (AnyCoder V)) (finished : Bool)
      → s.had_error ≡ false
      → w ≡ result (delivered (any_coder V) w) finished
      → c.events ≡ []
      → settled s (w, c) ≡ (delivered (any_coder V) w ∷ [], record s { ctx = c })
  unfolding react
  settled-written s (result out finished) c f fine e quiet = ground arith
  settled-written s no_result c f fine e quiet = cc
  settled-written s handle c f fine e quiet = cc

  settled-failed :
      (s : Vcdiff V) (w : Written) (c : Ctx (AnyCoder V)) (message : String) (errno : ℕ)
      → w ≡ no_result
      → c.events ≡ Defs.on_error message errno ∷ []
      → settled s (w, c) ≡ ([], on_error V (record s { ctx = record c { events = [] } }))
  unfolding react
  settled-failed s no_result c message errno e one = rw one
  settled-failed s (result out finished) c message errno e one = cc
  settled-failed s handle c message errno e one = cc

  module _ (window : Bytes) (is_last : Bool) (s : Vcdiff V) (r : Written × Ctx (AnyCoder V))
      (v : Inv s.ctx) (can : CanWrite (any_coder V) s.ctx)
      (e : write (any_coder V) (exec_all (any_coder V) nothing) window is_last false s.ctx
        ≡ return r)
      (fine : s.had_error ≡ false) where
    resume-react :
        resume V (accepted (some window) (queued_on V window is_last s)) ≡ returned (settled s r)
    unfolding resume run_work
    resume-react = rw (complete-announce (any_coder V) window is_last s.ctx v can e)

    -- The window was delivered, or its error was reported.
    pub resume-Ended :
        Ended (any_coder V) window is_last s.ctx r
        → resume V (accepted (some window) (queued_on V window is_last s))
          ≡ returned (
              if is_ok r.1.err
              then (delivered (any_coder V) r.0 ∷ [], record s { ctx = r.1 })
              else ([], on_error V (record s { ctx = record r.1 { events = [] } })))
    resume-Ended (inl (good, (finished, w), quiet, _)) =
        rw good (resume-react ∙ ap returned (settled-written s r.0 r.1 finished fine w quiet))
    resume-Ended (inr (bad, w, one)) =
        rw bad (resume-react ∙ ap returned (settled-failed s r.0 r.1 _ _ w one))
