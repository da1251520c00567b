-- ===== src/Js/Run/Windows/Filled.antt =====
-- An item that fills a window.
use node_vcdiff.Base.{
  Bool, true, false, some, List, [], ◌∷◌, ◌++◌, Bytes, flatten, ◌≡◌, refl, sym, ap, subst, ◌∙◌, inl,
  inr, append-nil, append_assoc,
}
use node_vcdiff.Base.Run.{return, returns-cases}
use node_vcdiff.Codec.{is_ok}
use node_vcdiff.Codec.OpenVcdiff.{OpenVcdiff}
use node_vcdiff.Codec.Dispatch.{AnyCoder, any_coder}
use node_vcdiff.Ctx.Defs.{Ctx}
use node_vcdiff.Ctx.Write.{Written, write}
use node_vcdiff.Ctx.Write.Cases.{CanWrite}
use node_vcdiff.Ctx.Calls.{nothing, exec_all}
use node_vcdiff.Ctx.Invariant.{Inv}
use node_vcdiff.Ctx.Invariant.Calls.{write_sync-Inv}
use node_vcdiff.Ctx.Session.{delivered}
use node_vcdiff.Ctx.Session.Flags.{windows, write_each}
use node_vcdiff.Ctx.Turn.{write-returns, write-Ended}
use node_vcdiff.Js.Options.{Vcdiff}
use node_vcdiff.Js.Outcome.{returned}
use node_vcdiff.Js.Stream.{on_error, accepted}
use node_vcdiff.Js.Stream.Flushing.{IsReady, queued_on}
use node_vcdiff.Js.Run.{Item, resume}
use node_vcdiff.Js.Run.Turn.{resume-Ended}
use node_vcdiff.Js.Run.Feed.{bytes, is_last, entered, Entered}
use node_vcdiff.Ctx.Session.Flags.Cases.{write_each-cases, write_each-failed_cases}
use node_vcdiff.Js.Run.Windows.{item_bytes, IsLive, Mirrors, Planned, run-failed, run-pushed}

module _ (V : OpenVcdiff) where
  can_write : (s : Vcdiff V) → IsReady V s → CanWrite (any_coder V) s.ctx
  can_write s v = (v.sound.alive v.open_still, v.free, v.sound.not_pending v.open_still)

  -- The stream after a window that was delivered is as ready as before.
  delivered-IsLive :
      (s : Vcdiff V) (c : Ctx (AnyCoder V))
      → IsLive V s
      → Inv c
      → c.events ≡ []
      → CanWrite (any_coder V) c
      → IsLive V (record s { ctx = c })
  delivered-IsLive s c v inv quiet (alive, free, open_still) = record {
    ready = record {
      sound = record { alive = λ e. alive; not_pending = λ e. open_still };
      open_still = v.ready.open_still;
      attached = v.ready.attached;
      free = free;
      counted = v.ready.counted;
    };
    fine = v.fine;
    inv = inv;
    quiet = quiet;
  }

  -- An item that fills a window, which goes through the context.
  module _ (Sound Sound' : List (Bytes × Bool) → Type 0) (item : Item) (items : List Item)
      (s s' : Vcdiff V) (window : Bytes)
      (keep : (l : List (Bytes × Bool))
        → Sound l
        → flatten (windows l) ≡ item_bytes items
        → Sound' ((window, is_last item) ∷ l))
      (v : IsLive V s) (h : Entered V item s (some window, s'))
      (e : entered V item s ≡ (some window, s')) where
    entered-IsLive : IsLive V s'
    entered-IsLive = record {
      ready = h.ready;
      fine = h.same.had_error ∙ v.fine;
      inv = rw h.same.ctx v.inv;
      quiet = rw h.same.ctx v.quiet;
    }

    ctx_same :
        (l : List (Bytes × Bool)) (r : Bytes × Ctx (AnyCoder V))
        → write_each (any_coder V) l s.ctx ≡ return r
        → write_each (any_coder V) l s'.ctx ≡ return r
    ctx_same l r w = subst (λ c. write_each (any_coder V) l c ≡ return r) (sym h.same.ctx) w

    window_bytes : (rest : Bytes) → window ++ rest ≡ flatten s.buffers ++ (bytes item ++ rest)
    window_bytes rest =
        let whole : window ≡ flatten s.buffers ++ bytes item =
          sym (append-nil window) ∙ (rw (h.emptied refl) at h.lossless) in
        rw (whole, append_assoc)

    -- If the write reports an error, the windows that would have followed do not matter.
    windowed-failed :
        (r0 : Written × Ctx (AnyCoder V))
        → Sound ((item_bytes items, true) ∷ [])
        → write (any_coder V) (exec_all (any_coder V) nothing) window (is_last item) false s'.ctx
          ≡ return r0
        → is_ok r0.1.err ≡ false
        → resume V (accepted (some window) (queued_on V window (is_last item) s'))
          ≡ returned ([], on_error V (record s' { ctx = record r0.1 { events = [] } }))
        → delivered (any_coder V) r0.0 ≡ []
        → Planned V Sound' (item ∷ items) s
    unfolding on_error
    windowed-failed r0 rest e0 bad resumed none_out = record {
      l = (window, is_last item) ∷ (item_bytes items, true) ∷ [];
      sound = keep _ rest (append-nil _);
      all = rw append-nil (window_bytes (item_bytes items));
      runs = λ r w.
          let same =
            write_each-failed_cases (any_coder V) window (is_last item)
              ((item_bytes items, true) ∷ []) s'.ctx r0 r e0 bad (ctx_same _ r w) in
          (
            ([], on_error V (record s' { ctx = record r0.1 { events = [] } })),
            run-failed V item items s s' v.ready window e _ _ resumed refl,
            subst
                (λ x.
                  Mirrors V x ([], on_error V (record s' { ctx = record r0.1 { events = [] } })))
                same
                (record {
                  pushed = sym none_out;
                  err = refl;
                  output_buffer = refl;
                  had_error = rw bad;
                }),
          );
    }

    windowed-delivered :
        (r0 : Written × Ctx (AnyCoder V))
        → write (any_coder V) (exec_all (any_coder V) nothing) window (is_last item) false s'.ctx
          ≡ return r0
        → is_ok r0.1.err ≡ true
        → resume V (accepted (some window) (queued_on V window (is_last item) s'))
          ≡ returned (delivered (any_coder V) r0.0 ∷ [], record s' { ctx = r0.1 })
        → Planned V Sound items (record s' { ctx = r0.1 })
        → Planned V Sound' (item ∷ items) s
    windowed-delivered r0 e0 good resumed p =
        let all : flatten (windows p.l) ≡ item_bytes items = rw (h.emptied refl) at p.all in
        record {
          l = (window, is_last item) ∷ p.l;
          sound = keep p.l p.sound all;
          all = rw all (window_bytes (item_bytes items));
          runs = λ r w.
              let (r1, e1, same) =
                write_each-cases (any_coder V) window (is_last item) p.l s'.ctx r0 r e0 good
                  (ctx_same _ r w) in
              let (r', e', m) = p.runs r1 e1 in
              (
                (delivered (any_coder V) r0.0 ∷ r'.0, r'.1),
                run-pushed V item items s s' v.ready window e _ _ resumed r' entered-IsLive.fine e',
                record {
                  pushed = rw (same, m.pushed) refl;
                  err = rw same m.err;
                  output_buffer = rw same m.output_buffer;
                  had_error = rw same m.had_error;
                },
              );
        }

    pub windowed :
        Sound ((item_bytes items, true) ∷ [])
        → ((s1 : Vcdiff V)
            → IsLive V s1
            → s1.buffers ≡ []
            → is_ok s1.ctx.err ≡ true
            → Planned V Sound items s1)
        → Planned V Sound' (item ∷ items) s
    windowed rest go_on =
        let can = can_write s' h.ready in
        let live = entered-IsLive in
        let (r0, e0) =
          returns-cases _ (write-returns (any_coder V) window (is_last item) s'.ctx live.inv can) in
        let ended =
          write-Ended (any_coder V) window (is_last item) s'.ctx live.inv can live.quiet e0 in
        let resumed = resume-Ended V window (is_last item) s' r0 live.inv can e0 live.fine ended in
        elim ended [
          | inl (good, (finished, w), quiet, can1) ↦
              windowed-delivered r0 e0 good (rw good at resumed) (
                go_on (record s' { ctx = r0.1 })
                  (delivered-IsLive s' r0.1 live
                    (write_sync-Inv (any_coder V) nothing window (is_last item) s'.ctx live.inv e0)
                    quiet can1)
                  (h.emptied refl) good)
          | inr (bad, w, one) ↦
              windowed-failed r0 rest e0 bad (rw bad at resumed) (ap (delivered (any_coder V)) w)
        ]
