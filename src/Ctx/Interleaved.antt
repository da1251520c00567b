-- ===== src/Ctx/Interleaved.antt =====
-- `Process` on the thread pool, stage by stage, while JavaScript goes on in between.
use node_vcdiff.Base.{Bool, true, false, is_some, Bytes, ◌≡◌, refl, ap, ◌∙◌, arith}
use node_vcdiff.Base.Run.{
  Run, return, abort, ◌>>=◌, >>=-eq-return, return_inj, returns-cases, write_already_in_progress,
}
use node_vcdiff.Codec.{Coder}
use node_vcdiff.Ctx.Defs.{Ctx, WorkData, queued, processed, is_busy, close}
use node_vcdiff.Ctx.Process.{
  process, start_if_idle, process_if_processing, finish_if_finalizing, get_coder,
}
use node_vcdiff.Ctx.Write.{write, process_shim}
use node_vcdiff.Ctx.Calls.{
  Calls, write_sync, write_async, close_call, nothing, first, append, exec, exec_all, close_method,
}
use node_vcdiff.Ctx.System.{Reach}
use node_vcdiff.Ctx.Pool.{pool_safe}
use node_vcdiff.Ctx.Invariant.Steps.{Reach-Inv}

module _ (C : Coder) where
  -- The three `if`s of `Process`, each with the fields that it reads, and the end of `ProcessShim`.
  unfoldable start_stage : Ctx C.State → Run (Ctx C.State)
  unfolding start_if_idle
  start_stage c = get_coder C c.coder >>= λ s. start_if_idle C c.state s c

  unfoldable process_stage : WorkData → Ctx C.State → Run (Ctx C.State)
  unfolding process_if_processing
  process_stage w c =
      get_coder C c.coder >>= λ s. return (process_if_processing C w.chunk w.is_last c.state s c)

  unfoldable finish_stage : WorkData → Ctx C.State → Run (Ctx C.State)
  unfolding finish_if_finalizing
  finish_stage w c = get_coder C c.coder >>= λ s.
      return (record (finish_if_finalizing C c.state s c) { work = processed w })

  -- `ProcessShim` while JavaScript makes calls before each stage and after the last.
  unfoldable pub interleaved :
      Calls → Calls → Calls → Calls → WorkData → Ctx C.State → Run (Ctx C.State)
  unfolding start_stage process_stage finish_stage exec_all
  interleaved k0 k1 k2 k3 w c =
      exec_all C k0 c
      >>= start_stage
      >>= exec_all C k1
      >>= process_stage w
      >>= exec_all C k2
      >>= finish_stage w
      >>= exec_all C k3

  -- During a write the context has its coder and takes no other.
  abbrev IsBusy : Ctx C.State → Type 0
  IsBusy c = (is_some c.coder ≡ true) × (c.write_in_progress ≡ true)

  -- All that calls come to during a write: a close is noted, and a write is refused.
  note : Calls → Ctx C.State → Run (Ctx C.State)
  note nothing c = return c
  note (first close_call calls) c = note calls (record c { pending_close = true })
  note (first (write_sync buffer is_last inside) calls) c = abort write_already_in_progress
  note (first (write_async buffer is_last) calls) c = abort write_already_in_progress

  write-refused :
      (js : Ctx C.State → Run (Ctx C.State)) (buffer : Bytes) (is_last async : Bool)
      (c : Ctx C.State)
      → IsBusy c
      → write C js buffer is_last async c ≡ abort write_already_in_progress
  unfolding write
  write-refused js buffer is_last async c (alive, busy) = ground arith

  close-noted :
      (c : Ctx C.State) → c.write_in_progress ≡ true → close c ≡ record c { pending_close = true }
  unfolding close
  close-noted c busy = ground arith

  exec_all-note : (calls : Calls) (c : Ctx C.State) → IsBusy c → exec_all C calls c ≡ note calls c
  unfolding exec_all exec close_method note
  exec_all-note nothing c v = refl
  exec_all-note (first close_call calls) c (alive, busy) =
      ap (exec_all C calls) (close-noted c busy)
      ∙ exec_all-note calls (record c { pending_close = true }) (alive, busy)
  exec_all-note (first (write_sync buffer is_last inside) calls) c v =
      rw (write-refused (exec_all C inside) buffer is_last false c v) refl
  exec_all-note (first (write_async buffer is_last) calls) c v =
      rw (write-refused _ buffer is_last true c v) refl

  abbrev noted : Ctx C.State → Ctx C.State
  noted c = record c { pending_close = true }

  -- A stage that does not look at `pending_close_` can come before the calls as well as after them.
  note_comm :
      (calls : Calls) (stage : Ctx C.State → Run (Ctx C.State)) (c c' : Ctx C.State)
      → ((x x' : Ctx C.State) → stage x ≡ return x' → stage (noted x) ≡ return (noted x'))
      → stage c ≡ return c'
      → (note calls c >>= stage) ≡ note calls c'
  unfolding note
  note_comm nothing stage c c' comm e = e
  note_comm (first close_call calls) stage c c' comm e =
      note_comm calls stage (noted c) (noted c') comm (comm c c' e)
  note_comm (first (write_sync buffer is_last inside) calls) stage c c' comm e = refl
  note_comm (first (write_async buffer is_last) calls) stage c c' comm e = refl

  start_stage-noted :
      (x x' : Ctx C.State) → start_stage x ≡ return x' → start_stage (noted x) ≡ return (noted x')
  unfolding start_stage
  start_stage-noted x x' e = ground arith

  process_stage-noted :
      (w : WorkData) (x x' : Ctx C.State)
      → process_stage w x ≡ return x'
      → process_stage w (noted x) ≡ return (noted x')
  unfolding process_stage
  process_stage-noted w x x' e = ground arith

  finish_stage-noted :
      (w : WorkData) (x x' : Ctx C.State)
      → finish_stage w x ≡ return x'
      → finish_stage w (noted x) ≡ return (noted x')
  unfolding finish_stage
  finish_stage-noted w x x' e = ground arith

  note-append :
      (calls more : Calls) (c : Ctx C.State)
      → IsBusy c
      → (note calls c >>= exec_all C more) ≡ note (append calls more) c
  unfolding note
  note-append nothing more c v = exec_all-note more c v
  note-append (first close_call calls) more c v = note-append calls more (noted c) v
  note-append (first (write_sync buffer is_last inside) calls) more c v = refl
  note-append (first (write_async buffer is_last) calls) more c v = refl

  start_stage-IsBusy : (c c' : Ctx C.State) → IsBusy c → start_stage c ≡ return c' → IsBusy c'
  unfolding start_stage
  start_stage-IsBusy c c' (alive, busy) e = (ground arith, ground arith)

  process_stage-IsBusy :
      (w : WorkData) (c c' : Ctx C.State) → IsBusy c → process_stage w c ≡ return c' → IsBusy c'
  unfolding process_stage
  process_stage-IsBusy w c c' (alive, busy) e = (ground arith, ground arith)

  finish_stage-IsBusy :
      (w : WorkData) (c c' : Ctx C.State) → IsBusy c → finish_stage w c ≡ return c' → IsBusy c'
  unfolding finish_stage
  finish_stage-IsBusy w c c' (alive, busy) e = (ground arith, ground arith)

  -- `ProcessShim` is its three stages.
  abbrev Stages : WorkData → Ctx C.State → Ctx C.State → Type 0
  Stages w c c' =
      (c1 c2 : Ctx C.State) × (start_stage c ≡ return c1)
      × (process_stage w c1 ≡ return c2)
      × (finish_stage w c2 ≡ return c')

  process_shim-Stages :
      (w : WorkData) (c c' : Ctx C.State) → process_shim C w c ≡ return c' → Stages w c c'
  unfolding process_shim start_stage process_stage finish_stage
  process_shim-Stages w c c' e =
      let ended : Ctx C.State → Ctx C.State = λ x. record x { work = processed w } in
      let (c0, e0, e1) = >>=-eq-return (process C w.chunk w.is_last c) _ e in
      let (s, g, e2) = >>=-eq-return (get_coder C c.coder) _ e0 in
      let (c1, f, e3) = >>=-eq-return (start_if_idle C c.state s c) _ e2 in
      let (s1, g1, e4) = >>=-eq-return (get_coder C c1.coder) _ e3 in
      let c2 = process_if_processing C w.chunk w.is_last c1.state s1 c1 in
      let (s2, g2, e5) = >>=-eq-return (get_coder C c2.coder) _ e4 in
      (
        c1,
        c2,
        ap (λ m. m >>= λ s. start_if_idle C c.state s c) g ∙ f,
        ap (λ m. m >>= λ s. return (process_if_processing C w.chunk w.is_last c1.state s c1)) g1,
        ap (λ m. m >>= λ s. return (ended (finish_if_finalizing C c2.state s c2))) g2
            ∙ ap (λ x. return (ended x)) (return_inj e5)
            ∙ e1,
      )

  -- A request that the pool has taken comes to the same whether `ProcessShim` is one step, followed
  -- by the calls that JavaScript makes meanwhile, or JavaScript makes them before, between and after the
  -- three stages of `Process`: the same context, or the same failed assertion.
  pub interleaved_lem :
      (s : C.State) (c : Ctx C.State) (w : WorkData) (k0 k1 k2 k3 : Calls)
      → Reach C s c
      → c.work ≡ queued w
      → interleaved k0 k1 k2 k3 w c
        ≡ (process_shim C w c >>= exec_all C (append (append (append k0 k1) k2) k3))
  unfolding interleaved
  interleaved_lem s c w k0 k1 k2 k3 r q =
      let (alive, goes, _) = pool_safe C s c w r q in
      let v : IsBusy c = (alive, (Reach-Inv C r).0.in_flight ∙ ap is_busy q) in
      let (c3, e) = returns-cases (process_shim C w c) goes in
      let (c1, c2, e1, e2, e3) = process_shim-Stages w c c3 e in
      let v1 = start_stage-IsBusy c c1 v e1 in
      let v2 = process_stage-IsBusy w c1 c2 v1 e2 in
      let v3 = finish_stage-IsBusy w c2 c3 v2 e3 in
      let k01 = append k0 k1 in
      let k012 = append k01 k2 in
      rw
        (
          exec_all-note k0 c v,
          note_comm k0 start_stage c c1 start_stage-noted e1,
          note-append k0 k1 c1 v1,
          note_comm k01 (process_stage w) c1 c2 (process_stage-noted w) e2,
          note-append k01 k2 c2 v2,
          note_comm k012 (finish_stage w) c2 c3 (finish_stage-noted w) e3,
          note-append k012 k3 c3 v3,
          e,
          exec_all-note (append k012 k3) c3 v3,
        )
        refl
