-- ===== src/Ctx/Process/Output.antt =====
-- What `VcdCtx::Process` adds to the output buffer is what the coder puts out.
use node_vcdiff.Base.{
  Bool, Option, none, some, [], ◌++◌, Bytes, ◌≡◌, subst, arith, append_assoc, ◌∙◌,
}
use node_vcdiff.Base.Run.{return, >>=-eq-return}
use node_vcdiff.Codec.{Coder}
use node_vcdiff.Codec.Recorded.{recorded}
use node_vcdiff.Ctx.Defs.{Ctx, State, idle, processing, finalizing, done}
use node_vcdiff.Ctx.Process.{
  process, start_if_idle, process_if_processing, finish_if_finalizing, get_coder,
}
use node_vcdiff.Ctx.Session.{IsAppending}

module _ (C : Coder) (a : IsAppending C) (sent : Bytes) where
  -- What was delivered, `sent`, and what waits in the output buffer are all that the coder put out.
  abbrev pub Accounted : Option (C.State × Bytes) → Bytes → Type 0
  Accounted none out = Unit {0}
  Accounted (some (s, total)) out = sent ++ out ≡ total

  start-Accounted :
      (state : State) (s : C.State × Bytes) (c c' : Ctx (C.State × Bytes))
      → c.coder ≡ some s
      → Accounted c.coder c.output_buffer
      → start_if_idle (recorded C) state s c ≡ return c'
      → Accounted c'.coder c'.output_buffer
  unfolding start_if_idle
  start-Accounted idle s c c' e h r = ground (
    arith,
    a.start_appends s.0 c.output_buffer,
    append_assoc sent c.output_buffer (C.start s.0 []).1,
  )
  start-Accounted processing s c c' e h r = ground arith
  start-Accounted finalizing s c c' e h r = ground arith
  start-Accounted done s c c' e h r = ground arith

  process-step-Accounted :
      (chunk : Bytes) (is_last : Bool) (state : State) (s : C.State × Bytes)
      (c : Ctx (C.State × Bytes))
      → c.coder ≡ some s
      → Accounted c.coder c.output_buffer
      → (let c' = process_if_processing (recorded C) chunk is_last state s c in
          Accounted c'.coder c'.output_buffer)
  unfolding process_if_processing
  process-step-Accounted chunk is_last processing s c e h = ground (
    arith,
    a.process_appends s.0 chunk c.output_buffer,
    append_assoc sent c.output_buffer (C.process s.0 chunk []).1,
  )
  process-step-Accounted chunk is_last idle s c e h = h
  process-step-Accounted chunk is_last finalizing s c e h = h
  process-step-Accounted chunk is_last done s c e h = h

  finish-Accounted :
      (state : State) (s : C.State × Bytes) (c : Ctx (C.State × Bytes))
      → c.coder ≡ some s
      → Accounted c.coder c.output_buffer
      → (let c' = finish_if_finalizing (recorded C) state s c in
          Accounted c'.coder c'.output_buffer)
  unfolding finish_if_finalizing
  finish-Accounted finalizing s c e h = ground (
    arith,
    a.finish_appends s.0 c.output_buffer,
    append_assoc sent c.output_buffer (C.finish s.0 []).1,
  )
  finish-Accounted idle s c e h = h
  finish-Accounted processing s c e h = h
  finish-Accounted done s c e h = h

  get_coder-some :
      (coder : Option (C.State × Bytes)) (s : C.State × Bytes)
      → get_coder (recorded C) coder ≡ return s
      → coder ≡ some s
  get_coder-some coder s e = ground arith

  pub process-Accounted :
      (chunk : Bytes) (is_last : Bool) (c c' : Ctx (C.State × Bytes))
      → Accounted c.coder c.output_buffer
      → process (recorded C) chunk is_last c ≡ return c'
      → Accounted c'.coder c'.output_buffer
  unfolding process
  process-Accounted chunk is_last c c' h e =
      let (s, g, e1) = >>=-eq-return (get_coder (recorded C) c.coder) _ e in
      let (c1, f, e2) = >>=-eq-return (start_if_idle (recorded C) c.state s c) _ e1 in
      let h1 = start-Accounted c.state s c c1 (get_coder-some c.coder s g) h f in
      let (s1, g1, e3) = >>=-eq-return (get_coder (recorded C) c1.coder) _ e2 in
      let c2 = process_if_processing (recorded C) chunk is_last c1.state s1 c1 in
      let h2 =
        process-step-Accounted chunk is_last c1.state s1 c1 (get_coder-some c1.coder s1 g1) h1 in
      let (s2, g2, e4) = >>=-eq-return (get_coder (recorded C) c2.coder) _ e3 in
      let h3 = finish-Accounted c2.state s2 c2 (get_coder-some c2.coder s2 g2) h2 in
      let same : finish_if_finalizing (recorded C) c2.state s2 c2 ≡ c' = cc in
      subst (λ x. Accounted x.coder x.output_buffer) same h3

module _ (C : Coder) (a : IsAppending C) where
  -- Output may move from the buffer to what was delivered.
  pub Accounted-moved :
      (coder : Option (C.State × Bytes)) (sent sent' out out' : Bytes)
      → sent' ++ out' ≡ sent ++ out
      → Accounted C a sent coder out
      → Accounted C a sent' coder out'
  Accounted-moved none sent sent' out out' e h = tt
  Accounted-moved (some (s, total)) sent sent' out out' e h = e ∙ h
