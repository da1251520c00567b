-- ===== src/Tests/Several.antt =====
-- Two contexts: a callback of the first writes to the second.
use node_vcdiff.Base.{true, false, [], ◌∷◌, refl}
use node_vcdiff.Base.Run.{Run, return, abort}
use node_vcdiff.Codec.Encoder
use node_vcdiff.Codec.Dispatch
use node_vcdiff.Codec.Dispatch.{AnyCoder}
use node_vcdiff.Ctx.Defs.{WorkData, make_ctx}
use node_vcdiff.Ctx.Write.{after_shim_in}
use node_vcdiff.Ctx.System.{Reach}
use node_vcdiff.Ctx.Several.{
  Contexts, set, at, sync, async, shut, stop, call, exec_call, exec_calls, pool_on, SeveralReach,
  js, pool, loop, start, later,
}
use node_vcdiff.Ctx.Several.Projection.{SeveralReach-Reach}
use node_vcdiff.Tests.Toy.{toy, toy_coder, toy_encoder}

abbrev pub All : Type 0
All = Contexts (AnyCoder toy)

abbrev fresh_all : All
fresh_all i = make_ctx toy_encoder

-- Where a run that returns leads to.
abbrev after : Run All → All
after (return all) = all
after (abort e) = fresh_all

abbrev one : WorkData
one = record { chunk = 1 ∷ []; is_last = false }

abbrev pub two : WorkData
two = record { chunk = 2 ∷ []; is_last = true }

abbrev pub queued_first : All
queued_first = after (exec_call toy_coder (async 0 (1 ∷ []) false) fresh_all)

abbrev worked_first : All
worked_first = after (pool_on toy_coder 0 one queued_first)

-- The callback of the first context writes to the second and closes the first.
abbrev called_back : All
called_back = after (
    after_shim_in (at 0)
      (exec_calls toy_coder (call (sync 1 (3 ∷ []) false stop) (call (shut 0) stop))) true
      worked_first)

abbrev pub queued_both : All
queued_both = after (exec_call toy_coder (async 1 (2 ∷ []) true) queued_first)

reach_first : SeveralReach toy_coder (λ i. toy_encoder) queued_first
unfolding exec_call make_ctx
reach_first = later start (js (async 0 (1 ∷ []) false) refl)

reach_called_back : SeveralReach toy_coder (λ i. toy_encoder) called_back
unfolding exec_call exec_calls pool_on make_ctx set after_shim_in Dispatch.start Dispatch.process
    Encoder.start Encoder.process
reach_called_back =
    later (later reach_first (pool 0 one refl refl))
      (loop 0 one (call (sync 1 (3 ∷ []) false stop) (call (shut 0) stop)) refl refl)

SeveralReach-Reach_example : Reach toy_coder toy_encoder (called_back 1)
SeveralReach-Reach_example =
    SeveralReach-Reach toy_coder (λ i. toy_encoder) called_back reach_called_back 1
