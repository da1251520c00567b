-- ===== src/Tests/Shared.antt =====
-- Two contexts made with one dictionary, which JavaScript then loses.
use node_vcdiff.Base.{ℕ, true, false, [], ◌∷◌, ◌≡◌, refl}
use node_vcdiff.Base.Run.{returns}
use node_vcdiff.Codec.Dispatch.{AnyCoder}
use node_vcdiff.Ctx.Defs.{make_ctx}
use node_vcdiff.Ctx.Several.{async, set, exec_call, pool_on}
use node_vcdiff.Ctx.Several.Frame.{is_on}
use node_vcdiff.Ctx.Shared.{
  Shared, put, make_shared, new_with, with_all, SharedReach, make, js, lose_dictionary, start,
  later,
}
use node_vcdiff.Ctx.Shared.Safety.{shared_memory_safe}
use node_vcdiff.Tests.Several.{two, queued_first, queued_both}
use node_vcdiff.Tests.Toy.{toy, toy_coder, toy_encoder}

abbrev SharedToy : Type 0
SharedToy = Shared (AnyCoder toy)

abbrev encoders : ℕ → AnyCoder toy
encoders i = toy_encoder

abbrev one_made : SharedToy
one_made = new_with 0 7 (make_shared encoders)

abbrev two_made : SharedToy
two_made = new_with 1 7 one_made

abbrev lose : ℕ → SharedToy → SharedToy
lose d w = record w { dictionary_held = put d false w.dictionary_held }

abbrev both_writing : SharedToy
both_writing = lose 7 (with_all true (with_all true two_made queued_first) queued_both)

reach_both_writing : SharedReach toy_coder true true encoders both_writing
unfolding make_shared new_with with_all exec_call make_ctx is_on set
reach_both_writing =
    let r1 = later (later start (make 0 7 refl refl)) (make 1 7 refl refl) in
    let r2 = later r1 (js (async 0 (1 ∷ []) false) queued_first refl refl) in
    let r3 = later r2 (js (async 1 (2 ∷ []) true) queued_both refl refl) in
    later r3 (lose_dictionary 7)

shared_memory_safe_example :
    (both_writing.freed 1 ≡ false)
    × (both_writing.dictionary_freed (both_writing.uses 1) ≡ false)
    × (returns (pool_on toy_coder 1 two both_writing.all) ≡ true)
unfolding make_shared new_with with_all set make_ctx exec_call
shared_memory_safe_example =
    shared_memory_safe toy_coder true encoders both_writing 1 two reach_both_writing refl
