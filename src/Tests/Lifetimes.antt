-- ===== src/Tests/Lifetimes.antt =====
-- Garbage collection after a close.
use node_vcdiff.Base.{Bool, true, false, none, ◌≡◌, refl}
use node_vcdiff.Codec.Dispatch.{AnyCoder}
use node_vcdiff.Ctx.Defs.{make_ctx, close, reset}
use node_vcdiff.Ctx.Calls.{close_call, exec}
use node_vcdiff.Ctx.Lifetime.{World, WorldReach, js, lose_dictionary, start, later, wrap, with_ctx}
use node_vcdiff.Ctx.Lifetime.Handles.{dictionary_leaks}
use node_vcdiff.Tests.Contexts.{waiting, fresh}
use node_vcdiff.Tests.Toy.{toy, toy_coder, toy_encoder}

abbrev in_write : World (AnyCoder toy)
in_write = record {
  ctx = waiting;
  freed = false;
  held = true;
  dictionary_held = false;
  dictionary_pinned = true;
  dictionary_freed = false;
}

abbrev after_close : World (AnyCoder toy)
after_close = record in_write { ctx = record fresh { coder = none } }

-- JavaScript loses the dictionary, and then writes or closes.
unaware :
    (careful : Bool)
    → WorldReach toy_coder false careful toy_encoder (record in_write { ctx = fresh })
unfolding wrap make_ctx
unaware careful = later start lose_dictionary

reach_after_close : WorldReach toy_coder false false toy_encoder after_close
unfolding exec close reset with_ctx
reach_after_close = later (unaware false) (js close_call after_close.ctx refl refl refl)

dictionary_leaks_example :
    (after_close.dictionary_pinned ≡ true) × (after_close.dictionary_freed ≡ false)
dictionary_leaks_example =
    dictionary_leaks toy_coder false false toy_encoder after_close refl reach_after_close
