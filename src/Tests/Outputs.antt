-- ===== src/Tests/Outputs.antt =====
-- The end of an asynchronous write.
use node_vcdiff.Base.{true, false, ◌≡◌, refl}
use node_vcdiff.Base.Run.{return}
use node_vcdiff.Codec.Dispatch.{AnyCoder}
use node_vcdiff.Ctx.Defs.{Ctx, is_busy}
use node_vcdiff.Ctx.Write.{process_shim, after_shim}
use node_vcdiff.Ctx.Calls.{close_call, nothing, first, exec_all}
use node_vcdiff.Ctx.Ends.{write_ends}
use node_vcdiff.Tests.Contexts.{request, waiting, reach_waiting}
use node_vcdiff.Tests.Toy.{toy, toy_coder, toy_encoder}

write_ends_example :
    (c1 c2 : Ctx (AnyCoder toy)) × (process_shim toy_coder request waiting ≡ return c1)
    × (after_shim (exec_all toy_coder (first close_call nothing)) true c1 ≡ return c2)
    × (c2.write_in_progress ≡ false)
    × (is_busy c2.work ≡ false)
    × (c2.pending_close ≡ false)
write_ends_example =
    write_ends toy_coder toy_encoder waiting request (first close_call nothing) reach_waiting refl
      refl
