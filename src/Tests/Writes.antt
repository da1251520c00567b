-- ===== src/Tests/Writes.antt =====
-- Writes to one context: after an error, and `write` against `writeSync`.
use node_vcdiff.Base.{true, false, none, some, [], ◌∷◌, ◌≡◌, refl}
use node_vcdiff.Base.Run.{return, ◌>>=◌}
use node_vcdiff.Codec.{decode_error, get_error_string, error_code}
use node_vcdiff.Codec.Dispatch.{AnyCoder}
use node_vcdiff.Ctx.Defs.{Ctx, done, on_error, close}
use node_vcdiff.Ctx.Write.{no_result, write}
use node_vcdiff.Ctx.Calls.{nothing, first, close_call, exec_all}
use node_vcdiff.Ctx.Invariant.{Inv}
use node_vcdiff.Ctx.Invariant.Steps.{Reach-Inv}
use node_vcdiff.Ctx.Finished.{write_after_error}
use node_vcdiff.Ctx.Async.{async_turn, async_turn_lem, announce}
use node_vcdiff.Tests.Toy.{toy, toy_coder, toy_decoder}
use node_vcdiff.Tests.Contexts.{fresh, reach_fresh}

-- A context whose coder failed.
abbrev broken : Ctx (AnyCoder toy)
broken = record fresh { coder = some toy_decoder; state = done; err = decode_error }

broken-Inv : Inv broken
broken-Inv = record {
  in_flight = refl;
  alive = λ h. cc;
  held = λ w h. cc;
  fresh = λ h. refl;
  begun = λ w h. cc;
  settled = refl;
  failed = λ h. refl;
  delivered = λ h k. refl;
}

-- `onerror` closes the context, and `writeSync` carries that out.
write_after_error_example :
    write toy_coder (exec_all toy_coder (first close_call nothing)) (5 ∷ []) true false broken
    ≡ return (
      no_result,
      record broken {
        coder = none;
        in_buffer = some (5 ∷ []);
        events = on_error (get_error_string decode_error) (error_code decode_error) ∷ [];
      },
    )
unfolding exec_all close
write_after_error_example =
    write_after_error toy_coder (exec_all toy_coder (first close_call nothing)) broken (5 ∷ []) true
      broken-Inv (refl, refl, refl) refl

fresh-Inv : Inv fresh
fresh-Inv = (Reach-Inv toy_coder reach_fresh).0

async_turn_lem_example : async_turn toy_coder (1 ∷ []) true fresh ≡ (
    write toy_coder (exec_all toy_coder nothing) (1 ∷ []) true false fresh >>= λ r.
    return (announce toy_coder r))
async_turn_lem_example = async_turn_lem toy_coder (1 ∷ []) true fresh fresh-Inv (refl, refl, refl)
