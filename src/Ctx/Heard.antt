-- ===== src/Ctx/Heard.antt =====
-- A context together with the output that JavaScript was given: by `writeSync` as its result, and by
-- `callback` as its argument.
pub mod Busy
pub mod Methods
pub mod Erased
pub mod Accounts
use node_vcdiff.Base.{true, false, List, [], ◌∷◌, ◌++◌, Bytes, ◌≡◌}
use node_vcdiff.Base.Run.{Run, return, ◌>>=◌}
use node_vcdiff.Codec.{Coder}
use node_vcdiff.Ctx.Defs.{Ctx, Event, on_error, callback, WorkData, queued, processed, make_ctx}
use node_vcdiff.Ctx.Write.{
  Written, no_result, result, handle, Focus, write_in, after_shim_in, process_shim,
}
use node_vcdiff.Ctx.Calls.{
  Call, Calls, write_sync, write_async, close_call, nothing, first, close_method,
}

pub record Heard (S : Type 0) : Type 0 where
  pub heard : Bytes
  pub ctx : Ctx S

abbrev pub listening : {S : Type 0} → Focus S (Heard S)
listening = record { get = λ w. w.ctx; put = λ c w. record w { ctx = c } }

-- The output in the result of `writeSync`.
abbrev pub given : Written → Bytes
given (result out finished) = out
given no_result = []
given handle = []

-- The output among the arguments of the callback that was entered last.
abbrev pub argument : List Event → Bytes
argument [] = []
argument (on_error message errno ∷ []) = []
argument (callback out finished ∷ []) = out
argument (e ∷ e' ∷ events) = argument (e' ∷ events)

abbrev pub hear : {S : Type 0} → Bytes → Heard S → Heard S
hear out w = record w { heard = w.heard ++ out }

module _ (C : Coder) where
  abbrev pub hears_none : Heard C.State → Run (Heard C.State)
  hears_none w = return w

  unfoldable mutual
    unfolding write_in close_method

    pub hear_call : Call → Heard C.State → Run (Heard C.State)
    hear_call (write_sync buffer is_last inside) w =
        write_in C listening (hear_entered inside) buffer is_last false w >>= λ r.
        return (hear (given r.0) r.1)
    hear_call (write_async buffer is_last) w =
        write_in C listening hears_none buffer is_last true w >>= λ r. return r.1
    hear_call close_call w = close_method C w.ctx >>= λ c. return (record w { ctx = c })

    pub hear_calls : Calls → Heard C.State → Run (Heard C.State)
    hear_calls nothing w = return w
    hear_calls (first call calls) w = hear_call call w >>= hear_calls calls

    -- The body of a callback, which first reads its arguments.
    pub hear_entered : Calls → Heard C.State → Run (Heard C.State)
    hear_entered nothing w = return (hear (argument w.ctx.events) w)
    hear_entered (first call calls) w =
        hear_call call (hear (argument w.ctx.events) w) >>= hear_calls calls

  pub data HeardStep (w w' : Heard C.State) : Type 0 where
    js : (call : Call) → hear_call call w ≡ return w' → HeardStep w w'
    pool :
        (request : WorkData) (c : Ctx C.State)
        → w.ctx.work ≡ queued request
        → process_shim C request w.ctx ≡ return c
        → w' ≡ record w { ctx = c }
        → HeardStep w w'
    loop :
        (request : WorkData) (inside : Calls)
        → w.ctx.work ≡ processed request
        → after_shim_in listening (hear_entered inside) true w ≡ return w'
        → HeardStep w w'

  pub data HeardReach (s : C.State) : Heard C.State → Type 0 where
    start : HeardReach s (record { heard = []; ctx = make_ctx s })
    later : {w w' : Heard C.State} → HeardReach s w → HeardStep w w' → HeardReach s w'
