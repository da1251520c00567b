-- ===== src/Ctx/Several.antt =====
-- Several contexts in one program. The callbacks of one may call the methods of any other, and the
-- thread pool works on as many at once as it has threads.
pub mod Runs
pub mod Writes
pub mod Shims
pub mod Projection
pub mod Frame
pub mod Alive
use node_vcdiff.Base.{ℕ, Bool, true, false, Bytes, ◌==◌, ◌≡◌, if◌then◌else◌}
use node_vcdiff.Base.Run.{Run, return, ◌>>=◌}
use node_vcdiff.Codec.{Coder}
use node_vcdiff.Ctx.Defs.{Ctx, WorkData, queued, processed, make_ctx}
use node_vcdiff.Ctx.Write.{Focus, write_in, after_shim_in, process_shim}
use node_vcdiff.Ctx.Calls.{close_method}

-- The contexts by number. They are there from the start: one that is not made yet gets no calls.
abbrev pub Contexts : Type 0 → Type 0
Contexts S = ℕ → Ctx S

module _ {S : Type 0} where
  unfoldable pub set : ℕ → Ctx S → Contexts S → Contexts S
  set i c all j = if j == i then c else all j

  abbrev pub at : ℕ → Focus S (Contexts S)
  at i = record { get = λ all. all i; put = set i }

mutual
  -- `writeSync(isLast, buffer)` on a context, with the calls made inside `onerror`; `write(isLast,
  -- buffer)`; `close()`.
  pub data MethodCall : Type 0 where
    sync : ℕ → Bytes → Bool → MethodCalls → MethodCall
    async : ℕ → Bytes → Bool → MethodCall
    shut : ℕ → MethodCall

  pub data MethodCalls : Type 0 where
    stop : MethodCalls
    call : MethodCall → MethodCalls → MethodCalls

module _ (C : Coder) where
  abbrev pub enters_none : Contexts C.State → Run (Contexts C.State)
  enters_none all = return all

  unfoldable mutual
    unfolding write_in close_method

    pub exec_call : MethodCall → Contexts C.State → Run (Contexts C.State)
    exec_call (sync i buffer is_last inside) all =
        write_in C (at i) (exec_calls inside) buffer is_last false all >>= λ r. return r.1
    exec_call (async i buffer is_last) all =
        write_in C (at i) enters_none buffer is_last true all >>= λ r. return r.1
    exec_call (shut i) all = close_method C (all i) >>= λ c. return (set i c all)

    pub exec_calls : MethodCalls → Contexts C.State → Run (Contexts C.State)
    exec_calls stop all = return all
    exec_calls (call first rest) all = exec_call first all >>= exec_calls rest

  -- A thread of the pool, on the request of one context.
  unfoldable pub pool_on : ℕ → WorkData → Contexts C.State → Run (Contexts C.State)
  unfolding process_shim
  pool_on i w all = process_shim C w (all i) >>= λ c. return (set i c all)

  pub data SeveralStep (all all' : Contexts C.State) : Type 0 where
    js : (c : MethodCall) → exec_call c all ≡ return all' → SeveralStep all all'
    pool :
        (i : ℕ) (w : WorkData)
        → (all i).work ≡ queued w
        → pool_on i w all ≡ return all'
        → SeveralStep all all'
    loop :
        (i : ℕ) (w : WorkData) (inside : MethodCalls)
        → (all i).work ≡ processed w
        → after_shim_in (at i) (exec_calls inside) true all ≡ return all'
        → SeveralStep all all'

  -- `s` gives each context its coder.
  pub data SeveralReach (s : ℕ → C.State) : Contexts C.State → Type 0 where
    start : SeveralReach s (λ i. make_ctx (s i))
    later :
        {all all' : Contexts C.State}
        → SeveralReach s all
        → SeveralStep all all'
        → SeveralReach s all'
