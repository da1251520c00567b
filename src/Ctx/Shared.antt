-- ===== src/Ctx/Shared.antt =====
-- Garbage collection where several contexts share dictionaries: the encoders and decoders of different
-- contexts may hold persistent handles to one JavaScript object, and work on its memory.
pub mod Laws
pub mod Safety
use node_vcdiff.Base.{ℕ, Bool, true, false, not, ◌&&◌, ◌||◌, ◌==◌, is_some, ◌≡◌, if◌then◌else◌}
use node_vcdiff.Base.Run.{return}
use node_vcdiff.Codec.{Coder}
use node_vcdiff.Ctx.Defs.{WorkData, queued, processed, make_ctx}
use node_vcdiff.Ctx.Write.{after_shim_in}
use node_vcdiff.Ctx.Several.{Contexts, at, MethodCall, MethodCalls, exec_call, exec_calls, pool_on}
use node_vcdiff.Ctx.Several.Frame.{is_on, are_on}

-- The contexts and the JavaScript objects around them, by number.
pub record Shared (S : Type 0) : Type 0 where
  pub all : Contexts S
  -- Of each context: whether it was made, whether it was deleted, whether JavaScript can reach its
  -- handle, which dictionary it was made with, and whether its coder's persistent handle is there.
  pub made : ℕ → Bool
  pub freed : ℕ → Bool
  pub held : ℕ → Bool
  pub uses : ℕ → ℕ
  pub pinned : ℕ → Bool
  -- Of each dictionary: whether JavaScript can reach it other than through a coder, and whether it was
  -- collected.
  pub dictionary_held : ℕ → Bool
  pub dictionary_freed : ℕ → Bool

abbrev pub put : {A : Type 0} → ℕ → A → (ℕ → A) → ℕ → A
put i a f j = if j == i then a else f j

module _ {S : Type 0} where
  -- Before any context is made, with the dictionaries in the hands of JavaScript.
  unfoldable pub make_shared : (ℕ → S) → Shared S
  make_shared s = record {
    all = λ i. make_ctx (s i);
    made = λ i. false;
    freed = λ i. false;
    held = λ i. false;
    uses = λ i. 0;
    pinned = λ i. false;
    dictionary_held = λ d. true;
    dictionary_freed = λ d. false;
  }

  -- `VcdCtx::New` with a dictionary.
  unfoldable pub new_with : ℕ → ℕ → Shared S → Shared S
  new_with i d w = record w {
    made = put i true w.made;
    held = put i true w.held;
    uses = put i d w.uses;
    pinned = put i true w.pinned;
  }

  -- The contexts after some methods. Where a coder was destroyed, so was its persistent handle;
  -- `resets` says whether V8 resets a handle in its destructor.
  unfoldable pub with_all : Bool → Shared S → Contexts S → Shared S
  with_all resets w all = record w {
    all = all;
    pinned = λ i. w.pinned i && (is_some (all i).coder || not resets);
  }

  -- `VcdCtx::~VcdCtx`. What was in the memory does not count any more.
  unfoldable pub delete : Bool → ℕ → Shared S → Shared S
  delete resets i w = record w {
    freed = put i true w.freed;
    pinned = put i (w.pinned i && not resets) w.pinned;
  }

module _ (C : Coder) (resets careful : Bool) where
  -- JavaScript calls only methods of contexts that it can reach. If it is `careful` it loses no
  -- handle during a write.
  pub data SharedStep (w : Shared C.State) : Shared C.State → Type 0 where
    make : (i d : ℕ) → w.made i ≡ false → w.dictionary_held d ≡ true → SharedStep w (new_with i d w)
    js :
        (m : MethodCall) (all : Contexts C.State)
        → is_on w.held m ≡ true
        → exec_call C m w.all ≡ return all
        → SharedStep w (with_all resets w all)
    pool :
        (i : ℕ) (request : WorkData) (all : Contexts C.State)
        → w.freed i ≡ false
        → (w.all i).work ≡ queued request
        → pool_on C i request w.all ≡ return all
        → SharedStep w (with_all resets w all)
    loop :
        (i : ℕ) (request : WorkData) (inside : MethodCalls) (all : Contexts C.State)
        → w.freed i ≡ false
        → (w.all i).work ≡ processed request
        → are_on w.held inside ≡ true
        → after_shim_in (at i) (exec_calls C inside) true w.all ≡ return all
        → SharedStep w (with_all resets w all)
    lose_handle :
        (i : ℕ)
        → (careful ≡ true → (w.all i).write_in_progress ≡ false)
        → SharedStep w (record w { held = put i false w.held })
    lose_dictionary :
        (d : ℕ) → SharedStep w (record w { dictionary_held = put d false w.dictionary_held })
    collect_handle :
        (i : ℕ)
        → w.made i ≡ true
        → w.held i ≡ false
        → w.freed i ≡ false
        → SharedStep w (delete resets i w)
    collect_dictionary :
        (d : ℕ)
        → w.dictionary_held d ≡ false
        → ((i : ℕ) → (w.uses i == d) ≡ true → w.pinned i ≡ false)
        → SharedStep w (record w { dictionary_freed = put d true w.dictionary_freed })

  pub data SharedReach (s : ℕ → C.State) : Shared C.State → Type 0 where
    start : SharedReach s (make_shared s)
    later : {w w' : Shared C.State} → SharedReach s w → SharedStep w w' → SharedReach s w'
