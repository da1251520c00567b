-- ===== src/Ctx/Defs.antt =====
-- The state of a `VcdCtx` and the operations that run no codec: constructor, `Reset`, `Close`,
-- `HasError`.
use node_vcdiff.Base.{
  ℕ, String, Bool, true, false, not, Option, none, some, List, [], ◌∷◌, ◌++◌, Bytes, if◌then◌else◌,
}
use node_vcdiff.Codec.{Error, ok, is_ok}

-- `VcdCtx::State`
pub data State : Type 0 where
  idle processing finalizing done : State

pub State-discrete : Discrete State
State-discrete = hlevel

-- `state_ == State::DONE`
abbrev pub is_done : State → Bool
is_done done = true
is_done _ = false

abbrev pub is_idle : State → Bool
is_idle idle = true
is_idle _ = false

abbrev pub is_finalizing : State → Bool
is_finalizing finalizing = true
is_finalizing _ = false

-- `VcdCtx::WorkData`, less the pointers back to the context and its isolate.
pub record WorkData : Type 0 where
  pub chunk : Bytes
  pub is_last : Bool

-- `work_req_` as libuv sees it: not queued, waiting for or in the thread pool, or run and waiting
-- for the event loop. The second and third carry `work_req_.data`.
pub data Work : Type 0 where
  no_work : Work
  queued : WorkData → Work
  processed : WorkData → Work

abbrev pub is_busy : Work → Bool
is_busy no_work = false
is_busy _ = true

-- What `node::MakeCallback` hands to the handle's JavaScript properties.
pub data Event : Type 0 where
  on_error : String → ℕ → Event
  callback : Bytes → Bool → Event

-- The fields of `VcdCtx`. `S` is the state of the object that `coder_` owns. `events` is no field
-- of the class: it lists the callbacks made so far, oldest first.
pub record Ctx (S : Type 0) : Type 0 where
  pub coder : Option S
  pub in_buffer : Option Bytes
  pub work : Work
  pub write_in_progress : Bool
  pub pending_close : Bool
  pub state : State
  pub err : Error
  pub output_buffer : Bytes
  pub events : List Event

module _ {S : Type 0} where
  -- `VcdCtx::VcdCtx`, with the initialisers of the class.
  unfoldable pub make_ctx : S → Ctx S
  make_ctx coder = record {
    coder = some coder;
    in_buffer = none;
    work = no_work;
    write_in_progress = false;
    pending_close = false;
    state = idle;
    err = ok;
    output_buffer = [];
    events = [];
  }

  -- `VcdCtx::Reset`
  unfoldable pub reset : Ctx S → Ctx S
  reset c = record c { pending_close = false; write_in_progress = false; coder = none }

  -- `VcdCtx::Close()`
  unfoldable pub close : Ctx S → Ctx S
  unfolding reset
  close c = if c.write_in_progress then record c { pending_close = true } else reset c

  -- `VcdCtx::HasError`
  abbrev pub has_error : Ctx S → Bool
  has_error c = not (is_ok c.err)

  -- `node::MakeCallback` on the handle, before the JavaScript function runs.
  abbrev pub emit : Event → Ctx S → Ctx S
  emit e c = record c { events = c.events ++ e ∷ [] }
