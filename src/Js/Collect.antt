-- ===== src/Js/Collect.antt =====
-- `vcdiffBuffer` of lib/vcdiff.js, which `vcdiffEncode` and `vcdiffDecode` call: it collects what can
-- be read from a stream, and calls back at its end or at its error.
pub mod Laws
use node_vcdiff.Base.{
  ℕ, ◌+◌, Bool, true, false, not, List, [], ◌∷◌, ◌++◌, Bytes, length, if◌then◌else◌,
}
use node_vcdiff.Codec.OpenVcdiff.{OpenVcdiff}
use node_vcdiff.Js.Options.{Vcdiff}
use node_vcdiff.Js.Outcome.{
  Exception, Outcome, returned, throw_if, ◌>>=◌, ◌>>◌, callback_not_a_function,
}
use node_vcdiff.Js.Stream.{concat, close}
use node_vcdiff.Js.Stream as Stream

-- A call of `callback`: `callback(err)` or `callback(null, buf)`.
pub data Reply : Type 0 where
  failed : Exception → Reply
  completed : Bytes → Reply

-- An event of the stream: 'readable', with the chunks that `read` then gives until it gives null; an
-- 'error' that `onerror` of the handle emits; 'end'.
pub data Emitted : Type 0 where
  readable : List Bytes → Emitted
  error : Exception → Emitted
  end : Emitted

module _ (V : OpenVcdiff) where
  -- The variables that the closures share, which of the listeners are on the stream, and the calls of
  -- `callback` so far, oldest first. The listener on 'error' always is.
  pub record Collector : Type 0 where
    pub engine : Vcdiff V
    pub buffers : List Bytes
    pub nread : ℕ
    pub end_listener : Bool
    pub readable_listener : Bool
    pub replies : List Reply

  -- `flow`, given what `read` gives until it gives null.
  unfoldable pub flow : List Bytes → Collector → Collector
  flow [] c = record c { readable_listener = true }
  flow (chunk ∷ chunks) c =
      flow chunks (record c { buffers = c.buffers ++ chunk ∷ []; nread = c.nread + length chunk })

  -- `onError`
  unfoldable pub on_error : Exception → Collector → Collector
  on_error err c = record c {
    end_listener = false;
    readable_listener = false;
    replies = c.replies ++ failed err ∷ [];
  }

  -- `onEnd`
  unfoldable pub on_end : Collector → Outcome Collector
  unfolding concat close
  on_end c = do
    let buf = concat c.buffers c.nread
    engine ← close V c.engine
    returned (record c { engine = engine; buffers = []; replies = c.replies ++ completed buf ∷ [] })

  -- An event enters the listeners that are there for it. `once` takes a listener off before it enters
  -- it. `onerror` changes the stream before it emits the error. On 'end' the stream's own listener,
  -- `this.close` of the constructor, comes first, and stays on after an error.
  unfoldable pub dispatch : Emitted → Collector → Outcome Collector
  unfolding flow on_error on_end close Stream.on_error
  dispatch (readable chunks) c =
      returned
        (if c.readable_listener then flow chunks (record c { readable_listener = false }) else c)
  dispatch (error err) c =
      returned (on_error err (record c { engine = Stream.on_error V c.engine }))
  dispatch end c = do
    engine ← close V c.engine
    let c' = record c { engine = engine }
    (if c.end_listener then on_end c' else returned c')

  unfoldable pub dispatch_all : List Emitted → Collector → Outcome Collector
  unfolding dispatch
  dispatch_all [] c = returned c
  dispatch_all (event ∷ events) c = dispatch event c >>= dispatch_all events

  -- `vcdiffBuffer`, less `engine.end(buffer)`, which hands the data to the stream. `is_function` is
  -- `callback instanceof Function`, and `chunks` what the first `flow` reads.
  unfoldable pub vcdiff_buffer : Bool → List Bytes → Vcdiff V → Outcome Collector
  unfolding flow
  vcdiff_buffer is_function chunks engine = do
    throw_if (not is_function) callback_not_a_function
    returned (
        flow chunks (record {
          engine = engine;
          buffers = [];
          nread = 0;
          end_listener = true;
          readable_listener = false;
          replies = [];
        }))
