-- ===== src/Lib.antt =====
-- Verification of node-vcdiff, the binding of open-vcdiff for node.
--
-- The program has three layers. lib/vcdiff.js exports streams and functions. They call the addon,
-- which exports a constructor `Vcdiff` of contexts (`VcdCtx` in src/vcdiff.h and src/vcdiff.cc) and
-- a constructor `HashedDictionary` (src/vcd_hashed_dictionary.h, src/vcd_hashed_dictionary.cc). A
-- context owns a coder (`VcdCtx::Coder`), which is a `VcdEncoder` or a `VcdDecoder`
-- (src/vcd_encoder.cc, src/vcd_decoder.cc) over the codecs of open-vcdiff.
--
-- A stream buffers its chunks to windows and hands each window to its context by `write` or
-- `writeSync`. `writeSync` runs `Process`, which starts, feeds and finishes the coder by a state
-- machine, and returns the output. `write` queues `Process` on the thread pool of libuv. JavaScript
-- goes on meanwhile and may call any method, and the event loop runs `AfterShim` afterwards, which
-- calls `callback` or `onerror`. A `close` during a write is left pending, and the end of the write
-- carries it out.
--
-- Files and code:
--   Base                 names of the library, lists, tests; Base/Run: code that may fail an assert
--   Codec                `VcdCtx::Coder`, its errors and modes (src/vcdiff.h, src/vcdiff.cc)
--   Codec/OpenVcdiff     the classes and methods of open-vcdiff that the binding calls (a parameter)
--   Codec/Alone          open-vcdiff used on its own, and what it promises; Ctx/Session/Alone: the same
--                        through the coders
--   Codec/Encoder        `VcdEncoder` (src/vcd_encoder.h, src/vcd_encoder.cc)
--   Codec/Decoder        `VcdDecoder` (src/vcd_decoder.h, src/vcd_decoder.cc)
--   Codec/Dispatch       the virtual calls through `coder_`
--   Codec/Log            a coder that logs its calls, and the order that open-vcdiff allows
--   Ctx/Defs             the fields of `VcdCtx`, `Reset`, `Close`, `HasError`
--   Ctx/Process          `VcdCtx::Process`; Ctx/Process/Laws what it leaves alone
--   Ctx/Write            `Write`, `FinishWrite`, `CheckError`, `SendError`, `ProcessShim`, `AfterShim`
--   Ctx/Calls            the methods of the prototype, with the calls made inside `onerror`
--   Ctx/System           steps of JavaScript, pool and event loop, and the contexts they reach
--   Ctx/Invariant        the invariant, by calls and by steps
--   Ctx/Frame            what only `Process` can change
--   Ctx/Pool, Ctx/Close, Ctx/Finished, Ctx/Async, Ctx/Protocol
--                        thread pool, close, writes after the end, the two writes, order of calls
--   Ctx/Turn, Ctx/Ends   a request from the queue to the return of its callback
--   Ctx/Interleaved      the stages of `Process` on the pool, and JavaScript in between
--   Ctx/InBuffer         how long a context refers to its input
--   Ctx/Outputs          where the output of asynchronous writes is; Codec/Recorded: a coder that keeps it
--   Ctx/Heard            a context with the output that JavaScript was given, by writes of both kinds
--   Ctx/Several          several contexts over one event loop and one thread pool, as each sees it;
--                        Ctx/Several/Frame: what methods of some contexts leave alone
--   Ctx/Alive            a request keeps its context alive
--   Ctx/Lifetime         garbage collection: `VcdCtx::~VcdCtx`, `ObjectWrap`, the persistent handles
--   Ctx/Shared           garbage collection where several contexts share dictionaries
--   Ctx/Session          a sequence of writes against the direct use of the codec
--   Binding              `VcdCtx::New`, `VcdHashedDictionary::New`, the exported constants
--   Binding/ErrorKinds   which coder reports which error
--   Binding/Exports      `InitVcdiff`, `VcdCtx::Init`, `VcdHashedDictionary::Init`
--   Binding/Dictionaries  from a `HashedDictionary` to an encoder
--   Js/Number, Js/Outcome  numbers of JavaScript, exceptions and aborts
--   Js/Options           the constructors `Vcdiff`, `VcdiffEncoder`, `VcdiffDecoder` of lib/vcdiff.js
--   Js/Stream            `close`, `flush`, `_flush`, `_transform`, `_processChunk`
--   Js/Turn              what the callbacks of the context do to a stream, once a write is through
--   Js/Run               a whole stream: its chunks, calls of `flush` and its end, with the pool's turn
--                        after each;
--                        Js/Run/Closing: `close` during such a turn
--   Js/Events            the events 'close', 'end' and 'drain', and the callbacks of `close` and `flush`
--   Js/Sync              `vcdiffEncodeSync`, `vcdiffDecodeSync`, `vcdiffBufferSync`
--   Js/Collect           `vcdiffBuffer`, by the stream's events
--   Js/Buffered          `vcdiffEncode`, `vcdiffDecode` from the call to the callback
--   Js/Codes             `exports.codes` and the error object of `onerror`
--   Tests                concrete runs, over a codec that Tests/Toy defines
--
-- How the code is modelled:
--   - a context is a record of the fields of `VcdCtx`, passed from call to call; `events` lists the
--     callbacks that were entered;
--   - a method that has an `assert` gives a `Run`: binding.gyp does not define NDEBUG, so a failed
--     assertion ends the process. A method of lib/vcdiff.js gives an `Outcome`, which may also throw;
--   - a callback into JavaScript is an argument of the operation that enters it, and stands for
--     whatever the callback does to the context. In the step relation it is any finite list of calls,
--     whose own callbacks are lists of calls in turn;
--   - the operations that enter a callback are written once for any place that a context stands in, a
--     `Focus` (`write_in`, `send_error_in` and so on): alone (`write`, `send_error`), as one of several
--     contexts (`at`), which the callback may all use, or next to what JavaScript was given
--     (`listening`). In Ctx/Several all contexts are there from the start, in Ctx/Shared a step makes
--     each;
--   - `Process` on the pool is one step of `System`, and three in Ctx/Interleaved, with calls of
--     JavaScript in between. It reads only fields that nothing else changes while a write is in
--     progress;
--   - open-vcdiff is an argument, a record of its classes and methods. A theorem that relies on what
--     its headers document has that as a hypothesis;
--   - garbage collection is a step relation over a context and the JavaScript objects around it
--     (`World`), or over any number of contexts and dictionaries (`Shared`), where the contents of a
--     deleted context do not count any more. Whether V8 resets a persistent handle in its destructor is a parameter, `resets`;
--   - node hands a stream one chunk at a time and waits for the call back. What it documents of
--     `writableLength` is a hypothesis, `Announced`. Between two chunks the stream reacts to the
--     callbacks of its context, whose `events` are then taken off;
--   - a callback that `close` or `flush` is given is a number, by which it is counted. When node emits
--     'end' and 'drain', and when it calls back for a chunk, is any step of `EventsReach`. What a
--     callback does to the stream in turn is a later step;
--   - which events node's stream emits for what is pushed to it is a parameter of `run_buffer`; what
--     node documents of them is a hypothesis, `IsReadable`: all bytes can be read, in any pieces;
--   - no definition takes fuel: all recursion is on a list of calls, chunks or events.
--
-- Not modelled: open-vcdiff itself (src/third-party/open-vcdiff, a copy of another project); the
-- conversions of V8, node and libuv; node's stream.Transform, which decides when a
-- stream emits an event; numbers with a fraction; a caller that changes a buffer
-- while a write reads it.
pub mod Base
pub mod Codec
pub mod Ctx
pub mod Binding
pub mod Js
pub mod Tests
