-- ===== src/Ctx.antt =====
-- `VcdCtx` (src/vcdiff.h, src/vcdiff.cc): the native object behind a JavaScript `Vcdiff` handle.
-- Its children hold the operations, the calls that JavaScript makes, and the proofs.
pub mod Defs
pub mod Process
pub mod Write
pub mod Calls
pub mod System
pub mod Invariant
pub mod Frame
pub mod Alive
pub mod Pool
pub mod Close
pub mod Ends
pub mod Finished
pub mod Async
pub mod Turn
pub mod Session
pub mod Protocol
pub mod Lifetime
pub mod Outputs
pub mod Several
pub mod Shared
pub mod Interleaved
pub mod InBuffer
pub mod Heard
