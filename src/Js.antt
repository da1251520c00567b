-- ===== src/Js.antt =====
-- lib/vcdiff.js: the streams and functions that the package exports, on top of the addon.
pub mod Number
pub mod Outcome
pub mod Options
pub mod Stream
pub mod Turn
pub mod Run
pub mod Sync
pub mod Collect
pub mod Buffered
pub mod Codes
pub mod Events
