-- ===== src/Tests.antt =====
-- Concrete runs, and the theorems at inputs that meet their hypotheses.
mod Toy
mod Contexts
mod Writes
mod Sessions
mod Streams
mod Endings
mod Runs
mod Dictionaries
mod Outputs
mod Accounts
mod Lifetimes
mod Exports
mod Buffered
mod Closings
mod Events
mod Several
mod Shared
