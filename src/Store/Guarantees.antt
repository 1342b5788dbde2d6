-- ===== src/Store/Guarantees.antt =====
-- What the store promises, after any sequence of calls.
pub mod Exclusive
pub mod Latch
pub mod Life
pub mod Evidence
pub mod Ownership
pub mod Cursors
pub mod Replay
pub mod Finish
pub mod Sending
pub mod Broadcasting
