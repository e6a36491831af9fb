-- ===== src/Ownership.antt =====
-- Who owns an open device (addon/js/background/state_ops.js over the maps of
-- addon/js/background/state.js): the opens that each tab holds, the daemon sessions with their owners,
-- the document lifetimes, and the closes that are retried.
pub mod State
pub mod Lifetimes
pub mod Opens
pub mod Sessions
pub mod Purge
pub mod Cleanup
pub mod Traces
mod Tests
