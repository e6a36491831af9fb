-- ===== src/Bootstrap.antt =====
-- The bootstrap gate of a page, createBootstrapGate of addon/js/content/isolated/bootstrap-lifetime.js,
-- for one source window. A port is a number; the identities, their tests and what the gate's dependencies
-- answer in a turn are parameters, as they are in the code.
pub mod Candidates
pub mod Gate
mod Tests
