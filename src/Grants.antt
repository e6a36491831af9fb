-- ===== src/Grants.antt =====
-- The persistent grants: addon/js/background/storage.js, and the revocation of addon/js/background/
-- messages.js.
pub mod Stores
pub mod Allowed
pub mod Revoke
mod Tests
