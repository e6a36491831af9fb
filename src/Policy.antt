-- ===== src/Policy.antt =====
-- The `hid` feature of Permissions-Policy: the allowlists of addon/js/background/webrequest.js, the
-- policies of frame documents, and the answers of addon/js/background/messages.js.
pub mod Allowlists
pub mod Frames
mod Tests
