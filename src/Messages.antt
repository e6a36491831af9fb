-- ===== src/Messages.antt =====
-- The messages of content scripts that open, use and close devices (addon/js/background/messages.js).
pub mod Opening
pub mod Access
pub mod Pairing
pub mod Destroyed
mod Tests
