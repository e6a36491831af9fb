-- ===== src/Native.antt =====
-- The Native Messaging side of the background (addon/js/background/nm.js and content-ports.js).
pub mod Client
pub mod Frames
pub mod Posts
pub mod Devices
mod Tests
