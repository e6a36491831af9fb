-- ===== src/Bridge.antt =====
-- The bridge of the isolated content script (addon/js/content/isolated).
pub mod Control
pub mod Planes
pub mod Keys
pub mod Data
pub mod Allowed
mod Tests
