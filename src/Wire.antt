-- ===== src/Wire.antt =====
-- The binary frames of the data plane (addon/js/utils/wire-format.js).
pub mod Reports
pub mod Control
