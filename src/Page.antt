-- ===== src/Page.antt =====
-- A HID device in the page, addon/js/content/main/index.js: its state, its ports and data planes, the
-- promises of its reports, and the calls of the HIDDevice interface. Each `await` ends a stage; the
-- stages are operations of their own, and the answers they wait for are arguments.
pub mod State
pub mod Ports
pub mod Planes
pub mod Reports
pub mod Calls
mod Tests
