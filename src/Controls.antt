-- ===== src/Controls.antt =====
-- The switches and sliders of the "Technik" page (src/backend/src/controls.rs).
pub mod Types
pub mod Pwm
pub mod Sysfs
pub mod Config
pub mod Board
pub mod Chip
pub mod Output
pub mod Hub
pub mod Service
