-- ===== src/PowerSupply.antt =====
-- The car power supply on its serial line (src/backend/src/power_supply.rs).
pub mod Telegram
pub mod Version
pub mod Hub
pub mod RetryLog
pub mod Sender
