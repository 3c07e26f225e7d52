-- ===== src/Maintenance.antt =====
-- The maintenance runner, control-plane/src/maintenance.ts.
pub mod Cron
pub mod Settings
pub mod Gc
pub mod Expiry
pub mod Run
