-- ===== src/Rfvp.antt =====
-- The provider for games of the rfvp engine (bridge/rfvp_runtime).
pub mod State
pub mod Calls
pub mod Run
pub mod Gpu
pub mod Settings
pub mod Options
