-- ===== src/Siglus.antt =====
-- The provider of SiglusEngine games: bridge/siglus_runtime/src/siglus_runtime_provider.cpp.
pub mod State
pub mod Open
pub mod Frames
pub mod Controls
pub mod Input
pub mod Queries
pub mod Run
pub mod Typing
pub mod Exit
