-- ===== src/Siglus/Exit.antt =====
-- A game that asked to be left (bridge/siglus_runtime/src/siglus_runtime_provider.cpp).
pub mod Rules
pub mod Runs
pub mod Inputs
pub mod Every
