-- ===== src/Onscripter.antt =====
-- The ONScripter runtime (bridge/onscripter_runtime), as far as it is modelled.
pub mod Presentation
pub mod Viewport
pub mod SaveFiles
pub mod SaveNames
