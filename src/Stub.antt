-- ===== src/Stub.antt =====
-- The stub engine (abi/src/engine_api_stub.cpp): the services table of builds without the KiriKiri
-- engine.
pub mod State
pub mod Json
pub mod Diagnostics
pub mod Life
pub mod Frames
pub mod Media
pub mod Api
pub mod Trim
pub mod Session
pub mod Sound
pub mod Serve
pub mod Bodies
pub mod Perform
pub mod Refine
pub mod RoundTrip
pub mod Drain
pub mod Dead
