-- ===== src/Engine.antt =====
-- The C ABI: abi/include/engine_api.h, abi/include/engine_runtime_provider.h and
-- abi/src/engine_legacy_services.h. `E` is the state of everything outside the host: the runtimes
-- behind the providers, the KiriKiri engine, the allocator and the file system.
pub mod Calls
pub mod Provider
pub mod Services
