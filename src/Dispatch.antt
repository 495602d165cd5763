-- ===== src/Dispatch.antt =====
-- abi/src/engine_api_dispatch.cpp: the host API that routes each call to the KiriKiri engine or to
-- a runtime provider.
pub mod State
pub mod Errors
pub mod Keeps
pub mod Callbacks
pub mod Frame
pub mod Select
pub mod Ranking
pub mod Probing
pub mod Route
pub mod Queues
pub mod Logs
pub mod Fifo
pub mod Open
pub mod Lifecycle
pub mod Run
pub mod Options
pub mod Queries
pub mod Media
pub mod Api
pub mod Invariant
pub mod Creation
pub mod Startup
pub mod Reopen
pub mod Resume
pub mod Release
pub mod Gone
