-- ===== src/Dispatch/Invariant.antt =====
-- The invariant of the live handles, over every function of the API.
pub mod State
pub mod Rules
pub mod Create
pub mod Bodies
pub mod Requests
pub mod Destroy
pub mod Api
pub mod Calls
pub mod Every
