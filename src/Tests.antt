-- ===== src/Tests.antt =====
-- Concrete runs: each main theorem applied to a state of a small host.
pub mod Sample
pub mod Hosts
pub mod Queues
pub mod Input
pub mod Providers
mod Barriers
mod Stub
mod Rfvp
mod Onscripter
mod Siglus
